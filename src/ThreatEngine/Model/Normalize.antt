-- ===== src/ThreatEngine/Model/Normalize.antt =====
-- The normalized isolation score.
use d_ai_api_sec.Prelude.{◌≡◌, refl, ◌⊎◌, arith, Bool-cases, inl, inr, sym, ◌∙◌, false}
use d_ai_api_sec.Errors.{ok, ok-injective}
use d_ai_api_sec.Float.{
  Float, sub, div, quotient, max, nought, dec, lt, ◌≼◌, ◌≺◌, IsNumber, IsFinite, is_zero,
}
use d_ai_api_sec.Float.Order.{
  le_of_lt, le_of_not-lt, IsNumber-of_le, le_trans, lt_of_lt_of_le, lt_trans, not-le-lt,
  finite-IsNumber,
}
use d_ai_api_sec.Float.Arith.{sub-IsNumber, sub_mono, quotient_mono, quotient-IsNumber}
use d_ai_api_sec.Float.Literals.{dec-zero, epsilon_pos, one_literal, one_pos, one-IsFinite}
use d_ai_api_sec.ThreatEngine.Model.{EnsembleThreatModel, IsClip, normalize_iso}

abbrev pub span : EnsembleThreatModel → Float
span m = max (sub m.iso_score_max m.iso_score_min) (dec 1 6)

-- The anomaly before it is clipped.
abbrev pub raw_anomaly : EnsembleThreatModel → Float → Float
raw_anomaly m raw = quotient (sub m.iso_score_max raw) (span m)

-- The ends of the score range are finite, and so is the distance of the raw score from its upper end.
pub record IsInReach (m : EnsembleThreatModel) (raw : Float) : Type 0 where
  pub min : IsFinite m.iso_score_min
  pub max : IsFinite m.iso_score_max
  pub raw_score : IsFinite raw
  pub distance : IsFinite (sub m.iso_score_max raw)

span_pos :
    (m : EnsembleThreatModel)
    → IsFinite m.iso_score_min
    → IsFinite m.iso_score_max
    → nought ≺ span m
span_pos m p q =
    above (sub m.iso_score_max m.iso_score_min) (dec 1 6) (sub-IsNumber _ _ q p) epsilon_pos
  where
    above : (x e : Float) → IsNumber x → nought ≺ e → nought ≺ max x e
    above x e p q = ground arith

not-zero_of_pos : (x : Float) → nought ≺ x → is_zero x ≡ false
not-zero_of_pos x p = ground arith

-- c is x, brought into the range from 0.0 to top.
abbrev Clipped : Float → Float → Float → Type 0
Clipped top x c =
    (x ≺ nought) × (c ≡ nought) ⊎ ((nought ≼ x) × (x ≼ top) × (c ≡ x) ⊎ (top ≺ x) × (c ≡ top))

Clipped_bounds : (top x c : Float) → nought ≺ top → Clipped top x c → (nought ≼ c) × (c ≼ top)
Clipped_bounds top x c p (inl (_, e)) = rw e (refl, le_of_lt nought top p)
Clipped_bounds top x c p (inr (inl (low, high, e))) = rw e (low, high)
Clipped_bounds top x c p (inr (inr (_, e))) =
    rw e (le_of_lt nought top p, (IsNumber-of_le nought top (le_of_lt nought top p)).1)

Clipped_mono :
    (top x y c d : Float) → nought ≺ top → x ≼ y → Clipped top x c → Clipped top y d → c ≼ d
Clipped_mono top x y c d p h (inl (_, e)) other = rw e (Clipped_bounds top y d p other).0
Clipped_mono top x y c d p h (inr (inl (low, high, e))) (inl (neg, _)) =
    absurd (not-le-lt nought y (le_trans nought x y low h) neg)
Clipped_mono top x y c d p h (inr (inl (low, high, e))) (inr (inl (_, _, e'))) = rw (e, e') h
Clipped_mono top x y c d p h (inr (inl (low, high, e))) (inr (inr (_, e'))) = rw (e, e') high
Clipped_mono top x y c d p h (inr (inr (beyond, e))) (inl (neg, _)) = absurd (
    not-le-lt nought y
      (le_of_lt nought y (lt_trans nought top y p (lt_of_lt_of_le top x y beyond h))) neg)
Clipped_mono top x y c d p h (inr (inr (beyond, e))) (inr (inl (_, high, _))) =
    absurd (not-le-lt y top high (lt_of_lt_of_le top x y beyond h))
Clipped_mono top x y c d p h (inr (inr (beyond, e))) (inr (inr (_, e'))) =
    rw (e, e') (IsNumber-of_le nought top (le_of_lt nought top p)).1

module _ (clip : Float → Float → Float → Float) (laws : IsClip clip) where
  abbrev unit_clip : Float → Float
  unit_clip x = clip x nought (dec 1 0)

  pub normalize_iso-eq-ok :
      (m : EnsembleThreatModel) (raw : Float)
      → IsInReach m raw
      → normalize_iso clip m raw ≡ ok (unit_clip (raw_anomaly m raw))
  unfolding normalize_iso div
  normalize_iso-eq-ok m raw h =
      rw (not-zero_of_pos (span m) (span_pos m h.min h.max), dec-zero, one_literal) refl

  -- Clipping to [0, 1] by cases on where the value lies.
  clip_cases : (x : Float) → IsNumber x → Clipped (dec 1 0) x (unit_clip x)
  clip_cases x p = elim (Bool-cases (lt x nought)) [
    | inl low ↦ inl (low, laws.below x nought (dec 1 0) (le_of_lt nought (dec 1 0) one_pos) low)
    | inr not_low ↦
        let above = le_of_not-lt x nought p refl not_low in
        elim (Bool-cases (lt (dec 1 0) x)) [
          | inl high ↦
              inr
                (inr (high, laws.above x nought (dec 1 0) (le_of_lt nought (dec 1 0) one_pos) high))
          | inr not_high ↦
              let below =
                le_of_not-lt (dec 1 0) x (finite-IsNumber (dec 1 0) one-IsFinite) p not_high in
              inr (inl (above, below, laws.inside x nought (dec 1 0) above below))
        ]
  ]

  raw_anomaly-IsNumber :
      (m : EnsembleThreatModel) (raw : Float) → IsInReach m raw → IsNumber (raw_anomaly m raw)
  raw_anomaly-IsNumber m raw h =
      quotient-IsNumber (sub m.iso_score_max raw) (span m) h.distance (span_pos m h.min h.max)

  -- For a finite score range, and a raw score at a finite distance from its upper end, the normalized
  -- score is returned and lies between 0.0 and 1.0.
  pub normalize_iso_bounds :
      (m : EnsembleThreatModel) (raw : Float)
      → IsInReach m raw
      → (n : Float) × (normalize_iso clip m raw ≡ ok n) × (nought ≼ n) × (n ≼ dec 1 0)
  normalize_iso_bounds m raw h =
      let bounds =
        Clipped_bounds (dec 1 0) (raw_anomaly m raw) (unit_clip (raw_anomaly m raw)) one_pos
          (clip_cases (raw_anomaly m raw) (raw_anomaly-IsNumber m raw h)) in
      (unit_clip (raw_anomaly m raw), normalize_iso-eq-ok m raw h, bounds.0, bounds.1)

  -- For a finite score range, and two raw scores at a finite distance from its upper end, a lower raw
  -- score, which is a more anomalous one, never gives a lower normalized score.
  pub normalize_iso_anti :
      (m : EnsembleThreatModel) (raw raw' n n' : Float)
      → IsInReach m raw
      → IsInReach m raw'
      → raw ≼ raw'
      → normalize_iso clip m raw ≡ ok n
      → normalize_iso clip m raw' ≡ ok n'
      → n' ≼ n
  normalize_iso_anti m raw raw' n n' h h' p e e' =
      let closer : sub m.iso_score_max raw' ≼ sub m.iso_score_max raw =
        sub_mono m.iso_score_max m.iso_score_max raw' raw (finite-IsNumber _ h.max) p
          (sub-IsNumber _ _ h.max h'.raw_score) (sub-IsNumber _ _ h.max h.raw_score) in
      let same : n ≡ unit_clip (raw_anomaly m raw) =
        ok-injective (sym e ∙ normalize_iso-eq-ok m raw h) in
      let same' : n' ≡ unit_clip (raw_anomaly m raw') =
        ok-injective (sym e' ∙ normalize_iso-eq-ok m raw' h') in
      Clipped_mono (dec 1 0) (raw_anomaly m raw') (raw_anomaly m raw) n' n one_pos
        (quotient_mono (sub m.iso_score_max raw') (sub m.iso_score_max raw) (span m) closer
          h'.distance h.distance (span_pos m h.min h.max))
        (rw same' (clip_cases (raw_anomaly m raw') (raw_anomaly-IsNumber m raw' h')))
        (rw same (clip_cases (raw_anomaly m raw) (raw_anomaly-IsNumber m raw h)))
