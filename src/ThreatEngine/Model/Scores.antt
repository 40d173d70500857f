-- ===== src/ThreatEngine/Model/Scores.antt =====
-- The scores that `EnsembleThreatModel.score` reports lie between 0.0 and 1.0.
use d_ai_api_sec.Prelude.{◌≡◌, refl, List}
use d_ai_api_sec.Errors.{ok}
use d_ai_api_sec.Float.{Float, mul, nought, dec, ◌≼◌, IsFinite, round_4, arithmetic}
use d_ai_api_sec.Float.Order.{finite_between, le_of_lt, le_trans, finite-IsNumber}
use d_ai_api_sec.Float.Arith.{mul_mono, add_mono, add-IsNumber}
use d_ai_api_sec.Float.Decimal.{round_4_mono, round_4-nought, round_4-one}
use d_ai_api_sec.Float.Literals.{one-IsFinite, one_pos}
use d_ai_api_sec.ThreatEngine.Model.{
  EnsembleThreatModel, ScoreResult, predict, combine, iso_weight, xgb_weight, result_of, IsClip,
  normalize_iso, score,
}
use d_ai_api_sec.ThreatEngine.Model.Normalize.{IsInReach, normalize_iso_bounds}

abbrev pub InUnit : Float → Type 0
InUnit x = (nought ≼ x) × (x ≼ dec 1 0)

pub InUnit-IsFinite : (x : Float) → InUnit x → IsFinite x
InUnit-IsFinite x (p, q) = finite_between nought x (dec 1 0) refl one-IsFinite p q

-- A weight is finite and not negative, and so are its products with scores.
iso_weight-InUnit : InUnit iso_weight
unfolding arithmetic
iso_weight-InUnit = (refl, refl)

xgb_weight-InUnit : InUnit xgb_weight
unfolding arithmetic
xgb_weight-InUnit = (refl, refl)

module _ (w : Float) (weight : InUnit w) where
  weigh_mono : (x y : Float) → InUnit x → InUnit y → x ≼ y → mul w x ≼ mul w y
  weigh_mono x y (lx, hx) (ly, hy) h =
      mul_mono w w x y weight.0 (finite-IsNumber w (InUnit-IsFinite w weight)) lx h
        (InUnit-IsFinite w weight) (InUnit-IsFinite y (ly, hy))

  weigh-InUnit :
      (x : Float) → InUnit x → mul w (dec 1 0) ≼ dec 1 0 → nought ≼ mul w nought → InUnit (mul w x)
  weigh-InUnit x h top bottom = (
    le_trans nought (mul w nought) (mul w x) bottom
        (weigh_mono nought x (refl, le_of_lt nought (dec 1 0) one_pos) h h.0),
    le_trans (mul w x) (mul w (dec 1 0)) (dec 1 0)
        (weigh_mono x (dec 1 0) h
          (le_of_lt nought (dec 1 0) one_pos, finite-IsNumber (dec 1 0) one-IsFinite) h.1)
        top,
  )

iso_ends : (mul iso_weight (dec 1 0) ≼ dec 1 0) × (nought ≼ mul iso_weight nought)
unfolding arithmetic
iso_ends = (refl, refl)

xgb_ends : (mul xgb_weight (dec 1 0) ≼ dec 1 0) × (nought ≼ mul xgb_weight nought)
unfolding arithmetic
xgb_ends = (refl, refl)

pub one-InUnit : InUnit (dec 1 0)
one-InUnit = (le_of_lt nought (dec 1 0) one_pos, finite-IsNumber (dec 1 0) one-IsFinite)

iso_part-IsFinite : (x : Float) → InUnit x → IsFinite (mul iso_weight x)
iso_part-IsFinite x h =
    InUnit-IsFinite _ (weigh-InUnit iso_weight iso_weight-InUnit x h iso_ends.0 iso_ends.1)

xgb_part-IsFinite : (x : Float) → InUnit x → IsFinite (mul xgb_weight x)
xgb_part-IsFinite x h =
    InUnit-IsFinite _ (weigh-InUnit xgb_weight xgb_weight-InUnit x h xgb_ends.0 xgb_ends.1)

-- The weighted sum grows with each of the two scores.
pub combine_mono :
    (i p i' p' : Float)
    → InUnit i
    → InUnit p
    → InUnit i'
    → InUnit p'
    → i ≼ i'
    → p ≼ p'
    → combine i p ≼ combine i' p'
unfolding combine
combine_mono i p i' p' hi hp hi' hp' le_i le_p =
    add_mono (mul iso_weight i) (mul iso_weight i') (mul xgb_weight p) (mul xgb_weight p')
      (weigh_mono iso_weight iso_weight-InUnit i i' hi hi' le_i)
      (weigh_mono xgb_weight xgb_weight-InUnit p p' hp hp' le_p)
      (add-IsNumber _ _ (iso_part-IsFinite i hi) (xgb_part-IsFinite p hp))
      (add-IsNumber _ _ (iso_part-IsFinite i' hi') (xgb_part-IsFinite p' hp'))

combine-one : combine (dec 1 0) (dec 1 0) ≡ dec 1 0
unfolding combine arithmetic
combine-one = refl

combine-nought : combine nought nought ≡ nought
unfolding combine arithmetic
combine-nought = refl

pub combine-InUnit : (i p : Float) → InUnit i → InUnit p → InUnit (combine i p)
combine-InUnit i p hi hp = (
  rw combine-nought at
      (combine_mono nought nought i p (refl, one-InUnit.0) (refl, one-InUnit.0) hi hp hi.0 hp.0),
  rw combine-one at (combine_mono i p (dec 1 0) (dec 1 0) hi hp one-InUnit one-InUnit hi.1 hp.1),
)

pub round_4-InUnit : (x : Float) → InUnit x → InUnit (round_4 x)
round_4-InUnit x h = (
  rw round_4-nought at (round_4_mono nought x refl h.0 (InUnit-IsFinite x h)),
  rw round_4-one at (round_4_mono x (dec 1 0) h.0 h.1 one-IsFinite),
)

-- Both artifacts are loaded and return for the vector a raw score in reach of the score range and a
-- probability.
pub record Reads (m : EnsembleThreatModel) (x : List Float) (raw prob : Float) : Type 0 where
  pub forest : predict m.isolation_forest x ≡ ok raw
  pub xgb : predict m.xgb_model x ≡ ok prob
  pub reach : IsInReach m raw
  pub probability : InUnit prob

module _ (clip : Float → Float → Float → Float) (laws : IsClip clip) where
  pub score-eq-ok :
      (m : EnsembleThreatModel) (x : List Float) (raw prob : Float)
      → Reads m x raw prob
      → (n : Float) × (normalize_iso clip m raw ≡ ok n)
        × InUnit n
        × (score clip m x ≡ ok (result_of n prob))
  unfolding score
  score-eq-ok m x raw prob h =
      let (n, e, low, high) = normalize_iso_bounds clip laws m raw h.reach in
      (n, e, (low, high), rw (h.forest, e, h.xgb) refl)

  -- A loaded model whose artifacts return a raw score in reach of the score range and a probability
  -- returns a result, and its three reported scores lie between 0.0 and 1.0.
  pub score_bounds :
      (m : EnsembleThreatModel) (x : List Float) (raw prob : Float)
      → Reads m x raw prob
      → (r : ScoreResult) × (score clip m x ≡ ok r)
        × InUnit r.isolation_score
        × InUnit r.xgboost_score
        × InUnit r.final_score
  score_bounds m x raw prob h =
      let (n, _, unit, e) = score-eq-ok m x raw prob h in
      (
        result_of n prob,
        e,
        round_4-InUnit n unit,
        round_4-InUnit prob h.probability,
        round_4-InUnit (combine n prob) (combine-InUnit n prob unit h.probability),
      )
