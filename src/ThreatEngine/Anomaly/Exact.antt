-- ===== src/ThreatEngine/Anomaly/Exact.antt =====
-- The anomaly is the greatest deviation, clipped; and when `_numeric_field_anomaly` raises.
use d_ai_api_sec.Prelude.{
  ◌≡◌, refl, ◌⊎◌, false, String, List, [], ◌∷◌, length, All, Any, arith, Bool-cases, inl, inr, ap,
  sym, ◌∙◌,
}
use d_ai_api_sec.Prelude.Dict.{Dict, get}
use d_ai_api_sec.Errors.{ok, >>=-eq-ok, ok-injective}
use d_ai_api_sec.Float.{Float, nought, dec, le, ◌≼◌, ◌≺◌, IsNumber, max, min}
use d_ai_api_sec.Float.Order.{le_trans, le_of_lt, not-lt_of_le}
use d_ai_api_sec.Float.Literals.{ten_pos}
use d_ai_api_sec.ThreatEngine.Signal.{RequestSignal}
use d_ai_api_sec.ThreatEngine.Anomaly.{
  default_range, field_deviation, worst_deviation, numeric_field_anomaly,
}
use d_ai_api_sec.ThreatEngine.Anomaly.Bounds.{worst_deviation-ge, anomaly_of-eq, max_ge}

max_ge_right : (w d : Float) → nought ≼ w → IsNumber d → d ≼ max w d
max_ge_right w d p q = ground arith

max_cases : (w d : Float) → (max w d ≡ w) ⊎ (max w d ≡ d)
max_cases w d = ground arith

min_mono : (x y t : Float) → x ≼ y → nought ≺ t → min x t ≼ min y t
min_mono x y t p q = ground arith

pub min_nought : min nought (dec 100 1) ≡ nought
min_nought = rw (not-lt_of_le nought (dec 100 1) (le_of_lt nought (dec 100 1) ten_pos)) refl

module _ (ranges : Dict (List Float)) where
  -- The range that is looked up for the field unpacks into two numbers.
  abbrev pub HasPair : String × Float → Type 0
  HasPair (field, _) = length (get ranges field default_range) ≡ 2

  -- The field's deviation is a NaN or, clipped, does not exceed a.
  abbrev pub Covers : Float → String × Float → Type 0
  Covers a (field, value) =
      (d : Float) × (field_deviation ranges field value ≡ ok d)
      × ((le d d ≡ false) ⊎ (min d (dec 100 1) ≼ a))

  abbrev pub Attains : Float → String × Float → Type 0
  Attains a (field, value) =
      (d : Float) × (field_deviation ranges field value ≡ ok d) × (a ≡ min d (dec 100 1))

  abbrev AtMost : Float → String × Float → Type 0
  AtMost r (field, value) =
      (d : Float) × (field_deviation ranges field value ≡ ok d) × ((le d d ≡ false) ⊎ (d ≼ r))

  worst_deviation-AtMost :
      (fields : Dict Float) (w r : Float)
      → nought ≼ w
      → worst_deviation ranges fields w ≡ ok r
      → All (AtMost r) fields
  unfolding worst_deviation
  worst_deviation-AtMost [] w r p e = tt
  worst_deviation-AtMost ((f, v) ∷ fields) w r p e =
      let (dev, run, rest) = >>=-eq-ok (field_deviation ranges f v) _ e in
      let p' = le_trans nought w (max w dev) p (max_ge w dev p) in
      (
        (
          dev,
          run,
          elim (Bool-cases (le dev dev)) [
            | inl number ↦ inr (
                le_trans dev (max w dev) r (max_ge_right w dev p number)
                  (worst_deviation-ge ranges fields (max w dev) r p' rest))
            | inr not_number ↦ inl not_number
          ],
        ),
        worst_deviation-AtMost fields (max w dev) r p' rest,
      )

  worst_deviation-attained :
      (fields : Dict Float) (w r : Float)
      → worst_deviation ranges fields w ≡ ok r
      → (r ≡ w) ⊎ Any (λ f. field_deviation ranges f.0 f.1 ≡ ok r) fields
  unfolding worst_deviation
  worst_deviation-attained [] w r e = inl (sym (ok-injective e))
  worst_deviation-attained ((f, v) ∷ fields) w r e =
      let (dev, run, rest) = >>=-eq-ok (field_deviation ranges f v) _ e in
      elim (worst_deviation-attained fields (max w dev) r rest) [
        | inl same ↦ elim (max_cases w dev) [
          | inl kept ↦ inl (same ∙ kept)
          | inr new ↦ inr (inl (cc))
        ]
        | inr later ↦ inr (inr later)
      ]

  clip_AtMost :
      (fields : Dict Float) (r : Float)
      → All (AtMost r) fields
      → All (Covers (min r (dec 100 1))) fields
  clip_AtMost [] r h = tt
  clip_AtMost (f ∷ fields) r ((d, run, h), hs) = (
    (d, run, elim h [ inl n ↦ inl n | inr p ↦ inr (min_mono d r (dec 100 1) p ten_pos) ]),
    clip_AtMost fields r hs,
  )

  clip_attained :
      (fields : Dict Float) (r a : Float)
      → a ≡ min r (dec 100 1)
      → Any (λ f. field_deviation ranges f.0 f.1 ≡ ok r) fields
      → Any (Attains a) fields
  clip_attained [] r a e h = elim h [ ]
  clip_attained (f ∷ fields) r a e (inl run) = inl (r, run, e)
  clip_attained (f ∷ fields) r a e (inr later) = inr (clip_attained fields r a e later)

-- The anomaly that is returned is the greatest of the fields' deviations, each clipped at 10.0: no
-- deviation that is a number exceeds it when clipped, and it is 0.0 or the clipped deviation of one
-- of the fields.
pub anomaly_greatest :
    (signal : RequestSignal) (a : Float)
    → numeric_field_anomaly signal ≡ ok a
    → All (Covers signal.baseline_numeric_ranges a) signal.numeric_fields
      × ((a ≡ nought) ⊎ Any (Attains signal.baseline_numeric_ranges a) signal.numeric_fields)
unfolding numeric_field_anomaly
anomaly_greatest signal a e =
    let ranges = signal.baseline_numeric_ranges in
    let fields = signal.numeric_fields in
    let (w, run, clip) =
      >>=-eq-ok (worst_deviation ranges fields nought) _ (rw (anomaly_of-eq ranges) at e) in
    let a' = ok-injective clip in
    (
      rw (← a')
          (clip_AtMost ranges fields w (worst_deviation-AtMost ranges fields nought w refl run)),
      elim (worst_deviation-attained ranges fields nought w run) [
        | inl low ↦ inl (sym a' ∙ ap (λ x. min x (dec 100 1)) low ∙ min_nought)
        | inr some_field ↦ inr (clip_attained ranges fields w a (sym a') some_field)
      ],
    )
