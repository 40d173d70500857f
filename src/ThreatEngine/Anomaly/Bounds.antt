-- ===== src/ThreatEngine/Anomaly/Bounds.antt =====
-- The anomaly's range, and when `_numeric_field_anomaly` raises.
use d_ai_api_sec.Prelude.{◌≡◌, refl, true, false, List, [], ◌∷◌, arith}
use d_ai_api_sec.Prelude.Dict.{Dict}
use d_ai_api_sec.Errors.{ok, >>=-eq-ok, ◌>>=◌}
use d_ai_api_sec.Float.{Float, sub, div, quotient, nought, dec, lt, ◌≼◌, ◌≺◌, max, min, is_zero}
use d_ai_api_sec.Float.Order.{le_trans, IsNumber-of_le, le_of_lt, not-lt_of_le}
use d_ai_api_sec.Float.Literals.{dec-zero, epsilon_pos, ten_pos}
use d_ai_api_sec.ThreatEngine.Signal.{RequestSignal}
use d_ai_api_sec.ThreatEngine.Anomaly.{
  span, deviation, field_deviation, worst_deviation, numeric_field_anomaly, anomaly_of,
}

-- A span is never zero, so no division raises.
span_nonzero : (lo hi : Float) → is_zero (span lo hi) ≡ false
unfolding span
span_nonzero lo hi = above (sub hi lo) (dec 1 6) epsilon_pos
  where
    above : (x e : Float) → nought ≺ e → is_zero (max x e) ≡ false
    above x e p = ground arith

-- The deviation as a value.
abbrev pub deviation_value : Float → Float → Float → Float
deviation_value lo hi v = elim (lt v lo) [
  | true ↦ quotient (sub lo v) (span lo hi)
  | false ↦ elim (lt hi v) [ true ↦ quotient (sub v hi) (span lo hi) | false ↦ nought ]
]

pub deviation-eq-ok : (lo hi v : Float) → deviation lo hi v ≡ ok (deviation_value lo hi v)
unfolding deviation div
deviation-eq-ok lo hi v = ground (arith, span_nonzero lo hi, dec-zero)

pub max_ge : (w d : Float) → nought ≼ w → w ≼ max w d
max_ge w d p = ground arith

pub min_bounds : (w t : Float) → nought ≼ w → nought ≺ t → (nought ≼ min w t) × (min w t ≼ t)
min_bounds w t p q = ground arith

module _ (ranges : Dict (List Float)) where
  -- The loop never lowers `worst`.
  pub worst_deviation-ge :
      (fields : Dict Float) (w r : Float)
      → nought ≼ w
      → worst_deviation ranges fields w ≡ ok r
      → w ≼ r
  unfolding worst_deviation
  worst_deviation-ge [] w r p e =
      let (_, number) = IsNumber-of_le nought w p in ground (arith, number)
  worst_deviation-ge ((f, v) ∷ fields) w r p e =
      let (dev, _, rest) = >>=-eq-ok (field_deviation ranges f v) _ e in
      let up = max_ge w dev p in
      le_trans w (max w dev) r up
        (worst_deviation-ge fields (max w dev) r (le_trans nought w (max w dev) p up) rest)

  -- With no fields the loop's result, clipped, is what the early return gives.
  pub anomaly_of-eq :
      (fields : Dict Float)
      → anomaly_of ranges fields
        ≡ (worst_deviation ranges fields nought >>= λ w. ok (min w (dec 100 1)))
  unfolding worst_deviation
  anomaly_of-eq [] = ground (
    arith,
    dec-zero,
    ten_pos,
    not-lt_of_le nought (dec 100 1) (le_of_lt nought (dec 100 1) ten_pos),
  )
  anomaly_of-eq (f ∷ fields) = rw dec-zero

  anomaly_of_bounds :
      (fields : Dict Float) (a : Float)
      → anomaly_of ranges fields ≡ ok a
      → (nought ≼ a) × (a ≼ dec 100 1)
  anomaly_of_bounds fields a e =
      let (w, run, clip) =
        >>=-eq-ok (worst_deviation ranges fields nought) _ (rw anomaly_of-eq at e) in
      let bounds = min_bounds w (dec 100 1) (worst_deviation-ge fields nought w refl run) ten_pos in
      ground (arith, bounds)

-- Whatever the fields hold, NaN and infinities included, an anomaly that is returned lies between
-- 0.0 and 10.0.
pub anomaly_bounds :
    (signal : RequestSignal) (a : Float)
    → numeric_field_anomaly signal ≡ ok a
    → (nought ≼ a) × (a ≼ dec 100 1)
unfolding numeric_field_anomaly
anomaly_bounds signal a e =
    anomaly_of_bounds signal.baseline_numeric_ranges signal.numeric_fields a e
