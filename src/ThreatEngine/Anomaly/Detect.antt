-- ===== src/ThreatEngine/Anomaly/Detect.antt =====
-- Values inside their ranges raise no anomaly, and a clear departure does.
use d_ai_api_sec.Prelude.{◌≡◌, refl, false, String, List, [], ◌∷◌, All, ap, ◌∙◌}
use d_ai_api_sec.Prelude.Dict.{Dict, get}
use d_ai_api_sec.Errors.{ok}
use d_ai_api_sec.Float.{Float, nought, lt}
use d_ai_api_sec.Float.Literals.{dec-zero}
use d_ai_api_sec.ThreatEngine.Signal.{RequestSignal}
use d_ai_api_sec.ThreatEngine.Anomaly.{
  default_range, deviation, field_deviation, worst_deviation, numeric_field_anomaly,
}
use d_ai_api_sec.ThreatEngine.Anomaly.Bounds.{anomaly_of-eq}
use d_ai_api_sec.ThreatEngine.Anomaly.Exact.{min_nought}

module _ (ranges : Dict (List Float)) where
  -- The value is neither below nor above the field's range; so is NaN.
  abbrev pub InRange : String × Float → Type 0
  InRange (field, value) =
      (lo : Float) × (hi : Float) × (get ranges field default_range ≡ lo ∷ hi ∷ [])
      × (lt value lo ≡ false)
      × (lt hi value ≡ false)

  field_deviation-InRange :
      (f : String) (v : Float) → InRange (f, v) → field_deviation ranges f v ≡ ok nought
  unfolding field_deviation deviation
  field_deviation-InRange f v (lo, hi, e, low, high) = rw (e, low, high, dec-zero)

  worst_deviation-InRange :
      (fields : Dict Float) → All InRange fields → worst_deviation ranges fields nought ≡ ok nought
  unfolding worst_deviation
  worst_deviation-InRange [] h = refl
  worst_deviation-InRange ((f, v) ∷ fields) (h, hs) =
      rw (field_deviation-InRange f v h) (worst_deviation-InRange fields hs)

-- If no field lies below or above its range, as a NaN never does, the anomaly is 0.0.
pub anomaly-InRange :
    (signal : RequestSignal)
    → All (InRange signal.baseline_numeric_ranges) signal.numeric_fields
    → numeric_field_anomaly signal ≡ ok nought
unfolding numeric_field_anomaly
anomaly-InRange signal h =
    anomaly_of-eq signal.baseline_numeric_ranges signal.numeric_fields
    ∙ rw (worst_deviation-InRange signal.baseline_numeric_ranges signal.numeric_fields h)
        (ap ok min_nought)
