-- ===== src/Tests/Features.antt =====
-- Runs of the feature extraction.
use d_ai_api_sec.Prelude.{ℕ, ◌≡◌, refl, ◌⊎◌, inl, List, [], ◌∷◌, All, Any, arith}
use d_ai_api_sec.Prelude.Int.{◌-ℤ◌}
use d_ai_api_sec.Errors.{ok, err, value_error}
use d_ai_api_sec.Float.{Float, arithmetic, float, dec, minus, nought, ◌≼◌, ◌≺◌}
use d_ai_api_sec.ThreatEngine.Signal.{construct}
use d_ai_api_sec.ThreatEngine.Signal.Valid.{IsValid, arguments_of, construct-arguments_of}
use d_ai_api_sec.ThreatEngine.Entropy.{
  counter, shannon_entropy, increment, term, math_log2, sum_terms,
}
use d_ai_api_sec.ThreatEngine.Anomaly.{
  numeric_field_anomaly, worst_deviation, field_deviation, deviation, span,
}
use d_ai_api_sec.ThreatEngine.Anomaly.Exact.{HasPair, Covers, Attains, anomaly_greatest}
use d_ai_api_sec.ThreatEngine.Anomaly.Raises.{anomaly_raises}
use d_ai_api_sec.ThreatEngine.Anomaly.Detect.{InRange, anomaly-InRange}
use d_ai_api_sec.ThreatEngine.Entropy.{shannon_entropy}
use d_ai_api_sec.ThreatEngine.Entropy.Bounds.{shannon_entropy_total}
use d_ai_api_sec.ThreatEngine.Anomaly.Tampered.{Outside, anomaly-Outside}
use d_ai_api_sec.ThreatEngine.Features.{extract_features}
use d_ai_api_sec.ThreatEngine.Features.Vector.{Parts}
use d_ai_api_sec.ThreatEngine.Features.Layout.{IsLaidOut, extract_features-IsLaidOut}
use d_ai_api_sec.ThreatEngine.Features.Bounds.{
  HasNumbers, IsSized, extract_features_nonneg, extract_features_total,
}
use d_ai_api_sec.Tests.Instances.{log2, log2_laws, tampered, ordinary, malformed}

pub tampered-IsValid : IsValid tampered
unfolding arithmetic
tampered-IsValid = record {
  rate_10s = refl;
  rate_60s = refl;
  endpoints = omega arith;
  streak = omega arith;
  age = refl;
  velocity = refl;
  bad_ua = (omega arith, omega arith);
  error_rate = (refl, refl);
  off_hours = (omega arith, omega arith);
}

tampered_constructed : construct (arguments_of tampered) ≡ ok tampered
tampered_constructed = construct-arguments_of tampered tampered-IsValid

abbrev aba : List ℕ
aba = 97 ∷ 98 ∷ 97 ∷ []

tampered_anomaly : numeric_field_anomaly tampered ≡ ok (dec 30 1)
unfolding numeric_field_anomaly worst_deviation field_deviation deviation span arithmetic
tampered_anomaly = refl

anomaly_greatest_example :
    All (Covers tampered.baseline_numeric_ranges (dec 30 1)) tampered.numeric_fields
    × ((dec 30 1 ≡ nought)
        ⊎ Any (Attains tampered.baseline_numeric_ranges (dec 30 1)) tampered.numeric_fields)
anomaly_greatest_example = anomaly_greatest tampered (dec 30 1) tampered_anomaly

anomaly_raises_example :
    All (HasPair malformed.baseline_numeric_ranges) malformed.numeric_fields
      × ((a : Float) × (numeric_field_anomaly malformed ≡ ok a))
    ⊎ Any (λ f. ¬ HasPair malformed.baseline_numeric_ranges f) malformed.numeric_fields
      × (numeric_field_anomaly malformed ≡ err value_error)
anomaly_raises_example = anomaly_raises malformed

ordinary-InRange : InRange ordinary.baseline_numeric_ranges ("qty", dec 2 0)
unfolding arithmetic
ordinary-InRange = (dec 1 0, dec 3 0, refl, refl, refl)

anomaly-InRange_example : numeric_field_anomaly ordinary ≡ ok nought
anomaly-InRange_example = anomaly-InRange ordinary (ordinary-InRange, tt)

tampered-Outside : Outside tampered.baseline_numeric_ranges ("qty", minus (dec 5 0))
unfolding span arithmetic
tampered-Outside = (dec 1 0, dec 3 0, refl, refl, inl (refl, refl))

anomaly-Outside_example : nought ≺ dec 30 1
anomaly-Outside_example =
    anomaly-Outside tampered (dec 30 1) (inl tampered-Outside) tampered_anomaly

pub tampered-IsSized : IsSized tampered
unfolding ◌-ℤ◌
tampered-IsSized = record {
  endpoints = omega arith;
  streak = omega arith;
  params = omega arith;
  body = omega arith;
}

extract_features_total_example : (v : List Float) × (extract_features log2 tampered ≡ ok v)
extract_features_total_example =
    extract_features_total log2 log2_laws tampered tampered-IsValid tampered-IsSized (refl, tt)

abbrev pub tampered_vector : List Float
tampered_vector =
    dec 5 1
    ∷ dec 18 1
    ∷ dec 2 0
    ∷ nought
    ∷ dec 1 0
    ∷ dec 6 0
    ∷ dec 30 1
    ∷ dec 1000 0
    ∷ dec 30 1
    ∷ nought
    ∷ dec 2 2
    ∷ nought
    ∷ []

tampered_entropy : shannon_entropy log2 tampered.raw_body ≡ ok (dec 1 0)
unfolding arithmetic shannon_entropy sum_terms term math_log2 counter increment
tampered_entropy = refl

pub tampered_features : extract_features log2 tampered ≡ ok tampered_vector
unfolding extract_features ◌-ℤ◌ float arithmetic
tampered_features = rw (tampered_entropy, tampered_anomaly) refl

extract_features-IsLaidOut_example :
    (p : Parts log2 tampered) × IsLaidOut log2 tampered p tampered_vector
extract_features-IsLaidOut_example =
    extract_features-IsLaidOut log2 tampered tampered_vector tampered_features

tampered-HasNumbers : HasNumbers tampered
unfolding arithmetic
tampered-HasNumbers = record {
  rate_10s = refl;
  rate_60s = refl;
  age = refl;
  velocity = refl;
  error_rate = refl;
}

extract_features_nonneg_example : All (λ x. nought ≼ x) tampered_vector
extract_features_nonneg_example =
    extract_features_nonneg log2 log2_laws tampered tampered_vector tampered-IsValid
      tampered-HasNumbers (omega arith) tampered_features

shannon_entropy_total_example : (h : Float) × (shannon_entropy log2 aba ≡ ok h) × (nought ≼ h)
shannon_entropy_total_example = shannon_entropy_total log2 log2_laws aba (omega arith)
