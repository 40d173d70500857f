-- ===== src/ThreatEngine/Features/Vector.antt =====
-- The feature vector: its layout, its bounds, and when `extract_features` returns one.
use d_ai_api_sec.Prelude.{◌≡◌, refl, String, Option, List, [], ◌∷◌}
use d_ai_api_sec.Prelude.Int.{ℤ, pos, ◌-ℤ◌, abs}
use d_ai_api_sec.Prelude.Dict.{Dict, lookup}
use d_ai_api_sec.Errors.{ok, >>=-eq-ok, ok-injective}
use d_ai_api_sec.Float.{Float, float}
use d_ai_api_sec.ThreatEngine.Signal.{RequestSignal}
use d_ai_api_sec.ThreatEngine.Entropy.{shannon_entropy}
use d_ai_api_sec.ThreatEngine.Anomaly.{numeric_field_anomaly}
use d_ai_api_sec.ThreatEngine.Features.{feature_order, extract_features}

-- The vector's values under the names of `FEATURE_ORDER`.
abbrev pub named : List String → List Float → Dict Float
named (n ∷ names) (x ∷ xs) = (n, x) ∷ named names xs
named _ _ = []

-- `vector[FEATURE_ORDER.index(name)]`
abbrev pub feature : String → List Float → Option Float
feature name vector = lookup name (named feature_order vector)

abbrev pub param_deviation : RequestSignal → ℤ
param_deviation s = pos (abs (s.param_count -ℤ s.baseline_param_count))

-- The parts of the vector that are computed.
pub record Parts (log2 : Float → Float) (s : RequestSignal) : Type 0 where
  pub endpoints : Float
  pub streak : Float
  pub entropy : Float
  pub deviation : Float
  pub anomaly : Float
  pub bad_ua : Float
  pub off_hours : Float
  pub endpoints_eq : float s.distinct_endpoints_60s ≡ ok endpoints
  pub streak_eq : float s.failed_auth_streak ≡ ok streak
  pub entropy_eq : shannon_entropy log2 s.raw_body ≡ ok entropy
  pub deviation_eq : float (param_deviation s) ≡ ok deviation
  pub anomaly_eq : numeric_field_anomaly s ≡ ok anomaly
  pub bad_ua_eq : float s.known_bad_ua_flag ≡ ok bad_ua
  pub off_hours_eq : float s.off_hours_flag ≡ ok off_hours

module _ (log2 : Float → Float) where
  abbrev pub vector_of : (s : RequestSignal) → Parts log2 s → List Float
  vector_of s p =
      s.req_rate_10s ∷ s.req_rate_60s ∷ p.endpoints ∷ p.streak ∷ p.entropy ∷ p.deviation ∷ p.anomaly
      ∷ s.session_age_seconds ∷ s.geo_velocity_kmph ∷ p.bad_ua ∷ s.response_error_rate_5m
      ∷ p.off_hours ∷ []

  pub extract-Parts :
      (s : RequestSignal) (v : List Float)
      → extract_features log2 s ≡ ok v
      → (p : Parts log2 s) × (vector_of s p ≡ v)
  unfolding extract_features
  extract-Parts s v e =
      let (x1, e1, k1) = >>=-eq-ok (float s.distinct_endpoints_60s) _ e in
      let (x2, e2, k2) = >>=-eq-ok (float s.failed_auth_streak) _ k1 in
      let (x3, e3, k3) = >>=-eq-ok (shannon_entropy log2 s.raw_body) _ k2 in
      let (x4, e4, k4) = >>=-eq-ok (float (param_deviation s)) _ k3 in
      let (x5, e5, k5) = >>=-eq-ok (numeric_field_anomaly s) _ k4 in
      let (x6, e6, k6) = >>=-eq-ok (float s.known_bad_ua_flag) _ k5 in
      let (x7, e7, k7) = >>=-eq-ok (float s.off_hours_flag) _ k6 in
      (
        record {
          endpoints = x1;
          streak = x2;
          entropy = x3;
          deviation = x4;
          anomaly = x5;
          bad_ua = x6;
          off_hours = x7;
          endpoints_eq = e1;
          streak_eq = e2;
          entropy_eq = e3;
          deviation_eq = e4;
          anomaly_eq = e5;
          bad_ua_eq = e6;
          off_hours_eq = e7;
        },
        ok-injective k7,
      )

  pub extract_of_Parts :
      (s : RequestSignal) (p : Parts log2 s) → extract_features log2 s ≡ ok (vector_of s p)
  unfolding extract_features
  extract_of_Parts s p =
      rw
        (
          p.endpoints_eq, p.streak_eq, p.entropy_eq, p.deviation_eq, p.anomaly_eq, p.bad_ua_eq,
          p.off_hours_eq,
        )
        refl
