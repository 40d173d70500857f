-- ===== src/ThreatEngine/Features/Bounds.antt =====
-- The vector's bounds, and when `extract_features` returns one.
use mathlib.Core.Path.{subst}
use d_ai_api_sec.Prelude.{◌^◌, ◌≤◌, ◌≡◌, refl, List, length, All, ◌&◌, arith, sym, ◌∙◌}
use d_ai_api_sec.Prelude.Int.{ℤ, pos, abs, ◌≤ℤ◌}
use d_ai_api_sec.Errors.{ok, ok-injective}
use d_ai_api_sec.Float.{Float, nought, ◌≼◌, IsNumber}
use d_ai_api_sec.Float.Order.{le_of_not-lt}
use d_ai_api_sec.Float.Convert.{float_nonneg, float_total}
use d_ai_api_sec.ThreatEngine.Signal.{RequestSignal}
use d_ai_api_sec.ThreatEngine.Signal.Valid.{IsValid}
use d_ai_api_sec.ThreatEngine.Entropy.{IsLog2}
use d_ai_api_sec.ThreatEngine.Entropy.Bounds.{shannon_entropy_total}
use d_ai_api_sec.ThreatEngine.Anomaly.Bounds.{anomaly_bounds}
use d_ai_api_sec.ThreatEngine.Anomaly.Exact.{HasPair}
use d_ai_api_sec.ThreatEngine.Anomaly.Raises.{anomaly_total}
use d_ai_api_sec.ThreatEngine.Features.{extract_features}
use d_ai_api_sec.ThreatEngine.Features.Vector.{
  param_deviation, Parts, vector_of, extract-Parts, extract_of_Parts,
}

-- The five floating fields are no NaN.
pub record HasNumbers (s : RequestSignal) : Type 0 where
  pub rate_10s : IsNumber s.req_rate_10s
  pub rate_60s : IsNumber s.req_rate_60s
  pub age : IsNumber s.session_age_seconds
  pub velocity : IsNumber s.geo_velocity_kmph
  pub error_rate : IsNumber s.response_error_rate_5m

-- The integers are below 2 ^ 53 and the body is no longer than a text can be.
pub record IsSized (s : RequestSignal) : Type 0 where
  pub endpoints : abs s.distinct_endpoints_60s ≤ 2 ^ 53
  pub streak : abs s.failed_auth_streak ≤ 2 ^ 53
  pub params : abs (param_deviation s) ≤ 2 ^ 53
  pub body : length s.raw_body ≤ 2 ^ 63

flag_small : (n : ℤ) → pos 0 ≤ℤ n → n ≤ℤ pos 1 → abs n ≤ 2 ^ 53
flag_small n p q = ground arith

module _ (log2 : Float → Float) (laws : IsLog2 log2) where
  Parts-nonneg :
      (s : RequestSignal) (p : Parts log2 s)
      → IsValid s
      → HasNumbers s
      → length s.raw_body ≤ 2 ^ 63
      → All (λ x. nought ≼ x) (vector_of log2 s p)
  Parts-nonneg s p v n le =
      let (h, run, high) = shannon_entropy_total log2 laws s.raw_body le in
      let same : h ≡ p.entropy = ok-injective (sym run ∙ p.entropy_eq) in
      le_of_not-lt s.req_rate_10s nought n.rate_10s refl v.rate_10s
      & le_of_not-lt s.req_rate_60s nought n.rate_60s refl v.rate_60s
      & float_nonneg s.distinct_endpoints_60s p.endpoints v.endpoints p.endpoints_eq
      & float_nonneg s.failed_auth_streak p.streak v.streak p.streak_eq
      & rw (← same) high
      & float_nonneg (param_deviation s) p.deviation (omega arith) p.deviation_eq
      & (anomaly_bounds s p.anomaly p.anomaly_eq).0
      & le_of_not-lt s.session_age_seconds nought n.age refl v.age
      & le_of_not-lt s.geo_velocity_kmph nought n.velocity refl v.velocity
      & float_nonneg s.known_bad_ua_flag p.bad_ua v.bad_ua.0 p.bad_ua_eq
      & le_of_not-lt s.response_error_rate_5m nought n.error_rate refl v.error_rate.0
      & float_nonneg s.off_hours_flag p.off_hours v.off_hours.0 p.off_hours_eq
      & tt

  -- From a signal within the declared bounds, with no NaN among its floating fields and a body of at
  -- most 2 ^ 63 characters, every entry of the vector is a number and not negative.
  pub extract_features_nonneg :
      (s : RequestSignal) (v : List Float)
      → IsValid s
      → HasNumbers s
      → length s.raw_body ≤ 2 ^ 63
      → extract_features log2 s ≡ ok v
      → All (λ x. nought ≼ x) v
  extract_features_nonneg s v valid numbers le e =
      let (p, same) = extract-Parts log2 s v e in
      subst (All (λ x. nought ≼ x)) same (Parts-nonneg s p valid numbers le)

  -- From a signal within the declared bounds, of integers up to 2 ^ 53 and a body of at most 2 ^ 63
  -- characters, and with a pair as the range of each numeric field, a vector is returned.
  pub extract_features_total :
      (s : RequestSignal)
      → IsValid s
      → IsSized s
      → All (HasPair s.baseline_numeric_ranges) s.numeric_fields
      → (v : List Float) × (extract_features log2 s ≡ ok v)
  extract_features_total s valid sized pairs =
      let (x1, e1) = float_total s.distinct_endpoints_60s sized.endpoints in
      let (x2, e2) = float_total s.failed_auth_streak sized.streak in
      let (x3, e3, _) = shannon_entropy_total log2 laws s.raw_body sized.body in
      let (x4, e4) = float_total (param_deviation s) sized.params in
      let (x5, e5) = anomaly_total s pairs in
      let (x6, e6) = float_total s.known_bad_ua_flag (flag_small _ valid.bad_ua.0 valid.bad_ua.1) in
      let (x7, e7) =
        float_total s.off_hours_flag (flag_small _ valid.off_hours.0 valid.off_hours.1) in
      let p : Parts log2 s = record {
        endpoints = x1;
        streak = x2;
        entropy = x3;
        deviation = x4;
        anomaly = x5;
        bad_ua = x6;
        off_hours = x7;
        endpoints_eq = e1;
        streak_eq = e2;
        entropy_eq = e3;
        deviation_eq = e4;
        anomaly_eq = e5;
        bad_ua_eq = e6;
        off_hours_eq = e7;
      } in
      (vector_of log2 s p, extract_of_Parts log2 s p)
