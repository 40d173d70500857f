-- ===== src/ThreatEngine/Features/Layout.antt =====
-- Which value stands under which name of `FEATURE_ORDER`.
use mathlib.Core.Path.{subst}
use d_ai_api_sec.Prelude.{◌≡◌, refl, some, List, length}
use d_ai_api_sec.Errors.{ok}
use d_ai_api_sec.Float.{Float}
use d_ai_api_sec.ThreatEngine.Signal.{RequestSignal}
use d_ai_api_sec.ThreatEngine.Features.{feature_order, extract_features}
use d_ai_api_sec.ThreatEngine.Features.Vector.{feature, Parts, vector_of, extract-Parts}

module _ (log2 : Float → Float) where
  -- The vector under the names, given its computed parts.
  pub record IsLaidOut (s : RequestSignal) (p : Parts log2 s) (v : List Float) : Type 0 where
    pub size : length v ≡ length feature_order
    pub rate_10s : feature "req_rate_10s" v ≡ some s.req_rate_10s
    pub rate_60s : feature "req_rate_60s" v ≡ some s.req_rate_60s
    pub endpoints : feature "distinct_endpoints_60s" v ≡ some p.endpoints
    pub streak : feature "failed_auth_streak" v ≡ some p.streak
    pub entropy : feature "payload_entropy" v ≡ some p.entropy
    pub deviation : feature "param_count_deviation" v ≡ some p.deviation
    pub anomaly : feature "price_or_qty_anomaly" v ≡ some p.anomaly
    pub age : feature "session_age_seconds" v ≡ some s.session_age_seconds
    pub velocity : feature "geo_velocity_kmph" v ≡ some s.geo_velocity_kmph
    pub bad_ua : feature "known_bad_ua_flag" v ≡ some p.bad_ua
    pub error_rate : feature "response_error_rate_5m" v ≡ some s.response_error_rate_5m
    pub off_hours : feature "off_hours_flag" v ≡ some p.off_hours

  vector_of-IsLaidOut : (s : RequestSignal) (p : Parts log2 s) → IsLaidOut s p (vector_of log2 s p)
  vector_of-IsLaidOut s p = record {
    size = refl;
    rate_10s = refl;
    rate_60s = refl;
    endpoints = refl;
    streak = refl;
    entropy = refl;
    deviation = refl;
    anomaly = refl;
    age = refl;
    velocity = refl;
    bad_ua = refl;
    error_rate = refl;
    off_hours = refl;
  }

  -- A vector that `extract_features` returns has as many entries as `FEATURE_ORDER`, and under each
  -- name there stands the signal's own value, the converted integer, the entropy of the body, the
  -- distance of the parameter count from its baseline, or the numeric anomaly, as the name says.
  pub extract_features-IsLaidOut :
      (s : RequestSignal) (v : List Float)
      → extract_features log2 s ≡ ok v
      → (p : Parts log2 s) × IsLaidOut s p v
  extract_features-IsLaidOut s v e =
      let (p, same) = extract-Parts log2 s v e in
      (p, subst (IsLaidOut s p) same (vector_of-IsLaidOut s p))
