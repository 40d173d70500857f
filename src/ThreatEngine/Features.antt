-- ===== src/ThreatEngine/Features.antt =====
-- `FEATURE_ORDER` and `extract_features` of threat-engine/app/features.py.
pub mod Vector
pub mod Layout
pub mod Bounds
use d_ai_api_sec.Prelude.{ℕ, ◌≡◌, refl, ◌==◌, not, String, List, [], ◌∷◌, length, if◌then◌else◌}
use d_ai_api_sec.Prelude.Int.{ℤ, pos, ◌-ℤ◌, abs}
use d_ai_api_sec.Errors.{Result, ok, err, assertion_error, ◌>>=◌, ◌>>◌, raise_if}
use d_ai_api_sec.Float.{Float, float}
use d_ai_api_sec.ThreatEngine.Signal.{RequestSignal}
use d_ai_api_sec.ThreatEngine.Entropy.{shannon_entropy}
use d_ai_api_sec.ThreatEngine.Anomaly.{numeric_field_anomaly}

abbrev pub feature_order : List String
feature_order =
    "req_rate_10s" ∷ "req_rate_60s" ∷ "distinct_endpoints_60s" ∷ "failed_auth_streak"
    ∷ "payload_entropy" ∷ "param_count_deviation" ∷ "price_or_qty_anomaly" ∷ "session_age_seconds"
    ∷ "geo_velocity_kmph" ∷ "known_bad_ua_flag" ∷ "response_error_rate_5m" ∷ "off_hours_flag" ∷ []

module _ (log2 : Float → Float) where
  unfoldable pub extract_features : RequestSignal → Result (List Float)
  extract_features signal = do
    let param_dev = pos (abs (signal.param_count -ℤ signal.baseline_param_count))
    endpoints ← float signal.distinct_endpoints_60s
    streak ← float signal.failed_auth_streak
    entropy ← shannon_entropy log2 signal.raw_body
    deviation ← float param_dev
    anomaly ← numeric_field_anomaly signal
    bad_ua ← float signal.known_bad_ua_flag
    off_hours ← float signal.off_hours_flag
    let vector =
        signal.req_rate_10s ∷ signal.req_rate_60s ∷ endpoints ∷ streak ∷ entropy ∷ deviation
        ∷ anomaly ∷ signal.session_age_seconds ∷ signal.geo_velocity_kmph ∷ bad_ua
        ∷ signal.response_error_rate_5m ∷ off_hours ∷ []
    raise_if (not (length vector == length feature_order)) assertion_error
    ok vector
