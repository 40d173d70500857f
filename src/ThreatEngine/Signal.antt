-- ===== src/ThreatEngine/Signal.antt =====
-- `RequestSignal` of threat-engine/app/features.py: the fields, their defaults and the bounds that
-- `Field` declares.
pub mod Valid
use d_ai_api_sec.Prelude.{
  ℕ, ◌≡◌, refl, Bool, true, false, ◌||◌, String, Option, none, some, List, [], ◌∷◌, if◌then◌else◌,
}
use d_ai_api_sec.Prelude.Int.{ℤ, pos, negsuc, ltb_ℤ}
use d_ai_api_sec.Prelude.Dict.{Dict}
use d_ai_api_sec.Errors.{Result, ok, err, validation_error, ◌>>=◌, ◌>>◌, or_raise, raise_if}
use d_ai_api_sec.Float.{Float, lt, nought, dec}

-- `raw_body` is the list of its characters' code points.
pub record RequestSignal : Type 0 where
  pub req_rate_10s : Float
  pub req_rate_60s : Float
  pub distinct_endpoints_60s : ℤ
  pub failed_auth_streak : ℤ
  pub session_age_seconds : Float
  pub geo_velocity_kmph : Float
  pub known_bad_ua_flag : ℤ
  pub response_error_rate_5m : Float
  pub off_hours_flag : ℤ
  pub raw_body : List ℕ
  pub param_count : ℤ
  pub baseline_param_count : ℤ
  pub numeric_fields : Dict Float
  pub baseline_numeric_ranges : Dict (List Float)

-- The keyword arguments of the constructor, each of its field's type; `none` is one left out.
pub record Arguments : Type 0 where
  pub req_rate_10s : Option Float
  pub req_rate_60s : Option Float
  pub distinct_endpoints_60s : Option ℤ
  pub failed_auth_streak : Option ℤ
  pub session_age_seconds : Option Float
  pub geo_velocity_kmph : Option Float
  pub known_bad_ua_flag : Option ℤ
  pub response_error_rate_5m : Option Float
  pub off_hours_flag : Option ℤ
  pub raw_body : Option (List ℕ)
  pub param_count : Option ℤ
  pub baseline_param_count : Option ℤ
  pub numeric_fields : Option (Dict Float)
  pub baseline_numeric_ranges : Option (Dict (List Float))

-- `float = Field(..., ge=0)`
unfoldable pub float_ge_0 : Option Float → Result Float
float_ge_0 arg = do x ← or_raise arg validation_error; raise_if (lt x nought) validation_error; ok x

-- `float = Field(..., ge=0, le=1)`
unfoldable pub float_unit : Option Float → Result Float
float_unit arg = do
  x ← or_raise arg validation_error
  raise_if (lt x nought || lt (dec 1 0) x) validation_error
  ok x

-- `int = Field(..., ge=0)`
unfoldable pub int_ge_0 : Option ℤ → Result ℤ
int_ge_0 arg = do
  n ← or_raise arg validation_error
  raise_if (ltb_ℤ n (pos 0)) validation_error
  ok n

-- `int = Field(..., ge=0, le=1)`
unfoldable pub int_flag : Option ℤ → Result ℤ
int_flag arg = do
  n ← or_raise arg validation_error
  raise_if (ltb_ℤ n (pos 0) || ltb_ℤ (pos 1) n) validation_error
  ok n

abbrev pub default_to {ℓ} : {A : Type ℓ} → A → Option A → A
default_to d none = d
default_to d (some a) = a

-- `RequestSignal(**arguments)`
unfoldable pub construct : Arguments → Result RequestSignal
construct a = do
  rate_10s ← float_ge_0 a.req_rate_10s
  rate_60s ← float_ge_0 a.req_rate_60s
  endpoints ← int_ge_0 a.distinct_endpoints_60s
  streak ← int_ge_0 a.failed_auth_streak
  age ← float_ge_0 a.session_age_seconds
  velocity ← float_ge_0 a.geo_velocity_kmph
  bad_ua ← int_flag a.known_bad_ua_flag
  error_rate ← float_unit a.response_error_rate_5m
  off_hours ← int_flag a.off_hours_flag
  ok record {
    req_rate_10s = rate_10s;
    req_rate_60s = rate_60s;
    distinct_endpoints_60s = endpoints;
    failed_auth_streak = streak;
    session_age_seconds = age;
    geo_velocity_kmph = velocity;
    known_bad_ua_flag = bad_ua;
    response_error_rate_5m = error_rate;
    off_hours_flag = off_hours;
    raw_body = default_to [] a.raw_body;
    param_count = default_to (pos 0) a.param_count;
    baseline_param_count = default_to (pos 8) a.baseline_param_count;
    numeric_fields = default_to [] a.numeric_fields;
    baseline_numeric_ranges = default_to [] a.baseline_numeric_ranges;
  }
