-- ===== src/Gateway/Signal.antt =====
-- RequestSignalDTO, SecurityProperties and the building of a signal in ZeroTrustFilter.java, under
-- gateway/src/main/java/com/aisecfirewall/gateway: config, dto and filter.
use Prim.Native.Char.{code}
use Prim.Native.String.{◌++◌ as append, find as find_text, len}
use package.text.Mathlib.Text.{starts_with}
use package.text.Mathlib.TextBridge.{to_list}
use d_ai_api_sec.Prelude.{
  ℕ, suc, ◌-◌, ◌%◌, ◌^◌, Bool, true, false, ◌||◌, ltb, String, Option, none, some, List, [], ◌∷◌,
  map, if◌then◌else◌,
}
use d_ai_api_sec.Prelude.Int.{ℤ, pos, neg, ◌-ℤ◌, ◌*ℤ◌}
use d_ai_api_sec.Prelude.Dict.{Dict, get}
use d_ai_api_sec.Json.{integer, number, Fields, end, field}
use d_ai_api_sec.Float.{Float, nought, dec, minus, unit, of_ratio}
use d_ai_api_sec.ThreatEngine.Signal.{Arguments}

-- The part of `firewall.*` that is used here; a baseline is keyed by endpoint and field.
pub record SecurityProperties : Type 0 where
  pub high_risk_endpoints : List String
  pub rate_escalation_threshold : ℕ
  pub blocklist_ttl_seconds : ℕ
  pub numeric_baselines : Dict (List Float)

abbrev pub unconstrained : List Float
unconstrained = minus (dec 1000000000 0) ∷ dec 1000000000 0 ∷ []

abbrev pub baseline_for : SecurityProperties → String → String → List Float
baseline_for properties endpoint name =
    get properties.numeric_baselines (append endpoint (append ":" name)) unconstrained

-- The claims of a token: whole seconds, as a NumericDate mostly is.
pub record Claims : Type 0 where
  pub subject : Option String
  pub issued_at : Option ℤ

pub record RequestSignalDto : Type 0 where
  pub req_rate_10s : Float
  pub req_rate_60s : Float
  pub distinct_endpoints_60s : ℤ
  pub failed_auth_streak : ℤ
  pub session_age_seconds : Float
  pub geo_velocity_kmph : Float
  pub known_bad_ua_flag : ℤ
  pub response_error_rate_5m : Float
  pub off_hours_flag : ℤ
  pub raw_body : String
  pub param_count : ℤ
  pub baseline_param_count : ℤ
  pub numeric_fields : Dict Float
  pub baseline_numeric_ranges : Dict (List Float)

-- A `long` as a double.
abbrev pub double_of : ℤ → Float
double_of n = of_ratio (n *ℤ pos unit) 1

-- `(int) n`: the low 32 bits, as a signed number.
abbrev pub int_of : ℕ → ℤ
int_of n = let low = n % 2 ^ 32 in if ltb low (2 ^ 31) then pos low else neg (pos (2 ^ 32 - low))

-- `session_age_seconds`, with the time in whole seconds.
abbrev pub age_of : ℤ → Option ℤ → Float
age_of now none = nought
age_of now (some issued_at) = double_of (now -ℤ issued_at)

abbrev pub session_age : ℤ → Option Claims → Float
session_age now none = nought
session_age now (some claims) = age_of now claims.issued_at

abbrev pub flag : Bool → ℤ
flag true = pos 1
flag false = pos 0

abbrev pub automation_markers : List String
automation_markers =
    "python-requests" ∷ "curl/" ∷ "scrapy" ∷ "headlesschrome" ∷ "go-http-client" ∷ []

-- `text.contains(marker)`: `find` yields a number past the end where there is none.
abbrev pub contains : String → String → Bool
contains text marker = ltb (find_text text marker) (suc (len text))

abbrev pub any_contained : String → List String → Bool
any_contained text [] = false
any_contained text (marker ∷ markers) = contains text marker || any_contained text markers

abbrev pub any_prefix : String → List String → Bool
any_prefix path [] = false
any_prefix path (prefix ∷ prefixes) = starts_with path prefix || any_prefix path prefixes

-- `isOffHours`, from the hour in UTC
abbrev pub is_off_hours : ℕ → Bool
is_off_hours hour = ltb hour 6 || ltb 22 hour

abbrev pub fields_count : Fields → ℕ
fields_count end = 0
fields_count (field k v rest) = suc (fields_count rest)

-- The fields whose value is a `Number`, as doubles.
abbrev pub numbers_in : Fields → Dict Float
numbers_in end = []
numbers_in (field k (integer n) rest) = (k, double_of n) ∷ numbers_in rest
numbers_in (field k (number x) rest) = (k, x) ∷ numbers_in rest
numbers_in (field k value rest) = numbers_in rest

abbrev pub baselines : SecurityProperties → String → Dict Float → Dict (List Float)
baselines properties path [] = []
baselines properties path ((name, x) ∷ fields) =
    (name, baseline_for properties path name) ∷ baselines properties path fields

-- `String.toLowerCase` and Jackson's reading of a text as a map are parameters; the latter is `none`
-- where it raises or finds no map. A blank text is one that it does not read.
module _ (to_lower_case : String → String) (read_map : String → Option Fields) where
  abbrev pub is_known_automation_ua : Option String → Bool
  is_known_automation_ua none = true
  is_known_automation_ua (some ua) = any_contained (to_lower_case ua) automation_markers

  abbrev pub count_of : Option Fields → ℕ
  count_of none = 0
  count_of (some fields) = fields_count fields

  abbrev pub numbers_of : Option Fields → Dict Float
  numbers_of none = []
  numbers_of (some fields) = numbers_in fields

  abbrev pub count_top_level_fields : String → ℕ
  count_top_level_fields body = count_of (read_map body)

  abbrev pub extract_numeric_fields : String → Dict Float
  extract_numeric_fields body = numbers_of (read_map body)

  -- The counters, the header User-Agent, the claims, the time in seconds, the hour, path and body.
  unfoldable pub build_signal :
      SecurityProperties
      → ℕ
      → ℕ
      → ℕ
      → Option String
      → Option Claims
      → ℤ
      → ℕ
      → String
      → String
      → RequestSignalDto
  build_signal properties rate_10s rate_60s fail_streak ua claims now hour path body = record {
    req_rate_10s = double_of (pos rate_10s);
    req_rate_60s = double_of (pos rate_60s);
    distinct_endpoints_60s = pos 1;
    failed_auth_streak = int_of fail_streak;
    session_age_seconds = session_age now claims;
    geo_velocity_kmph = nought;
    known_bad_ua_flag = flag (is_known_automation_ua ua);
    response_error_rate_5m = nought;
    off_hours_flag = flag (is_off_hours hour);
    raw_body = body;
    param_count = pos (count_top_level_fields body);
    baseline_param_count = pos 8;
    numeric_fields = extract_numeric_fields body;
    baseline_numeric_ranges = baselines properties path (extract_numeric_fields body);
  }

-- The body of the request to the engine, read as the arguments of `RequestSignal`.
abbrev pub arguments_of_dto : RequestSignalDto → Arguments
arguments_of_dto d = record {
  req_rate_10s = some d.req_rate_10s;
  req_rate_60s = some d.req_rate_60s;
  distinct_endpoints_60s = some d.distinct_endpoints_60s;
  failed_auth_streak = some d.failed_auth_streak;
  session_age_seconds = some d.session_age_seconds;
  geo_velocity_kmph = some d.geo_velocity_kmph;
  known_bad_ua_flag = some d.known_bad_ua_flag;
  response_error_rate_5m = some d.response_error_rate_5m;
  off_hours_flag = some d.off_hours_flag;
  raw_body = some (map code (to_list d.raw_body));
  param_count = some d.param_count;
  baseline_param_count = some d.baseline_param_count;
  numeric_fields = some d.numeric_fields;
  baseline_numeric_ranges = some d.baseline_numeric_ranges;
}
