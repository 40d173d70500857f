-- ===== src/Gateway/Accepted.antt =====
-- That the signals that ZeroTrustFilter.buildSignal, of
-- gateway/src/main/java/com/aisecfirewall/gateway/filter, makes are ones that the threat engine scores.
use native.Mathlib.Nat.{mul-le-mul_right}
use package.text.Mathlib.TextBridge.{to_list}
use Prim.Native.Char.{code}
use d_ai_api_sec.Prelude.{
  ℕ, ◌^◌, ◌<◌, ◌≤◌, ◌≡◌, refl, Bool, true, false, String, str_eq, Option, none, some, List, [], ◌∷◌,
  map, length, length-map, All, arith, sym, Bool-cases, inl, inr,
}
use d_ai_api_sec.Prelude.Int.{ℤ, pos, negsuc, abs, ltb_ℤ, ◌*ℤ◌, ◌-ℤ◌, ◌≤ℤ◌, int_laws}
use d_ai_api_sec.Prelude.Dict.{Dict, get}
use d_ai_api_sec.Json.{Fields}
use d_ai_api_sec.Errors.{ok, err, validation_error}
use d_ai_api_sec.Float.{Float, of_ratio, unit, nought, dec, lt, ◌≼◌, arithmetic}
use d_ai_api_sec.Float.Order.{not-lt_of_le, le_of_lt, lt_of_le_of_lt}
use d_ai_api_sec.Float.Literals.{one_pos}
use d_ai_api_sec.Float.Arith.{of_ratio_mono, of_ratio-zero, scale_parts}
use d_ai_api_sec.ThreatEngine.Signal.{Arguments, RequestSignal, construct, float_ge_0, int_ge_0}
use d_ai_api_sec.ThreatEngine.Signal.Valid.{IsValid, construct-arguments_of}
use d_ai_api_sec.ThreatEngine.Anomaly.{default_range}
use d_ai_api_sec.ThreatEngine.Anomaly.Exact.{HasPair}
use d_ai_api_sec.ThreatEngine.Features.Bounds.{IsSized}
use d_ai_api_sec.Gateway.Signal.{
  SecurityProperties, Claims, RequestSignalDto, double_of, int_of, age_of, session_age, flag,
  is_off_hours, baselines, is_known_automation_ua, count_top_level_fields, build_signal,
  arguments_of_dto, unconstrained,
}

minus_one : lt (of_ratio (negsuc 0 *ℤ pos unit) 1) nought ≡ true
unfolding arithmetic
minus_one = refl

pub double_nonneg : (n : ℤ) → pos 0 ≤ℤ n → nought ≼ double_of n
double_nonneg n h = rw (sym (of_ratio-zero 1)) (
    of_ratio_mono (pos 0) (n *ℤ pos unit) 1 1 (omega arith) (omega arith) (
      rw (scale_parts n unit).0
        (rw (scale_parts n unit).1 (omega (arith, mul-le-mul_right unit h)))))

int_of_nonneg : (n : ℕ) → n < 2 ^ 31 → int_of n ≡ pos n
int_of_nonneg n h = ground arith

deviation_small : (n : ℕ) → n ≤ 2 ^ 52 → abs (pos (abs (pos n -ℤ pos 8))) ≤ 2 ^ 53
deviation_small n h = grind int_laws

flag_bounds : (b : Bool) → (pos 0 ≤ℤ flag b) × (flag b ≤ℤ pos 1)
flag_bounds true = (omega arith, omega arith)
flag_bounds false = (omega arith, omega arith)

get-All :
    {V : Type 0} (P : V → Type 0) (d : Dict V) (k : String) (default : V)
    → All (λ e. P e.1) d
    → P default
    → P (get d k default)
get-All P [] k default h p = p
get-All P ((j, v) ∷ d) k default (q, h) p = elim (Bool-cases (str_eq j k)) [
  | inl same ↦ rw same q
  | inr other ↦ rw other (get-All P d k default h p)
]

-- A range is a pair.
abbrev pub IsPair : List Float → Type 0
IsPair range = length range ≡ 2

pub baselines-IsPair :
    (properties : SecurityProperties) (path : String) (fields : Dict Float)
    → All (λ e. IsPair e.1) properties.numeric_baselines
    → All (λ e. IsPair e.1) (baselines properties path fields)
baselines-IsPair properties path [] h = tt
baselines-IsPair properties path ((name, x) ∷ fields) h = (
  get-All IsPair properties.numeric_baselines _ unconstrained h refl,
  baselines-IsPair properties path fields h,
)

-- The signal that the body of the request to the engine spells out.
abbrev pub signal_of_dto : RequestSignalDto → RequestSignal
signal_of_dto d = record {
  req_rate_10s = d.req_rate_10s;
  req_rate_60s = d.req_rate_60s;
  distinct_endpoints_60s = d.distinct_endpoints_60s;
  failed_auth_streak = d.failed_auth_streak;
  session_age_seconds = d.session_age_seconds;
  geo_velocity_kmph = d.geo_velocity_kmph;
  known_bad_ua_flag = d.known_bad_ua_flag;
  response_error_rate_5m = d.response_error_rate_5m;
  off_hours_flag = d.off_hours_flag;
  raw_body = map code (to_list d.raw_body);
  param_count = d.param_count;
  baseline_param_count = d.baseline_param_count;
  numeric_fields = d.numeric_fields;
  baseline_numeric_ranges = d.baseline_numeric_ranges;
}

-- The token was not issued behind the present second.
abbrev pub IsPast : ℤ → Option ℤ → Type 0
IsPast now none = Unit
IsPast now (some issued_at) = issued_at ≤ℤ now

abbrev pub IsIssued : ℤ → Option Claims → Type 0
IsIssued now none = Unit
IsIssued now (some claims) = IsPast now claims.issued_at

difference_nonneg : (m n : ℤ) → m ≤ℤ n → pos 0 ≤ℤ (n -ℤ m)
difference_nonneg m n h = grind int_laws

age_nonneg : (now : ℤ) (issued_at : Option ℤ) → IsPast now issued_at → nought ≼ age_of now issued_at
age_nonneg now none h = refl
age_nonneg now (some i) h = double_nonneg (now -ℤ i) (difference_nonneg i now h)

session_age_nonneg :
    (now : ℤ) (claims : Option Claims) → IsIssued now claims → nought ≼ session_age now claims
session_age_nonneg now none h = refl
session_age_nonneg now (some c) h = age_nonneg now c.issued_at h

pub fields-HasPair :
    (ranges : Dict (List Float)) (fields : Dict Float)
    → All (λ e. IsPair e.1) ranges
    → All (HasPair ranges) fields
fields-HasPair ranges [] h = tt
fields-HasPair ranges ((f, v) ∷ fields) h =
    (get-All IsPair ranges f default_range h refl, fields-HasPair ranges fields h)

pub negative_age : (n : ℤ) → n ≤ℤ negsuc 0 → lt (double_of n) nought ≡ true
negative_age n h =
    lt_of_le_of_lt (double_of n) (of_ratio (negsuc 0 *ℤ pos unit) 1) nought
      (of_ratio_mono (n *ℤ pos unit) (negsuc 0 *ℤ pos unit) 1 1 (omega arith) (omega arith) (
        rw (scale_parts n unit).0 (
          rw (scale_parts n unit).1 (
            rw (scale_parts (negsuc 0) unit).0
              (rw (scale_parts (negsuc 0) unit).1 (omega (arith, mul-le-mul_right unit h)))))))
      minus_one

-- The constructor rejects a negative age, whatever it thinks of the streak.
pub construct-negative_age :
    (a : Arguments) (rate_10s rate_60s age : Float) (streak : ℤ)
    → a.req_rate_10s ≡ some rate_10s
    → lt rate_10s nought ≡ false
    → a.req_rate_60s ≡ some rate_60s
    → lt rate_60s nought ≡ false
    → a.distinct_endpoints_60s ≡ some (pos 1)
    → a.failed_auth_streak ≡ some streak
    → a.session_age_seconds ≡ some age
    → lt age nought ≡ true
    → construct a ≡ err validation_error
unfolding construct float_ge_0 int_ge_0
construct-negative_age a rate_10s rate_60s age streak e1 h1 e2 h2 e3 e4 e5 h5 =
    elim (Bool-cases (ltb_ℤ streak (pos 0))) [
      | inl below ↦ rw (e1, h1, e2, h2, e3, e4, below) refl
      | inr fits ↦ rw (e1, h1, e2, h2, e3, e4, fits, e5, h5) refl
    ]

module _ (to_lower_case : String → String) (read_map : String → Option Fields) where
  -- A request whose signal is to be scored: its counters fit, its token is not from the future, its body
  -- and the fields in it are not enormous, and every configured range is a pair.
  pub record IsOrdinary (properties : SecurityProperties) (streak : ℕ) (claims : Option Claims)
      (now : ℤ) (body : String) : Type 0 where
    pub streak_fits : streak < 2 ^ 31
    pub issued : IsIssued now claims
    pub few : count_top_level_fields to_lower_case read_map body ≤ 2 ^ 52
    pub short : length (to_list body) ≤ 2 ^ 63
    pub pairs : All (λ e. IsPair e.1) properties.numeric_baselines

  -- The threat engine accepts the signal that the gateway builds for such a request: its constructor
  -- returns a signal within the declared bounds and of moderate size, in which every numeric field
  -- has a pair as its range.
  pub build_signal-accepted :
      (properties : SecurityProperties) (rate_10s rate_60s streak : ℕ) (ua : Option String)
      (claims : Option Claims) (now : ℤ) (hour : ℕ) (path body : String)
      → IsOrdinary properties streak claims now body
      → (s : RequestSignal) × (construct (
            arguments_of_dto (
              build_signal to_lower_case read_map properties rate_10s rate_60s streak ua claims now
                hour path body))
          ≡ ok s)
        × IsValid s
        × IsSized s
        × All (HasPair s.baseline_numeric_ranges) s.numeric_fields
  unfolding build_signal
  build_signal-accepted properties rate_10s rate_60s streak ua claims now hour path body h =
      let d =
        build_signal to_lower_case read_map properties rate_10s rate_60s streak ua claims now hour
          path body in
      let s = signal_of_dto d in
      let same = int_of_nonneg streak h.streak_fits in
      let known = flag_bounds (is_known_automation_ua to_lower_case read_map ua) in
      let valid : IsValid s = record {
        rate_10s = not-lt_of_le nought d.req_rate_10s (double_nonneg (pos rate_10s) (omega arith));
        rate_60s = not-lt_of_le nought d.req_rate_60s (double_nonneg (pos rate_60s) (omega arith));
        endpoints = omega arith;
        streak = rw same (omega arith);
        age = not-lt_of_le nought d.session_age_seconds (session_age_nonneg now claims h.issued);
        velocity = refl;
        bad_ua = known;
        error_rate = (refl, not-lt_of_le nought (dec 1 0) (le_of_lt nought (dec 1 0) one_pos));
        off_hours = flag_bounds (is_off_hours hour);
      } in
      (
        s,
        construct-arguments_of s valid,
        valid,
        record {
          endpoints = omega arith;
          streak = rw same (omega (arith, h.streak_fits));
          params = deviation_small (count_top_level_fields to_lower_case read_map body) h.few;
          body = rw (length-map (to_list body) code) h.short;
        },
        fields-HasPair s.baseline_numeric_ranges s.numeric_fields
            (baselines-IsPair properties path s.numeric_fields h.pairs),
      )
