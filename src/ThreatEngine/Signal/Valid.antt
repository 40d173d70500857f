-- ===== src/ThreatEngine/Signal/Valid.antt =====
-- What a constructed `RequestSignal` satisfies, and which arguments construct one.
use mathlib.Core.Path.{subst}
use d_ai_api_sec.Prelude.{◌≡◌, refl, false, Option, none, some, arith, Bool-cases}
use d_ai_api_sec.Prelude.Int.{ℤ, pos, ◌≤ℤ◌}
use d_ai_api_sec.Errors.{ok, >>=-eq-ok, ok-injective}
use d_ai_api_sec.Float.{Float, lt, nought, dec}
use d_ai_api_sec.ThreatEngine.Signal.{
  RequestSignal, Arguments, construct, float_ge_0, float_unit, int_ge_0, int_flag,
}

-- The declared bounds. A comparison with NaN is false, so a NaN is within them.
pub record IsValid (s : RequestSignal) : Type 0 where
  pub rate_10s : lt s.req_rate_10s nought ≡ false
  pub rate_60s : lt s.req_rate_60s nought ≡ false
  pub endpoints : pos 0 ≤ℤ s.distinct_endpoints_60s
  pub streak : pos 0 ≤ℤ s.failed_auth_streak
  pub age : lt s.session_age_seconds nought ≡ false
  pub velocity : lt s.geo_velocity_kmph nought ≡ false
  pub bad_ua : (pos 0 ≤ℤ s.known_bad_ua_flag) × (s.known_bad_ua_flag ≤ℤ pos 1)
  pub error_rate :
      (lt s.response_error_rate_5m nought ≡ false) × (lt (dec 1 0) s.response_error_rate_5m ≡ false)
  pub off_hours : (pos 0 ≤ℤ s.off_hours_flag) × (s.off_hours_flag ≤ℤ pos 1)

-- The arguments that spell a signal out.
abbrev pub arguments_of : RequestSignal → Arguments
arguments_of s = record {
  req_rate_10s = some s.req_rate_10s;
  req_rate_60s = some s.req_rate_60s;
  distinct_endpoints_60s = some s.distinct_endpoints_60s;
  failed_auth_streak = some s.failed_auth_streak;
  session_age_seconds = some s.session_age_seconds;
  geo_velocity_kmph = some s.geo_velocity_kmph;
  known_bad_ua_flag = some s.known_bad_ua_flag;
  response_error_rate_5m = some s.response_error_rate_5m;
  off_hours_flag = some s.off_hours_flag;
  raw_body = some s.raw_body;
  param_count = some s.param_count;
  baseline_param_count = some s.baseline_param_count;
  numeric_fields = some s.numeric_fields;
  baseline_numeric_ranges = some s.baseline_numeric_ranges;
}

float_ge_0_lem : (arg : Option Float) (x : Float) → float_ge_0 arg ≡ ok x → lt x nought ≡ false
unfolding float_ge_0
float_ge_0_lem arg x e = ground arith

float_unit_lem :
    (arg : Option Float) (x : Float)
    → float_unit arg ≡ ok x
    → (lt x nought ≡ false) × (lt (dec 1 0) x ≡ false)
unfolding float_unit
float_unit_lem none x e = cc
float_unit_lem (some y) x e = ground (arith, Bool-cases (lt y nought), Bool-cases (lt (dec 1 0) y))

int_ge_0_lem : (arg : Option ℤ) (n : ℤ) → int_ge_0 arg ≡ ok n → pos 0 ≤ℤ n
unfolding int_ge_0
int_ge_0_lem arg n e = ground arith

int_flag_lem : (arg : Option ℤ) (n : ℤ) → int_flag arg ≡ ok n → (pos 0 ≤ℤ n) × (n ≤ℤ pos 1)
unfolding int_flag
int_flag_lem arg n e = ground arith

int_ge_0_ok : (n : ℤ) → pos 0 ≤ℤ n → int_ge_0 (some n) ≡ ok n
unfolding int_ge_0
int_ge_0_ok n h = ground arith

int_flag_ok : (n : ℤ) → pos 0 ≤ℤ n → n ≤ℤ pos 1 → int_flag (some n) ≡ ok n
unfolding int_flag
int_flag_ok n h k = ground arith

-- Every signal that the constructor returns is within the declared bounds.
construct-IsValid : (a : Arguments) (s : RequestSignal) → construct a ≡ ok s → IsValid s
unfolding construct
construct-IsValid a s e =
    let (x1, e1, k1) = >>=-eq-ok (float_ge_0 a.req_rate_10s) _ e in
    let (x2, e2, k2) = >>=-eq-ok (float_ge_0 a.req_rate_60s) _ k1 in
    let (x3, e3, k3) = >>=-eq-ok (int_ge_0 a.distinct_endpoints_60s) _ k2 in
    let (x4, e4, k4) = >>=-eq-ok (int_ge_0 a.failed_auth_streak) _ k3 in
    let (x5, e5, k5) = >>=-eq-ok (float_ge_0 a.session_age_seconds) _ k4 in
    let (x6, e6, k6) = >>=-eq-ok (float_ge_0 a.geo_velocity_kmph) _ k5 in
    let (x7, e7, k7) = >>=-eq-ok (int_flag a.known_bad_ua_flag) _ k6 in
    let (x8, e8, k8) = >>=-eq-ok (float_unit a.response_error_rate_5m) _ k7 in
    let (x9, e9, k9) = >>=-eq-ok (int_flag a.off_hours_flag) _ k8 in
    subst IsValid (ok-injective k9) record {
      rate_10s = float_ge_0_lem _ x1 e1;
      rate_60s = float_ge_0_lem _ x2 e2;
      endpoints = int_ge_0_lem _ x3 e3;
      streak = int_ge_0_lem _ x4 e4;
      age = float_ge_0_lem _ x5 e5;
      velocity = float_ge_0_lem _ x6 e6;
      bad_ua = int_flag_lem _ x7 e7;
      error_rate = float_unit_lem _ x8 e8;
      off_hours = int_flag_lem _ x9 e9;
    }

-- The constructor returns every signal within the declared bounds from the arguments that spell
-- it out.
pub construct-arguments_of : (s : RequestSignal) → IsValid s → construct (arguments_of s) ≡ ok s
unfolding construct float_ge_0 float_unit
construct-arguments_of s v =
    rw
      (
        v.rate_10s,
        v.rate_60s,
        int_ge_0_ok s.distinct_endpoints_60s v.endpoints,
        int_ge_0_ok s.failed_auth_streak v.streak,
        v.age,
        v.velocity,
        int_flag_ok s.known_bad_ua_flag v.bad_ua.0 v.bad_ua.1,
        v.error_rate.0,
        v.error_rate.1,
        int_flag_ok s.off_hours_flag v.off_hours.0 v.off_hours.1,
      )
      refl
