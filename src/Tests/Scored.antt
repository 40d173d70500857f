-- ===== src/Tests/Scored.antt =====
-- Logins, orders, bursts and scored signals at the gateway.
use Prim.Native.String.{◌++◌ as append}
use package.text.Mathlib.TextBridge.{to_list, of_list, to_list-of_list}
use Prim.Native.Char.{code}
use package.text.Mathlib.TextLemmas.{head-eq_of_cons-eq, cons-append}
use d_ai_api_sec.Prelude.{
  ap, sym, ◌∙◌, ℕ, ◌^◌, ◌≤◌, ◌≡◌, refl, true, ◌&&◌, ◌==◌, str_eq, eq_iff, Bool-cases, if◌then◌else◌,
  String, none, some, List, [], ◌∷◌, All, inl, inr, length, arith,
}
use d_ai_api_sec.Prelude.Int.{pos, negsuc, ◌-ℤ◌, ◌≤ℤ◌}
use d_ai_api_sec.Json.{integer, number, boolean, Fields, end, field}
use d_ai_api_sec.Errors.{Result, ok, err, value_error}
use d_ai_api_sec.Float.{dec, minus, nought}
use d_ai_api_sec.ThreatEngine.Model.Scores.{InUnit}
use d_ai_api_sec.ThreatEngine.Model.Decisions.{Agrees}
use d_ai_api_sec.ThreatEngine.Api.{ScoreResponse}
use d_ai_api_sec.ThreatEngine.Api.Answers.{result_in}
use d_ai_api_sec.Gateway.Signal.{Claims, build_signal}
use d_ai_api_sec.ThreatEngine.Anomaly.{numeric_field_anomaly}
use d_ai_api_sec.Simulation.Detected.{IsBinding, checkout_signal, orders_alike}
use d_ai_api_sec.MockServices as MockServices
use d_ai_api_sec.MockServices.{Token, login, demo_username, demo_password}
use d_ai_api_sec.Gateway.Login.{IsShared, claims_of_token, login_accepted}
use d_ai_api_sec.Gateway.Accepted.{IsOrdinary}
use d_ai_api_sec.Gateway.Scored.{ask, ask_answers, future_token_unscored}
use d_ai_api_sec.Gateway.Burst.{IsFresh, IsSoon, measure_all, measure_counts_twice}
use d_ai_api_sec.Gateway.Published.{Published, filter-Published}
use d_ai_api_sec.Gateway.{Gateway, forwarded, unscored, measure, filter}
use d_ai_api_sec.Gateway.{Setting, validate}
use d_ai_api_sec.Tests.Instances.{log2, log2_laws, clip, clip_laws, alarmed, constant}
use d_ai_api_sec.Tests.Model.{alarmed-Reads}
use d_ai_api_sec.Tests.Gateway.{
  properties, block_answer, claims, env_with, env_of, checkout, idle, redis_of, token_read,
  asked_with,
}
use d_ai_api_sec.Tests.Redis.{Server, client, laws}

abbrev no_body : String
no_body = of_list []

no_body_short : length (to_list no_body) ≤ 2 ^ 63
no_body_short = rw (to_list-of_list []) (omega arith)

ordinary : IsOrdinary (λ s. s) (λ body. none) properties 1 (some claims) (pos 1700000100) no_body
ordinary = record {
  streak_fits = omega arith;
  issued = omega arith;
  few = omega arith;
  short = no_body_short;
  pairs = (refl, tt);
}

ask_answers_example :
    (a : ScoreResponse) × (ask clip log2 alarmed (
        build_signal
          (λ s. s)
          (λ body. none)
          properties
          1
          2
          1
          none
          (some claims)
          (pos 1700000100)
          22
          "/api/checkout"
          no_body)
      ≡ ok a)
    × InUnit a.isolation_score
    × InUnit a.xgboost_score
    × InUnit a.final_score
    × Agrees (result_in a)
ask_answers_example =
    ask_answers clip log2 alarmed clip_laws log2_laws (constant (minus (dec 5 1))) refl (λ s. s)
      (λ body. none) properties 1 2 1 none (some claims) (pos 1700000100) 22 "/api/checkout" no_body
      ordinary (λ s v c e. (minus (dec 5 1), dec 95 2, alarmed-Reads v))

-- The third tampered order: a negative price.
abbrev refund : Fields
refund = field "item_id" (integer (pos 310)) (
    field "qty" (integer (pos 1))
      (field "price" (number (minus (dec 8900 2))) (field "refund_now" (boolean true) end)))

-- The bound keys of the three that are configured.
abbrev bind_key : String → String
bind_key key =
    if str_eq key "/api/checkout:qty"
    then "apicheckoutqty"
    else (if str_eq key "/api/checkout:price" then "apicheckoutprice" else "apicheckoutdiscountpct")

no_slash : (t rest : String) → ¬ (append "a" t ≡ append "/" rest)
no_slash t rest e =
    let h = ap code (head-eq_of_cons-eq (sym (cons-append _ "" t) ∙ e ∙ cons-append _ "" rest)) in
    omega arith

bind_key-IsBinding : IsBinding bind_key
bind_key-IsBinding key rest e = elim (Bool-cases (str_eq key "/api/checkout:qty")) [
  | inl qty ↦ no_slash "picheckoutqty" rest (rw qty at e)
  | inr other ↦ elim (Bool-cases (str_eq key "/api/checkout:price")) [
    | inl price ↦ no_slash "picheckoutprice" rest (rw (other, price) at e)
    | inr last ↦ no_slash "picheckoutdiscountpct" rest (rw (other, last) at e)
  ]
]

orders_alike_example :
    numeric_field_anomaly (
      checkout_signal bind_key properties
        (λ s. s)
        (λ body. some refund)
        1
        2
        1
        none
        (some claims)
        (pos 1700000100)
        22
        "{}")
    ≡ ok nought
orders_alike_example =
    orders_alike bind_key properties (λ s. s) (λ body. some refund) 1 2 1 none (some claims)
      (pos 1700000100) 22 "{}" refund bind_key-IsBinding (inr (inr (inr (inr (inr (inl refl))))))
      refl

-- An encoder that signs the claims of one login, and a gateway that reads its token.
abbrev signed : MockServices.Claims → String → Result String
signed c secret =
    if str_eq c.sub demo_username && (c.iat == 1700000000) then ok "token" else err value_error

abbrev reads_demo : Setting Server
reads_demo =
    env_with (claims_of_token (record { sub = demo_username; iat = 1700000000 }))
      (λ signal. ok block_answer)

claims_eq :
    (c : MockServices.Claims)
    → c.sub ≡ demo_username
    → c.iat ≡ 1700000000
    → reads_demo.parse_signed_claims "token" ≡ some (claims_of_token c)
claims_eq c e f = rw (e, f) refl

signed-IsShared : IsShared signed "secret" reads_demo
signed-IsShared c token e = elim (Bool-cases (str_eq c.sub demo_username)) [
  | inl same ↦ elim (Bool-cases (c.iat == 1700000000)) [
    | inl at_time ↦ claims_eq c ((eq_iff c.sub demo_username).0 same) (ground arith)
    | inr other ↦ let h = rw (same, other) at e in cc
  ]
  | inr other ↦ let h = rw other at e in cc
]

login_accepted_example :
    (t : Token) × (login signed "secret"
        (record { username = demo_username; password = demo_password })
        1700000000
      ≡ ok t)
    × (t.token_type ≡ "bearer")
    × (validate reads_demo (some (append "Bearer " t.access_token))
        ≡ some (record { subject = some demo_username; issued_at = some (pos 1700000000) }))
login_accepted_example =
    login_accepted signed "secret" reads_demo 1700000000 "token" signed-IsShared refl

-- Issued five seconds ahead.
abbrev early : Claims
early = record { subject = some "demo"; issued_at = some (pos 1700000005) }

five_ahead : (pos 1700000000 -ℤ pos 1700000005) ≤ℤ negsuc 0
unfolding ◌-ℤ◌
five_ahead = omega arith

future_token_unscored_example :
    (g' : Gateway Server) × (filter
        (env_with early (ask clip log2 alarmed))
        (checkout 1700000000000)
        idle
      ≡ (ok (forwarded (some unscored)), g'))
future_token_unscored_example =
    future_token_unscored clip log2 alarmed (env_with early (ask clip log2 alarmed)) laws
      (checkout 1700000000000) "10.0.0.1" idle early (pos 1700000005) (λ d. refl)
      (asked_with early (ask clip log2 alarmed)) (token_read early (ask clip log2 alarmed)) refl
      five_ahead

filter-Published_example :
    Published
      (env_of (ok block_answer))
      (checkout 1700000000000)
      idle
      (filter (env_of (ok block_answer)) (checkout 1700000000000) idle).1
filter-Published_example = filter-Published (env_of (ok block_answer)) (checkout 1700000000000) idle

fresh : IsFresh client laws "10.0.0.1" "/api/checkout" "demo" 1700000000000 (redis_of true)
fresh = record { up = refl; uncounted = refl; unbroken = refl }

-- Eight requests within a second: the next one is counted as the seventeenth.
abbrev times : List ℕ
times =
    1700000000100 ∷ 1700000000200 ∷ 1700000000300 ∷ 1700000000400 ∷ 1700000000500 ∷ 1700000000600
    ∷ 1700000000700 ∷ []

soon : All (IsSoon client laws "10.0.0.1" "/api/checkout" "demo" 1700000000000) times
soon = (
  (omega arith, omega arith),
  (
    (omega arith, omega arith),
    (
      (omega arith, omega arith),
      (
        (omega arith, omega arith),
        (
          (omega arith, omega arith),
          ((omega arith, omega arith), ((omega arith, omega arith), tt)),
        ),
      ),
    ),
  ),
)

measure_counts_twice_example :
    (r' : Server) × (r'' : Server) × (measure_all client laws "10.0.0.1" "/api/checkout" "demo"
        (1700000000000 ∷ times)
        (redis_of true)
      ≡ (ok tt, r'))
    × (measure client 1700000000800 "10.0.0.1" "/api/checkout" "demo" r' ≡ (ok (17, (18, 9)), r''))
measure_counts_twice_example =
    measure_counts_twice client laws "10.0.0.1" "/api/checkout" "demo" 1700000000000 times
      1700000000800 (redis_of true) fresh soon (omega arith, omega arith)
