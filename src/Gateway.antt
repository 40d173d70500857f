-- ===== src/Gateway.antt =====
-- The Spring Cloud gateway under gateway/src/main/java/com/aisecfirewall/gateway: ZeroTrustFilter and
-- JwtAuthValidator (filter), ThreatEngineClient (client) and KafkaRequestPublisher (service). A
-- request's Redis calls are taken in order, with no other request's calls between them.
pub mod Address
pub mod Redis
pub mod Signal
pub mod Admission
pub mod Keys
pub mod Counting
pub mod Answers
pub mod Asked
pub mod Blocked
pub mod Held
pub mod Lasting
pub mod Accepted
pub mod Scored
pub mod Shared
pub mod Burst
pub mod Unexpiring
pub mod Published
pub mod Login
use Prim.Native.Char.{Char, code}
use Prim.Native.String.{◌++◌ as append, len, slice}
use package.text.Mathlib.Text.{starts_with}
use package.text.Mathlib.TextBridge.{to_list, of_list}
use d_ai_api_sec.Prelude.{
  ℕ, ◌+◌, ◌/◌, ◌≡◌, refl, Bool, true, false, not, ◌&&◌, ◌||◌, ltb, leb, ◌==◌, String, str_eq,
  Option, none, some, List, [], ◌∷◌, ◌++◌, if◌then◌else◌,
}
use d_ai_api_sec.Prelude.Int.{ℤ, pos}
use d_ai_api_sec.Errors.{Error, Result, ok, err, value_error}
use d_ai_api_sec.Exec.{Exec, pure, lift, modify, ◌>>=◌, ◌>>◌}
use d_ai_api_sec.Json.{Fields}
use d_ai_api_sec.Float.{Float, minus, dec}
use d_ai_api_sec.ThreatEngine.Api.{ScoreResponse}
use Address.{resolve_client_ip}
use Redis.{
  RedisClient, is_blocked, block_immediately, increment_window_counter,
  increment_failed_auth_streak,
}
use Signal.{Claims, RequestSignalDto, SecurityProperties, build_signal, any_prefix}

-- A request, with the instant at which it is handled in milliseconds and the hour in UTC.
pub record Request : Type 0 where
  pub method : String
  pub path : String
  pub authorization : Option String
  pub user_agent : Option String
  pub forwarded_for : Option String
  pub remote_address : Option String
  pub body : String
  pub request_id : String
  pub now : ℕ
  pub hour : ℕ

-- The message to the raw topic.
pub record Envelope : Type 0 where
  pub request_id : String
  pub client_ip : String
  pub method : String
  pub endpoint : String
  pub timestamp : String
  pub signal : RequestSignalDto

-- Redis, and the messages that Kafka has accepted, oldest first.
pub record Gateway (S : Type 0) : Type 0 where
  pub redis : S
  pub published : List Envelope

-- An answer of the gateway itself, or the request's passing on, tagged by a score if there is one.
pub data Response : Type 0 where
  rejected : ℕ → String → Response
  forwarded : Option ScoreResponse → Response

-- The configuration and what is not the gateway's: the parser of signed claims (`none` where it
-- raises), Java's lower case, Jackson's map of a text, the text of an instant, the answer of the
-- threat engine, and whether Kafka accepts a message.
pub record Setting (S : Type 0) : Type 0 where
  pub redis : RedisClient S
  pub properties : SecurityProperties
  pub parse_signed_claims : String → Option Claims
  pub to_lower_case : String → String
  pub read_map : String → Option Fields
  pub instant_text : ℕ → String
  pub engine : RequestSignalDto → Result ScoreResponse
  pub kafka : Envelope → Result (Unit {0})

abbrev pub on_redis : {S A : Type 0} → Exec S A → Exec (Gateway S) A
on_redis m g = let (r, redis) = m g.redis in (r, record g { redis = redis })

abbrev pub is_public : String → Bool
is_public path =
    str_eq path "/api/auth/login"
    || (str_eq path "/api/auth/register" || str_eq path "/actuator/health")

abbrev pub may_have_body : String → Bool
may_have_body method = str_eq method "POST" || (str_eq method "PUT" || str_eq method "PATCH")

abbrev pub body_of : Request → String
body_of req = if may_have_body req.method then req.body else ""

-- `claims.map(Claims::getSubject).orElse(clientIp)`
abbrev pub subject_or : String → Option String → String
subject_or client_ip none = client_ip
subject_or client_ip (some subject) = subject

abbrev pub identity_key : String → Option Claims → String
identity_key client_ip none = client_ip
identity_key client_ip (some claims) = subject_or client_ip claims.subject

abbrev pub unscored : ScoreResponse
unscored = record {
  isolation_score = minus (dec 1 0);
  xgboost_score = minus (dec 1 0);
  final_score = minus (dec 1 0);
  decision = "UNSCORED";
  reason = "Threat engine timeout/circuit-open - allowed with async follow-up";
}

abbrev pub blocked_by_engine : String → Response
blocked_by_engine reason = rejected 403 (append "Request blocked by threat engine: " reason)

abbrev pub temporarily_blocked : Response
temporarily_blocked = rejected 403 "Client is temporarily blocked"

abbrev pub unauthorized : Response
unauthorized = rejected 401 "Missing or invalid credentials"

-- `onErrorResume`
abbrev pub or_unscored : Result ScoreResponse → ScoreResponse
or_unscored (ok r) = r
or_unscored (err e) = unscored

abbrev pub published_if : {S : Type 0} → Result (Unit {0}) → Envelope → Gateway S → Gateway S
published_if (ok _) envelope g = record g { published = g.published ++ envelope ∷ [] }
published_if (err e) envelope g = g

-- The three counters of `Mono.zip`, in the order of their subscription.
unfoldable pub measure :
    {S : Type 0} → RedisClient S → ℕ → String → String → String → Exec S (ℕ × (ℕ × ℕ))
measure redis now client_ip path identity = do
  rate_10s ← increment_window_counter redis now client_ip path 10000
  rate_60s ← increment_window_counter redis now client_ip path 60000
  streak ← increment_failed_auth_streak redis now identity
  pure (rate_10s, (rate_60s, streak))

module _ {S : Type 0} (env : Setting S) where
  unfoldable pub validate : Option String → Option Claims
  validate none = none
  validate (some bearer) =
      if starts_with bearer "Bearer "
      then env.parse_signed_claims (slice bearer 7 (len bearer))
      else none

  abbrev pub claims_of : Bool → Option String → Option Claims
  claims_of true authorization = none
  claims_of false authorization = validate authorization

  -- `publishAsync`, which swallows every failure
  abbrev pub publish : Envelope → Exec (Gateway S) Unit
  publish envelope g = (ok tt, published_if (env.kafka envelope) envelope g)

  abbrev pub signal_of : Request → Option Claims → ℕ → ℕ → ℕ → RequestSignalDto
  signal_of req claims rate_10s rate_60s streak =
      build_signal env.to_lower_case env.read_map env.properties rate_10s rate_60s streak
        req.user_agent claims (pos (req.now / 1000)) req.hour req.path (body_of req)

  abbrev pub envelope_of : Request → String → RequestSignalDto → Envelope
  envelope_of req client_ip signal = record {
    request_id = req.request_id;
    client_ip = client_ip;
    method = req.method;
    endpoint = req.path;
    timestamp = env.instant_text req.now;
    signal = signal;
  }

  abbrev pub is_high_risk : String → ℕ → Bool
  is_high_risk path rate_10s =
      any_prefix path env.properties.high_risk_endpoints
      || ltb env.properties.rate_escalation_threshold rate_10s

  -- What follows the answer of the engine.
  abbrev pub enforce : Bool → ℕ → String → ScoreResponse → Exec (Gateway S) Response
  enforce true now client_ip r = do
    on_redis
        (block_immediately env.redis env.properties.blocklist_ttl_seconds now client_ip r.reason)
    pure (blocked_by_engine r.reason)
  enforce false now client_ip r = pure (forwarded (some r))

  abbrev pub score_if : Bool → ℕ → String → RequestSignalDto → Exec (Gateway S) Response
  score_if true now client_ip signal =
      let r = or_unscored (env.engine signal) in enforce (str_eq r.decision "BLOCK") now client_ip r
  score_if false now client_ip signal = pure (forwarded none)

  -- What follows the counters.
  abbrev pub proceed : Request → String → Option Claims → ℕ × (ℕ × ℕ) → Exec (Gateway S) Response
  proceed req client_ip claims counters = do
    let signal = signal_of req claims counters.0 counters.1.0 counters.1.1
    publish (envelope_of req client_ip signal)
    score_if (is_high_risk req.path counters.0) req.now client_ip signal

  unfoldable pub continue_pipeline : Request → String → Option Claims → Exec (Gateway S) Response
  continue_pipeline req client_ip claims = do
    counters ←
        on_redis (measure env.redis req.now client_ip req.path (identity_key client_ip claims))
    proceed req client_ip claims counters

  abbrev pub unless_blocked : Bool → Request → String → Option Claims → Exec (Gateway S) Response
  unless_blocked true req client_ip claims = pure temporarily_blocked
  unless_blocked false req client_ip claims = continue_pipeline req client_ip claims

  abbrev pub screen : Request → String → Option Claims → Exec (Gateway S) Response
  screen req client_ip claims = do
    blocked ← on_redis (is_blocked env.redis req.now client_ip)
    unless_blocked blocked req client_ip claims

  abbrev pub admit : Bool → Option Claims → Request → String → Exec (Gateway S) Response
  admit false none req client_ip = pure unauthorized
  admit public claims req client_ip = screen req client_ip claims

  unfoldable pub filter : Request → Exec (Gateway S) Response
  filter req = do
    client_ip ← lift (resolve_client_ip req.forwarded_for req.remote_address)
    admit (is_public req.path) (claims_of (is_public req.path) req.authorization) req client_ip
