-- ===== src/Tests/Gateway.antt =====
-- Requests at the gateway, blocked, refused and passed on.
use d_ai_api_sec.Prelude.{
  List, String, ◌*◌, ◌+◌, ℕ, ◌≡◌, refl, Bool, true, Option, none, some, [], ◌∷◌, ◌++◌, arith, inr,
}
use d_ai_api_sec.Prelude.Int.{pos}
use d_ai_api_sec.Errors.{Result, ok, err, timeout_error}
use d_ai_api_sec.Float.{dec}
use d_ai_api_sec.ThreatEngine.Api.{ScoreResponse}
use d_ai_api_sec.ThreatEngine.Consumer.{handle, event, command}
use d_ai_api_sec.Tests.Instances.{log2, clip}
use d_ai_api_sec.Tests.Consumer.{message, scored, message-scored, message_blocks}
use d_ai_api_sec.Tests.Consumer as Consumed
use d_ai_api_sec.Gateway.Redis.{
  increment_window_counter, increment_failed_auth_streak, text, Entry, blocklist_key,
}
use d_ai_api_sec.Tests.Redis.{Server, client, laws, up, put, put-Written}
use d_ai_api_sec.Gateway.Signal.{Claims, RequestSignalDto, SecurityProperties}
use d_ai_api_sec.Gateway.Admission.{IsPassed, filter-IsPassed}
use d_ai_api_sec.Gateway.Answers.{Steady, filter_answers}
use d_ai_api_sec.Gateway.Asked.{HasAccess, IsAsked, engine_down_forwards}
use d_ai_api_sec.Gateway.Blocked.{consumer_block_lasts}
use d_ai_api_sec.Gateway.Held.{serve_all}
use d_ai_api_sec.Gateway.Lasting.{block_lasts}
use d_ai_api_sec.Gateway.Address.{resolve_client_ip}
use d_ai_api_sec.Gateway.{
  measure, Request, Gateway, Response, forwarded, unscored, blocked_by_engine, temporarily_blocked,
  Setting, validate, filter,
}

abbrev pub properties : SecurityProperties
properties = record {
  high_risk_endpoints = "/api/auth/login" ∷ "/api/checkout" ∷ [];
  rate_escalation_threshold = 15;
  blocklist_ttl_seconds = 900;
  numeric_baselines = ("/api/checkout:qty", dec 1 0 ∷ dec 10 0 ∷ []) ∷ [];
}

abbrev pub block_answer : ScoreResponse
block_answer = record {
  isolation_score = dec 10 1;
  xgboost_score = dec 95 2;
  final_score = dec 97 2;
  decision = "BLOCK";
  reason = "High combined anomaly + attack-pattern probability";
}

abbrev pub claims : Claims
claims = record { subject = some "demo"; issued_at = some (pos 1700000000) }

-- A gateway by the claims of each token and the answers of its threat engine.
abbrev pub env_with : Claims → (RequestSignalDto → Result ScoreResponse) → Setting Server
env_with c engine = record {
  redis = client;
  properties = properties;
  parse_signed_claims = λ token. some c;
  to_lower_case = λ s. s;
  read_map = λ body. none;
  instant_text = λ now. "2023-11-14T22:13:20Z";
  engine = engine;
  kafka = λ envelope. ok tt;
}

abbrev pub env_of : Result ScoreResponse → Setting Server
env_of answer = env_with claims (λ signal. answer)

abbrev pub checkout : ℕ → Request
checkout now = record {
  method = "POST";
  path = "/api/checkout";
  authorization = some "Bearer token";
  user_agent = none;
  forwarded_for = none;
  remote_address = some "10.0.0.1";
  body = "";
  request_id = "r-1";
  now = now;
  hour = 22;
}

abbrev pub redis_of : Bool → Server
redis_of up = record { up = up; entries = [] }

abbrev pub idle : Gateway Server
idle = record { redis = redis_of true; published = [] }

resolved :
    (now : ℕ)
    → resolve_client_ip (checkout now).forwarded_for (checkout now).remote_address ≡ ok "10.0.0.1"
unfolding resolve_client_ip
resolved now = refl

pub token_read :
    (c : Claims) (engine : RequestSignalDto → Result ScoreResponse)
    → validate (env_with c engine) (some "Bearer token") ≡ some c
unfolding validate
token_read c engine = refl

access_with :
    (c : Claims) (engine : RequestSignalDto → Result ScoreResponse) (now : ℕ)
    → HasAccess (env_with c engine) (checkout now)
access_with c engine now = inr (c, token_read c engine)

access : (answer : Result ScoreResponse) (now : ℕ) → HasAccess (env_of answer) (checkout now)
access answer now = access_with claims (λ signal. answer) now

idle-Steady :
    (c : Claims) (engine : RequestSignalDto → Result ScoreResponse)
    → Steady (env_with c engine) laws idle
idle-Steady c engine = record {
  up = refl;
  kept = λ key e h. absurd (let never : ◌≡◌ {A = Option Entry} none (some e) = h in cc);
  held = λ ip e h. absurd (let never : ◌≡◌ {A = Option Entry} none (some e) = h in cc);
}

pub asked_with :
    (c : Claims) (engine : RequestSignalDto → Result ScoreResponse)
    → IsAsked (env_with c engine) laws (checkout 1700000000000) "10.0.0.1" idle
asked_with c engine = record {
  resolved = resolved 1700000000000;
  access = access_with c engine 1700000000000;
  steady = idle-Steady c engine;
  unblocked = refl;
  risky = λ rate. refl;
}

asked :
    (answer : Result ScoreResponse)
    → IsAsked (env_of answer) laws (checkout 1700000000000) "10.0.0.1" idle
asked answer = asked_with claims (λ signal. answer)

engine_down_forwards_example :
    (g' : Gateway Server) × (filter (env_of (err timeout_error)) (checkout 1700000000000) idle
      ≡ (ok (forwarded (some unscored)), g'))
engine_down_forwards_example =
    engine_down_forwards (env_of (err timeout_error)) laws (checkout 1700000000000) "10.0.0.1" idle
      (asked (err timeout_error)) (λ rates. (timeout_error, refl))

abbrev passed : Gateway Server
passed =
    (engine_down_forwards (env_of (err timeout_error)) laws (checkout 1700000000000) "10.0.0.1" idle
      (asked (err timeout_error)) (λ rates. (timeout_error, refl))).0

filter-IsPassed_example :
    IsPassed (env_of (err timeout_error)) (checkout 1700000000000) idle (some unscored) passed
filter-IsPassed_example =
    filter-IsPassed (env_of (err timeout_error)) (checkout 1700000000000) idle passed
      (some unscored)
      (engine_down_forwards (env_of (err timeout_error)) laws (checkout 1700000000000) "10.0.0.1"
        idle (asked (err timeout_error)) (λ rates. (timeout_error, refl))).1

filter_answers_example :
    (r : Response) × (g' : Gateway Server) × (filter
        (env_of (ok block_answer))
        (checkout 1700000000000)
        idle
      ≡ (ok r, g'))
    × Steady (env_of (ok block_answer)) laws g'
filter_answers_example =
    filter_answers (env_of (ok block_answer)) laws (checkout 1700000000000) idle "10.0.0.1"
      (resolved 1700000000000) (idle-Steady claims (λ signal. ok block_answer))

abbrev counted : Server
counted = (measure client 1700000000000 "10.0.0.1" "/api/checkout" "demo" idle.redis).1

measured :
    measure client 1700000000000 "10.0.0.1" "/api/checkout" "demo" idle.redis
    ≡ (ok (1, (2, 1)), counted)
unfolding measure increment_window_counter increment_failed_auth_streak
measured = refl

-- The client and another one ask again within the minute.
abbrev between : List Request
between =
    checkout 1700000010000
    ∷ record (checkout 1700000020000) { remote_address = some "10.0.0.2" }
    ∷ []

abbrev refused_reason : String
refused_reason = "High combined anomaly + attack-pattern probability"

-- Ten minutes later the client is still blocked.
block_lasts_example :
    (g' : Gateway Server) × (filter (env_of (ok block_answer)) (checkout 1700000000000) idle
      ≡ (ok (blocked_by_engine refused_reason), g'))
    × (filter
          (env_of (ok block_answer))
          (checkout 1700000600000)
          (serve_all (env_of (ok block_answer)) between g')
        ≡ (ok temporarily_blocked, serve_all (env_of (ok block_answer)) between g'))
unfolding validate
block_lasts_example =
    block_lasts (env_of (ok block_answer)) laws (checkout 1700000000000) (checkout 1700000600000)
      between "10.0.0.1" idle (1, (2, 1)) counted (resolved 1700000000000)
      (access (ok block_answer) 1700000000000) (idle-Steady claims (λ signal. ok block_answer)) refl
      measured refl refl (omega arith, (omega arith, tt)) (resolved 1700000600000)
      (access (ok block_answer) 1700000600000) (omega arith)

-- Redis behind the consumer's command.
abbrev blocked_at : Gateway Server
blocked_at = record idle {
  redis =
      put (blocklist_key "10.0.0.1")
        (record {
          value = text (command clip log2 Consumed.env scored).value;
          expires = some (1700000000000 + 900 * 1000);
        })
        idle.redis;
}

consumer_block_lasts_example :
    (handle clip log2 Consumed.env (record { setex = ok tt; send = ok tt }) message Consumed.idle
      ≡ (
        ok tt,
        record {
          blocklist = [] ++ command clip log2 Consumed.env scored ∷ [];
          audit = [] ++ event scored ∷ [];
        },
      ))
    × ((command clip log2 Consumed.env scored).ttl ≡ pos 900)
    × (filter (env_of (ok block_answer)) (checkout 1700000600000) blocked_at
        ≡ (ok temporarily_blocked, blocked_at))
consumer_block_lasts_example =
    consumer_block_lasts (env_of (ok block_answer)) laws clip log2 Consumed.env message scored
      Consumed.idle "10.0.0.1" 900 1700000000000 (checkout 1700000600000) idle blocked_at.redis
      message-scored message_blocks refl refl
      (put-Written (blocklist_key "10.0.0.1")
        (record {
          value = text (command clip log2 Consumed.env scored).value;
          expires = some (1700000000000 + 900 * 1000);
        })
        idle.redis refl)
      (resolved 1700000600000) (access (ok block_answer) 1700000600000) (omega arith)
