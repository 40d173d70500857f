-- ===== src/ThreatEngine/Consumer.antt =====
-- threat-engine/app/kafka_consumer.py: the loop that scores the request stream. What Redis and Kafka
-- answer to each call enters as outcomes, and the calls that they accept are kept in the state.
pub mod Message
pub mod Stream
pub mod Blocklist
pub mod Session
pub mod Alike
pub mod Written
use Prim.Native.String.{◌++◌ as append}
use d_ai_api_sec.Prelude.{
  ℕ, ◌+◌, ◌≡◌, refl, Bool, true, false, ◌&&◌, not, String, str_eq, Option, none, some, List, [],
  ◌∷◌, ◌++◌, if◌then◌else◌,
}
use d_ai_api_sec.Prelude.Int.{ℤ}
use d_ai_api_sec.Json.{Json, null, text, object, Fields, item, get_or}
use d_ai_api_sec.Errors as Errors
use d_ai_api_sec.Errors.{Error, Result, ok, err, type_error, attribute_error, cancelled}
use d_ai_api_sec.Exec.{Exec, pure, lift, modify, ◌>>=◌, ◌>>◌}
use d_ai_api_sec.Float.{Float}
use d_ai_api_sec.ThreatEngine.Signal.{RequestSignal, Arguments, construct}
use d_ai_api_sec.ThreatEngine.Features.{extract_features}
use d_ai_api_sec.ThreatEngine.Model.{EnsembleThreatModel, ScoreResult}
use d_ai_api_sec.ThreatEngine.Model as Model

-- The dict that goes to the audit topic.
pub record Event : Type 0 where
  pub request_id : Json
  pub client_ip : Json
  pub endpoint : Json
  pub method : Json
  pub timestamp : Json
  pub isolation_score : Float
  pub xgboost_score : Float
  pub final_score : Float
  pub decision : String
  pub reason : String

-- `SETEX key ttl value`
pub record SetEx : Type 0 where
  pub key : String
  pub ttl : ℤ
  pub value : String

-- The commands that Redis has accepted and the events that the audit topic has, oldest first.
pub record World : Type 0 where
  pub blocklist : List SetEx
  pub audit : List Event

-- How the two calls of one message end, should they be made.
pub record Outcomes : Type 0 where
  pub setex : Result (Unit {0})
  pub send : Result (Unit {0})

-- The environment of the loop: the model and the time to live, pydantic's reading of a JSON value as
-- keyword arguments of the declared types, and Python's text of a value that is no text.
pub record Setting : Type 0 where
  pub model : EnsembleThreatModel
  pub ttl : ℤ
  pub read_arguments : Json → Result Arguments
  pub text_of : Json → String

abbrev pub fields_of : Json → Result Fields
fields_of (object fields) = ok fields
fields_of _ = err attribute_error

-- `client_ip != "unknown"`
abbrev pub is_known : Json → Bool
is_known (text ip) = not (str_eq ip "unknown")
is_known _ = true

-- `f"{client_ip}"`
abbrev pub formatted : (Json → String) → Json → String
formatted text_of (text ip) = ip
formatted text_of value = text_of value

abbrev pub event_of : Fields → Json → ScoreResult → Event
event_of payload client_ip result = record {
  request_id = get_or payload "request_id" null;
  client_ip = client_ip;
  endpoint = get_or payload "endpoint" null;
  method = get_or payload "method" null;
  timestamp = get_or payload "timestamp" null;
  isolation_score = result.isolation_score;
  xgboost_score = result.xgboost_score;
  final_score = result.final_score;
  decision = result.decision;
  reason = result.reason;
}

-- `await redis_client.setex(...)` and `await producer.send_and_wait(...)`
abbrev pub call_setex : Result (Unit {0}) → SetEx → Exec World Unit
call_setex (ok _) command w = (ok tt, record w { blocklist = w.blocklist ++ command ∷ [] })
call_setex (err e) command w = (err e, w)

abbrev pub call_send : Result (Unit {0}) → Event → Exec World Unit
call_send (ok _) event w = (ok tt, record w { audit = w.audit ++ event ∷ [] })
call_send (err e) event w = (err e, w)

-- What is computed from a message before anything is written: the signal, its score and the dict.
pub record Scored : Type 0 where
  pub signal : RequestSignal
  pub result : ScoreResult
  pub fields : Fields

abbrev pub client_of : Scored → Json
client_of s = get_or s.fields "client_ip" (text "unknown")

-- The condition of the write to Redis.
abbrev pub blocks : Scored → Bool
blocks s = str_eq s.result.decision "BLOCK" && is_known (client_of s)

abbrev pub event : Scored → Event
event s = event_of s.fields (client_of s) s.result

-- The `if` around the write.
abbrev pub block_if : Bool → Result (Unit {0}) → SetEx → Exec World Unit
block_if true outcome command = call_setex outcome command
block_if false outcome command = pure tt

-- `except Exception` skips the message; a cancellation is no `Exception`.
abbrev pub skip_failure : Result (Unit {0}) × World → Result (Unit {0}) × World
skip_failure (err cancelled, w) = (err cancelled, w)
skip_failure (r, w) = (ok tt, w)

module _ (clip : Float → Float → Float → Float) (log2 : Float → Float) (env : Setting) where
  abbrev pub command : Scored → SetEx
  command s = record {
    key = append "blocklist:" (formatted env.text_of (client_of s));
    ttl = env.ttl;
    value = s.result.reason;
  }

  -- The first part of the inner `try`, up to the event.
  unfoldable pub scoring : Json → Result Scored
  scoring payload = Errors.◌>>=◌ (item payload "signal") λ raw_signal.
      Errors.◌>>=◌ (env.read_arguments raw_signal) λ arguments.
        Errors.◌>>=◌ (construct arguments) λ s. Errors.◌>>=◌ (extract_features log2 s) λ vector.
          Errors.◌>>=◌ (Model.score clip env.model vector) λ r.
            Errors.◌>>=◌ (fields_of payload) λ f. ok record { signal = s; result = r; fields = f }

  -- The two writes that end the inner `try`.
  abbrev pub writes : Outcomes → Scored → Exec World Unit
  writes outcomes s = do
    block_if (blocks s) outcomes.setex (command s)
    call_send outcomes.send (event s)

  -- The body of the inner `try`.
  unfoldable pub process : Outcomes → Json → Exec World Unit
  process outcomes payload = do s ← lift (scoring payload); writes outcomes s

  unfoldable pub handle : Outcomes → Json → Exec World Unit
  handle outcomes payload w = skip_failure (process outcomes payload w)

  -- `async for msg in consumer`, over the messages of a run.
  unfoldable pub consume : List (Outcomes × Json) → Exec World Unit
  consume [] = pure tt
  consume ((outcomes, payload) ∷ messages) = do handle outcomes payload; consume messages
