-- ===== src/Tests/Consumer.antt =====
-- Runs of the consumer of the request stream.
use d_ai_api_sec.Prelude.{
  ◌+◌, ◌≡◌, refl, ◌≤◌, true, eq_iff, some, List, [], ◌∷◌, All, length, arith,
}
use d_ai_api_sec.Prelude.Int.{pos}
use d_ai_api_sec.Json.{Json, null, text, object, Fields, end, field}
use d_ai_api_sec.Errors.{ok, err, connection_error, key_error, cancelled, timeout_error}
use d_ai_api_sec.Retry.{Attempt, IsRefused}
use d_ai_api_sec.ThreatEngine.Signal.Valid.{arguments_of, construct-arguments_of}
use d_ai_api_sec.ThreatEngine.Consumer.{
  event, World, Outcomes, Setting, Scored, Event, scoring, handle, consume, blocks,
}
use d_ai_api_sec.ThreatEngine.Api as Api
use d_ai_api_sec.ThreatEngine.Api.{response_of}
use d_ai_api_sec.ThreatEngine.Consumer.Alike.{scores_of, scoring-alike}
use d_ai_api_sec.ThreatEngine.Consumer.Message.{handle_redis_down}
use d_ai_api_sec.ThreatEngine.Consumer.Stream.{
  accepted_run, commands, events, Scorable, consume_accepted,
}
use d_ai_api_sec.ThreatEngine.Consumer.Blocklist.{Caught, IsOurs, TextsDiffer, Survivable}
use d_ai_api_sec.ThreatEngine.Consumer.Session.{
  kafka_consumer, kafka_producer, redis_client, Session, consume_loop, consume_loop_ends,
  consume_loop_leaks,
}
use d_ai_api_sec.Tests.Instances.{log2, clip, tampered, alarmed}
use d_ai_api_sec.Tests.Features.{tampered-IsValid, tampered_vector, tampered_features}
use d_ai_api_sec.Tests.Model.{alarm, alarmed-score, blocked}

abbrev pub env : Setting
env = record {
  model = alarmed;
  ttl = pos 900;
  read_arguments = λ signal. ok (arguments_of tampered);
  text_of = λ value. "None";
}

abbrev pub fields : Fields
fields = field "client_ip" (text "10.0.0.1") (field "signal" null end)

abbrev pub message : Json
message = object fields

abbrev empty_message : Json
empty_message = object end

abbrev pub scored : Scored
scored = record { signal = tampered; result = alarm; fields = fields }

pub message-scored : scoring clip log2 env message ≡ ok scored
unfolding scoring
message-scored =
    rw
      (
        construct-arguments_of tampered tampered-IsValid,
        tampered_features,
        alarmed-score tampered_vector,
      )
      refl

empty_unscored : scoring clip log2 env empty_message ≡ err key_error
unfolding scoring
empty_unscored = refl

pub message_blocks : blocks scored ≡ true
message_blocks = rw blocked refl

abbrev pub idle : World
idle = record { blocklist = []; audit = [] }

abbrev redis_down : Outcomes
redis_down = record { setex = err connection_error; send = ok tt }

alarmed_answer : Api.score clip log2 alarmed tampered ≡ ok (response_of alarm)
unfolding Api.score
alarmed_answer = rw (tampered_features, alarmed-score tampered_vector) refl

scoring-alike_example :
    (x : Scored) × (scoring clip log2 env message ≡ ok x)
    × (scores_of (event x) ≡ response_of alarm)
scoring-alike_example =
    scoring-alike clip log2 env fields null (arguments_of tampered) tampered (response_of alarm)
      refl refl (construct-arguments_of tampered tampered-IsValid) alarmed_answer

handle_redis_down_example : handle clip log2 env redis_down message idle ≡ (ok tt, idle)
handle_redis_down_example =
    handle_redis_down clip log2 env message scored idle connection_error message-scored
      message_blocks (λ e. cc)

message-Scorable : Scorable clip log2 env message
message-Scorable e = let h = rw message-scored at e in cc

empty-Scorable : Scorable clip log2 env empty_message
empty-Scorable e = let h = rw empty_unscored at e in cc

consume_accepted_example :
    consume clip log2 env (accepted_run (message ∷ empty_message ∷ [])) idle ≡ (
      ok tt,
      record {
        blocklist = commands clip log2 env (message ∷ empty_message ∷ []);
        audit = events clip log2 env (message ∷ empty_message ∷ []);
      },
    )
consume_accepted_example =
    consume_accepted clip log2 env (message ∷ empty_message ∷ []) idle
      (message-Scorable, (empty-Scorable, tt))

none-ne-unknown : TextsDiffer clip log2 env
none-ne-unknown v = ground (arith, eq_iff "None" "unknown")

redis_down-Caught : Caught redis_down
redis_down-Caught = record { setex = λ e. cc; send = λ e. cc }

abbrev stream : List (Outcomes × Json)
stream = (redis_down, message) ∷ (redis_down, empty_message) ∷ []

stream-Survivable : All (Survivable clip log2 env) stream
stream-Survivable =
    ((redis_down-Caught, message-Scorable), ((redis_down-Caught, empty-Scorable), tt))

abbrev refused : Attempt
refused = record { start = err connection_error; sleep = ok tt }

abbrev welcomed : Attempt
welcomed = record { start = ok tt; sleep = ok tt }

refused-IsRefused : IsRefused refused
refused-IsRefused = record {
  error = connection_error;
  failed = refl;
  caught = λ e. cc;
  slept = refl;
}

abbrev session : Session
session = record {
  attempts = refused ∷ welcomed ∷ [];
  messages = stream;
  ended = err cancelled;
  consumer_stopped = ok tt;
  producer_stopped = ok tt;
  redis_closed = ok tt;
}

consume_loop_ends_example :
    (w' : World) × (consume_loop clip log2 env session idle
      ≡ (some (err cancelled), w', kafka_consumer ∷ kafka_producer ∷ redis_client ∷ []))
    × (All (IsOurs clip log2 env) w'.blocklist
        × (length w'.audit ≤ length {A = Event} [] + length stream))
consume_loop_ends_example =
    consume_loop_ends clip log2 env session idle (refused ∷ []) [] welcomed refl
      (refused-IsRefused, tt) refl refl refl refl none-ne-unknown stream-Survivable tt

consume_loop_leaks_example :
    (w' : World) × (consume_loop clip log2 env
        (record session { consumer_stopped = err timeout_error })
        idle
      ≡ (some (err timeout_error), w', kafka_consumer ∷ []))
consume_loop_leaks_example =
    consume_loop_leaks clip log2 env (record session { consumer_stopped = err timeout_error }) idle
      timeout_error refl refl
