-- ===== src/Tests/Pipeline.antt =====
-- A run of all the parts.
use d_ai_api_sec.Prelude.{none, ap, ◌∙◌, ◌≡◌, refl, true, some, [], ◌∷◌, length}
use d_ai_api_sec.Prelude.Int.{pos}
use d_ai_api_sec.Json.{null}
use d_ai_api_sec.Errors.{Result, ok}
use d_ai_api_sec.Gateway.{measure, filter}
use d_ai_api_sec.ThreatEngine.Consumer.{World, Outcomes, command, event, handle}
use d_ai_api_sec.ThreatEngine.Consumer.Message.{handle_accepted}
use d_ai_api_sec.AuditIndexer.Session.{new_indexer}
use d_ai_api_sec.Gateway.Redis.{
  is_blocked, block_immediately, increment_window_counter, increment_failed_auth_streak,
}
use d_ai_api_sec.Gateway.Address.{resolve_client_ip}
use d_ai_api_sec.Gateway.{Envelope, envelope_of, signal_of, validate, continue_pipeline}
use d_ai_api_sec.Pipeline.{
  Setup, System, Reach, at_start, further, start_consumer, start_indexer, consumer_started,
  indexer_started, served, consumed, indexed, serve, take_message, take_event,
}
use d_ai_api_sec.Pipeline.Audit.{IsEmpty, IsConsistent, Reach-IsConsistent}
use d_ai_api_sec.Tests.Consumer.{message, scored, message-scored, message_blocks}
use d_ai_api_sec.Tests.Consumer as Consumed
use d_ai_api_sec.Tests.Instances.{log2, clip}
use d_ai_api_sec.Tests.Gateway.{block_answer, claims, env_of, checkout, idle, redis_of}
use d_ai_api_sec.Tests.Redis.{Server}

abbrev setup : Setup Server
setup = record {
  clip = clip;
  log2 = log2;
  gateway = env_of (ok block_answer);
  consumer = Consumed.env;
  clock = λ n. record { year = 2023; month = 11; day = 14 };
  async_bulk = λ n actions. ok (length actions, []);
  batch_size = pos 1;
  payload_of = λ envelope. message;
  document_of = λ event. null;
}

abbrev start : System Server
start = record {
  gateway = idle;
  consumer_from = none;
  consumed = [];
  world = Consumed.idle;
  indexer_from = none;
  delivered = [];
  recent = [];
  indexer = new_indexer;
}

start-IsEmpty : IsEmpty setup start
start-IsEmpty = record {
  published = refl;
  unread = refl;
  consumed = refl;
  blocklist = refl;
  audit = refl;
  unindexed = refl;
  delivered = refl;
  recent = refl;
  requests = refl;
  buffer = refl;
}

abbrev served_one : System Server
served_one = serve setup (checkout 1700000000000) (start_indexer setup (start_consumer setup start))

abbrev envelope : Envelope
envelope =
    envelope_of (env_of (ok block_answer)) (checkout 1700000000000) "10.0.0.1"
      (signal_of (env_of (ok block_answer)) (checkout 1700000000000) (some claims) 1 2 1)

one-published : served_one.gateway.published ≡ envelope ∷ []
unfolding filter resolve_client_ip validate continue_pipeline is_blocked measure
    increment_window_counter increment_failed_auth_streak block_immediately
one-published = refl

abbrev accepted : Outcomes
accepted = record { setex = ok tt; send = ok tt }

abbrev scored_one : System Server
scored_one = take_message setup (redis_of true) accepted envelope served_one

message-handled : handle clip log2 Consumed.env accepted message Consumed.idle ≡ (
  ok tt,
  record { blocklist = command clip log2 Consumed.env scored ∷ []; audit = event scored ∷ [] },
)
message-handled =
    handle_accepted clip log2 Consumed.env message scored Consumed.idle message-scored
    ∙ rw message_blocks refl

abbrev indexed_one : System Server
indexed_one = take_event setup (event scored) scored_one

reached : Reach setup start indexed_one
reached =
    further scored_one indexed_one
      (further served_one scored_one
        (further (start_indexer setup (start_consumer setup start)) served_one
          (further (start_consumer setup start) (start_indexer setup (start_consumer setup start))
            (further start (start_consumer setup start) at_start (consumer_started start refl))
            (indexer_started (start_consumer setup start) refl))
          (served (start_indexer setup (start_consumer setup start)) (checkout 1700000000000)))
        (consumed served_one (redis_of true) accepted envelope [] [] refl one-published))
      (indexed scored_one (event scored) [] [] refl
        (ap (λ (p : Result (Unit {0}) × World). p.1.audit) message-handled))

Reach-IsConsistent_example : IsConsistent setup 0 indexed_one
Reach-IsConsistent_example = Reach-IsConsistent setup 0 start indexed_one refl start-IsEmpty reached
