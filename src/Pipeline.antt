-- ===== src/Pipeline.antt =====
-- The parts together: the gateway of gateway/src/main/java/com/aisecfirewall/gateway, the consumer of
-- threat-engine/app/kafka_consumer.py and audit-indexer/indexer.py, over the topics api.requests.raw and
-- api.audit.events and one Redis. Any part may take the next step; each of the two readers takes a topic's
-- messages in their order, from the topic's end at its start on.
pub mod Positions
pub mod Trail
pub mod Audit
use d_ai_api_sec.Prelude.{ℕ, ◌≡◌, Option, none, some, List, [], ◌∷◌, ◌++◌}
use d_ai_api_sec.Prelude.Int.{ℤ, pos_part}
use d_ai_api_sec.Json.{Json}
use d_ai_api_sec.Errors.{Result, ok, err, timeout_error}
use d_ai_api_sec.Float.{Float}
use d_ai_api_sec.ThreatEngine.Consumer.{Event, SetEx, World, Outcomes, handle}
use d_ai_api_sec.ThreatEngine.Consumer as Consumer
use d_ai_api_sec.AuditIndexer.{Action, Indexer, step}
use d_ai_api_sec.AuditIndexer.Index.{Date}
use d_ai_api_sec.Gateway.{Request, Envelope, Gateway, filter}
use d_ai_api_sec.Gateway as Gateways

-- The configurations of the parts, and what their messages are read as on the other side.
pub record Setup (S : Type 0) : Type 0 where
  pub clip : Float → Float → Float → Float
  pub log2 : Float → Float
  pub gateway : Gateways.Setting S
  pub consumer : Consumer.Setting
  pub clock : ℕ → Date
  pub async_bulk : ℕ → List Action → Result (ℕ × List Json)
  pub batch_size : ℤ
  pub payload_of : Envelope → Json
  pub document_of : Event → Json

-- The gateway with Redis and the raw topic; the messages that this topic held when the consumer took its
-- position at the topic's end, if it has; those that it has taken since, with the endings of its calls
-- on each, and its state with the audit topic; the events that this topic held when the indexer took its position,
-- if it has; those that it has taken since, those of them taken since its wait last ran out, and the indexer.
pub record System (S : Type 0) : Type 0 where
  pub gateway : Gateway S
  pub consumer_from : Option (List Envelope)
  pub consumed : List (Envelope × Outcomes)
  pub world : World
  pub indexer_from : Option (List Event)
  pub delivered : List Event
  pub recent : List Event
  pub indexer : Indexer

abbrev pub envelopes : List (Envelope × Outcomes) → List Envelope
envelopes [] = []
envelopes ((envelope, outcomes) ∷ rest) = envelope ∷ envelopes rest

module _ {S : Type 0} (x : Setup S) where
  abbrev pub serve : Request → System S → System S
  serve req s = record s { gateway = (filter x.gateway req s.gateway).1 }

  -- `auto_offset_reset="latest"`: a new group begins at the end of the topic.
  abbrev pub start_consumer : System S → System S
  start_consumer s = record s { consumer_from = some s.gateway.published }

  abbrev pub take_message : S → Outcomes → Envelope → System S → System S
  take_message redis outcomes envelope s = record s {
    gateway = record (s.gateway) { redis = redis };
    consumed = s.consumed ++ (envelope, outcomes) ∷ [];
    world = (handle x.clip x.log2 x.consumer outcomes (x.payload_of envelope) s.world).1;
  }

  abbrev pub start_indexer : System S → System S
  start_indexer s = record s { indexer_from = some s.world.audit }

  abbrev pub take_event : Event → System S → System S
  take_event event s = record s {
    delivered = s.delivered ++ event ∷ [];
    recent = s.recent ++ event ∷ [];
    indexer = (step x.clock x.async_bulk x.batch_size (ok (x.document_of event)) s.indexer).1;
  }

  abbrev pub time_out : System S → System S
  time_out s = record s {
    recent = [];
    indexer = (step x.clock x.async_bulk x.batch_size (err timeout_error) s.indexer).1;
  }

-- One step of one part. A part that raises takes its step too, with what it leaves behind. The
-- consumer's command may change Redis in any way.
pub data Step {S : Type 0} (x : Setup S) : System S → System S → Type 0 where
  served : (s : System S) (req : Request) → Step x s (serve x req s)
  consumer_started : (s : System S) → s.consumer_from ≡ none → Step x s (start_consumer x s)
  consumed :
      (s : System S) (redis : S) (outcomes : Outcomes) (envelope : Envelope)
      (missed rest : List Envelope)
      → s.consumer_from ≡ some missed
      → s.gateway.published ≡ missed ++ (envelopes s.consumed ++ envelope ∷ rest)
      → Step x s (take_message x redis outcomes envelope s)
  indexer_started : (s : System S) → s.indexer_from ≡ none → Step x s (start_indexer x s)
  indexed :
      (s : System S) (event : Event) (missed rest : List Event)
      → s.indexer_from ≡ some missed
      → s.world.audit ≡ missed ++ (s.delivered ++ event ∷ rest)
      → Step x s (take_event x event s)
  waited :
      (s : System S) (missed : List Event) → s.indexer_from ≡ some missed → Step x s (time_out x s)

pub data Reach {S : Type 0} (x : Setup S) (start : System S) : System S → Type 0 where
  at_start : Reach x start start
  further : (s t : System S) → Reach x start s → Step x s t → Reach x start t
