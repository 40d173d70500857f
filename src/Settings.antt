-- ===== src/Settings.antt =====
-- The settings that threat-engine/app/kafka_consumer.py and audit-indexer/indexer.py read from the
-- environment when they are imported. `int` and `float` of a text are parameters.
use d_ai_api_sec.Prelude.{◌≡◌, sym, ap, ◌∙◌, String}
use d_ai_api_sec.Prelude.Int.{ℤ}
use d_ai_api_sec.Prelude.Dict.{Dict, get}
use d_ai_api_sec.Errors.{Result, ok, ◌>>=◌, >>=-eq-ok, ok-injective}
use d_ai_api_sec.Float.{Float}

pub record Consumer : Type 0 where
  pub kafka_brokers : String
  pub redis_url : String
  pub raw_topic : String
  pub audit_topic : String
  pub blocklist_ttl_seconds : ℤ

unfoldable pub consumer : (String → Result ℤ) → Dict String → Result Consumer
consumer int environ = do
  ttl ← int (get environ "BLOCKLIST_TTL_SECONDS" "900")
  ok record {
    kafka_brokers = get environ "KAFKA_BROKERS" "kafka:9092";
    redis_url = get environ "REDIS_URL" "redis://redis:6379/0";
    raw_topic = get environ "RAW_TOPIC" "api.requests.raw";
    audit_topic = get environ "AUDIT_TOPIC" "api.audit.events";
    blocklist_ttl_seconds = ttl;
  }

pub record Indexer : Type 0 where
  pub kafka_brokers : String
  pub es_url : String
  pub audit_topic : String
  pub flush_interval_seconds : Float
  pub flush_batch_size : ℤ

unfoldable pub indexer :
    (String → Result Float) → (String → Result ℤ) → Dict String → Result Indexer
indexer float int environ = do
  interval ← float (get environ "FLUSH_INTERVAL_SECONDS" "2.0")
  size ← int (get environ "FLUSH_BATCH_SIZE" "200")
  ok record {
    kafka_brokers = get environ "KAFKA_BROKERS" "kafka:9092";
    es_url = get environ "ELASTICSEARCH_URL" "http://elasticsearch:9200";
    audit_topic = get environ "AUDIT_TOPIC" "api.audit.events";
    flush_interval_seconds = interval;
    flush_batch_size = size;
  }

-- In one environment the two programs, once they have started, speak to the same brokers about the
-- same audit topic.
topics_agree :
    (float : String → Result Float) (int : String → Result ℤ) (environ : Dict String) (c : Consumer)
    (i : Indexer)
    → consumer int environ ≡ ok c
    → indexer float int environ ≡ ok i
    → (c.kafka_brokers ≡ i.kafka_brokers) × (c.audit_topic ≡ i.audit_topic)
unfolding consumer indexer
topics_agree float int environ c i e k =
    let (_, _, same) = >>=-eq-ok (int (get environ "BLOCKLIST_TTL_SECONDS" "900")) _ e in
    let (_, _, rest) = >>=-eq-ok (float (get environ "FLUSH_INTERVAL_SECONDS" "2.0")) _ k in
    let (_, _, equal) = >>=-eq-ok (int (get environ "FLUSH_BATCH_SIZE" "200")) _ rest in
    let c_eq = ok-injective same in
    let i_eq = ok-injective equal in
    (
      sym (ap (λ s. s.kafka_brokers) c_eq) ∙ ap (λ s. s.kafka_brokers) i_eq,
      sym (ap (λ s. s.audit_topic) c_eq) ∙ ap (λ s. s.audit_topic) i_eq,
    )
