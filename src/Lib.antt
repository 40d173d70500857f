-- ===== src/Lib.antt =====
-- D-AI-API-Sec, an AI-assisted API firewall: its gateway, its detection and audit services and its scripts,
-- modelled and verified.
--
-- The program. A gateway (gateway/src/main/java/com/aisecfirewall/gateway) authenticates each API request,
-- refuses clients on a blocklist in Redis, counts the request there and publishes a signal of it to Kafka.
-- For a high-risk request it asks the threat engine, whose HTTP endpoint (threat-engine/app/main.py) turns
-- the signal into a vector of twelve features (threat-engine/app/features.py) and scores that by an ensemble
-- of an isolation forest and a gradient-boosted classifier (threat-engine/app/model.py). The same scoring
-- runs over the stream of signals in Kafka (threat-engine/app/kafka_consumer.py), which writes blocked
-- clients to the blocklist and one event for each message to the audit topic. The audit indexer
-- (audit-indexer/indexer.py) ships those events to Elasticsearch in bulk. The model of each is a
-- translation of its functions; code that is not part of the repository is a parameter with its documented
-- behaviour as named hypotheses.
--
-- The files.
--   Prelude, with Prelude/Tests, Lists, Int, Dict: shared names, Boolean tests, lists measured by native
--     numbers, whole numbers, Python dicts with texts for keys.
--   Errors, Exec: exceptions as values; code that changes a state and may raise.
--   Float, with Float/Round, Order, Arith, Literals, Convert, Decimal: Python's float as IEEE 754
--     binary64, computed exactly, with the laws of rounding that the proofs use.
--   Json: the values of json.loads.
--   Retry: the connecting loop and the closing of clients that both Kafka services have.
--   Settings: what the consumer and the indexer read from the environment.
--   Gateway: ZeroTrustFilter.filter (filter) and the steps that it is made of, JwtAuthValidator.validate
--     (validate), the stand-in of ThreatEngineClient (or_unscored) and publishAsync (publish). The state
--     is that of Redis and the messages that Kafka has accepted (Gateway).
--   Gateway/Redis: RedisStateService over the commands of its client, an interface (RedisClient); their
--     documented behaviour is the record IsRedis, which the theorems take.
--   Gateway/Address, Gateway/Signal: resolveClientIp; SecurityProperties, RequestSignalDTO and buildSignal.
--   Gateway/Admission, Published, Asked, Blocked, Held, Lasting: what is forwarded, what is published, how a
--     request with access goes on, and how long a block lasts, whatever is served meanwhile.
--   Gateway/Keys, Counting, Answers: what each key holds, that the counters never fail, and
--     that every request is answered.
--   Gateway/Shared, Burst, Unexpiring: the counters of the two windows over a burst of requests, and a
--     counter that has no time of expiry.
--   Gateway/Accepted, Scored: the gateway's signal at the endpoint of the threat engine (ask).
--   Gateway/Login: a token of the auth service at the gateway.
--   ThreatEngine/Signal: RequestSignal, its defaults and its bounds (construct).
--   ThreatEngine/Entropy: _shannon_entropy over the code points of the body (shannon_entropy).
--   ThreatEngine/Anomaly: _numeric_field_anomaly (numeric_field_anomaly), one pass of its loop being
--     field_deviation.
--   ThreatEngine/Features: FEATURE_ORDER and extract_features.
--   ThreatEngine/Model: EnsembleThreatModel with its attributes; init, load, normalize_iso and score
--     are its methods, verdict the decision from the final score.
--   ThreatEngine/Api: the module-level state (App), lifespan (startup, shutdown), health and score.
--   ThreatEngine/Consumer: one message (handle) and the stream (consume); Consumer/Session has the
--     whole of _consume_loop. The state is what Redis and the audit topic have accepted (World).
--   ThreatEngine/Training: the generators of threat-engine/train/train_model.py (benign,
--     credential_stuffing, business_logic_abuse); Training/Fit has generate_dataset and main, with the
--     model directory as the state (Models).
--   AuditIndexer: _index_name in AuditIndexer/Index, _flush (flush) and the loop of run (step,
--     run_loop); AuditIndexer/Session has the whole of run. The state is the buffer, the requests made,
--     the readings of the clock and the log (Indexer).
--   Pipeline: the gateway, the consumer and the indexer as one system, whose steps are theirs in any
--     order (Step, Reach); Pipeline/Positions has what a reader has taken that began at its topic's end,
--     Pipeline/Trail what the messages come to, Pipeline/Audit the audit trail through all three.
--   MockServices: mock-services/auth-service/main.py and mock-services/order-service/main.py (accept is
--     create_order and checkout), with the printed lines as the state.
--   Query: scripts/query_audit_trail.py, with the printed lines as the state.
--   Simulation: attempt and the loop of main of scripts/simulate_credential_stuffing.py;
--     Simulation/Abuse has scripts/simulate_business_logic_abuse.py, Simulation/Load the tasks of
--     scripts/locustfile.py, and Simulation/Detected follows the orders of the former to the engine, with
--     the ranges of gateway/src/main/resources/application.yml as Spring Boot binds their keys.
--   Tests: concrete parameters that satisfy the hypotheses (a Redis over a dict among them), and runs.
--
-- Bounds. No fuel is used: a loop over messages, arrivals or attempts is a recursion on the list of
-- those that a run sees, so that what is stated holds of every finite run, and a loop that goes on
-- behind the given ones is reported as running or waiting. Counts and sizes are unbounded, except that
-- a length enters a float only up to 2 ^ 63 and an integer feature up to 2 ^ 53, and that the gateway cuts
-- the streak to a signed 32-bit number, which the theorems say where they need it.
--
-- Not modelled. The sign of a zero and the payload of a NaN, on which no branch of the code
-- depends; pydantic's reading of JSON at a declared type, a parameter of the stream consumer and
-- done before the endpoint's handler; the fitted artifacts, numpy's random draws and the fitting
-- itself; the text of log messages, apart from the counts that the indexer logs; the offsets of the
-- Kafka consumer groups (a reader of Pipeline begins at the end of its topic and goes on without a
-- restart), and the order of messages across the partitions of a topic; times and delays,
-- which appear only as the instant of a request and the timeouts among the arrivals. At the gateway, the
-- Redis calls of one request are not interleaved with those of another; the time limit and the circuit
-- breaker of the call to the engine are part of the engine's answer, a parameter; routing, the wrapping of
-- a refusal's reason in JSON and the two headers of a tag belong to Spring's side of the response. The
-- deployment files (docker-compose.yml, k8s, elasticsearch, scripts/setup_infra.sh) configure
-- third-party services, and the unit tests are left out.
pub mod Prelude
pub mod Errors
pub mod Exec
pub mod Retry
pub mod Float
pub mod Json
pub mod Settings
pub mod ThreatEngine
pub mod Gateway
pub mod AuditIndexer
pub mod Pipeline
pub mod MockServices
pub mod Query
pub mod Simulation
pub mod Tests
