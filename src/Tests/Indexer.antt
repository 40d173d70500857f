-- ===== src/Tests/Indexer.antt =====
-- Runs of the audit indexer.
use d_ai_api_sec.Prelude.{
  ◌<◌, ◌≤◌, ◌++◌, ℕ, ◌+◌, ◌≡◌, refl, some, List, [], ◌∷◌, ◌++◌, All, length, arith,
}
use mathlib.Core.Path.{subst}
use d_ai_api_sec.Prelude.Int.{pos}
use d_ai_api_sec.Json.{Json, null, text}
use d_ai_api_sec.Errors.{Result, ok, err, connection_error, cancelled, timeout_error, ok-injective}
use d_ai_api_sec.Retry.{Attempt, IsRefused}
use d_ai_api_sec.AuditIndexer.Index.{Date, IsDate, index_name}
use d_ai_api_sec.AuditIndexer.{Action, Indexer, run_loop}
use d_ai_api_sec.AuditIndexer.Delivery.{Steady, received, all_sources}
use d_ai_api_sec.AuditIndexer.Sent.{run_loop-sends}
use d_ai_api_sec.AuditIndexer.Buffer.{
  IsBounded, IsHonest, accounted, run_loop-IsBounded, run_loop-accounted,
}
use d_ai_api_sec.AuditIndexer.Session.{
  kafka_consumer, elasticsearch, Session, run, new_indexer, run_drains, Goes,
}

abbrev today : Date
today = record { year = 2026; month = 3; day = 7 }

abbrev clock : ℕ → Date
clock n = today

today-IsDate : IsDate today
today-IsDate = record {
  year_low = omega arith;
  year_high = omega arith;
  month = omega arith;
  day = omega arith;
}

today_index : index_name today ≡ "api-audit-events-2026.03.07"
unfolding index_name
today_index = refl

-- Every document is indexed.
abbrev async_bulk : ℕ → List Action → Result (ℕ × List Json)
async_bulk n batch = ok (length batch, [])

steady : Steady clock async_bulk
steady n batch e = cc

honest : IsHonest clock async_bulk
honest n batch successes errors e =
    subst (λ (p : ℕ × List Json). p.0 + length p.1 ≡ length batch) (ok-injective e) (omega arith)

-- Two events, a quiet interval and one event more.
abbrev rounds : List (Result Json)
rounds = ok null ∷ ok (text "b") ∷ err timeout_error ∷ ok (text "c") ∷ []

new-IsBounded : IsBounded 2 new_indexer
new-IsBounded = record { waiting = omega arith; requests = tt }

run_loop-sends_example :
    (all_sources (run_loop clock async_bulk (pos 2) rounds new_indexer).1.requests
        ++ (run_loop clock async_bulk (pos 2) rounds new_indexer).1.buffer
      ≡ null ∷ text "b" ∷ text "c" ∷ [])
    × (length (run_loop clock async_bulk (pos 2) rounds new_indexer).1.buffer < 2)
    × (length (run_loop clock async_bulk (pos 2) rounds new_indexer).1.buffer ≤ 1)
run_loop-sends_example = run_loop-sends clock async_bulk 1 rounds new_indexer steady new-IsBounded

run_loop-IsBounded_example : IsBounded 2 (run_loop clock async_bulk (pos 2) rounds new_indexer).1
run_loop-IsBounded_example = run_loop-IsBounded clock async_bulk 1 rounds new_indexer new-IsBounded

run_loop-accounted_example :
    accounted (run_loop clock async_bulk (pos 2) rounds new_indexer).1
    ≡ accounted new_indexer + length (received rounds)
run_loop-accounted_example =
    run_loop-accounted clock async_bulk (pos 2) rounds new_indexer steady honest

abbrev refused : Attempt
refused = record { start = err connection_error; sleep = ok tt }

abbrev welcomed : Attempt
welcomed = record { start = ok tt; sleep = ok tt }

refused-IsRefused : IsRefused refused
refused-IsRefused = record {
  error = connection_error;
  failed = refl;
  caught = λ e. cc;
  slept = refl;
}

abbrev session : Session
session = record {
  attempts = refused ∷ welcomed ∷ [];
  arrivals = rounds ++ err cancelled ∷ [];
  consumer_stopped = ok tt;
  elasticsearch_closed = ok tt;
}

rounds-Goes : All Goes rounds
rounds-Goes =
    (Goes.event null, (Goes.event (text "b"), (Goes.timeout, (Goes.event (text "c"), tt))))

run_drains_example :
    (w : Indexer) × (run clock async_bulk (pos 2) session
      ≡ (some (err cancelled), w, kafka_consumer ∷ elasticsearch ∷ []))
    × ((w.buffer ≡ []) × (all_sources w.requests ≡ received session.arrivals))
run_drains_example =
    run_drains clock async_bulk (pos 2) session (refused ∷ []) [] welcomed rounds [] cancelled refl
      (refused-IsRefused, tt) refl refl rounds-Goes (λ e. cc) refl refl steady
