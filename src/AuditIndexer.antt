-- ===== src/AuditIndexer.antt =====
-- audit-indexer/indexer.py: scored events are buffered and indexed in bulk. The clock and the bulk
-- helper of the Elasticsearch client are parameters, each reading and each call numbered.
pub mod Index
pub mod Buffer
pub mod Delivery
pub mod Sent
pub mod Session
use d_ai_api_sec.Prelude.{
  ℕ, zero, suc, ◌+◌, ◌≡◌, refl, Bool, true, false, String, List, [], ◌∷◌, ◌++◌, length, map,
  if◌then◌else◌,
}
use d_ai_api_sec.Prelude.Int.{ℤ, pos, leb_ℤ}
use d_ai_api_sec.Json.{Json}
use d_ai_api_sec.Errors.{Error, Result, ok, err, cancelled, timeout_error}
use d_ai_api_sec.AuditIndexer.Index.{Date, index_name}
use d_ai_api_sec.Exec.{Exec, pure, raise, modify, ◌>>=◌, ◌>>◌}

-- One document of a bulk request.
pub record Action : Type 0 where
  pub index : String
  pub source : Json

-- What one flush reports.
pub data Log : Type 0 where
  indexed : ℕ → String → Log
  partly : ℕ → ℕ → Log
  dropped : ℕ → Log

-- The buffer, the bulk requests made, the readings taken of the clock and the log, oldest first.
pub record Indexer : Type 0 where
  pub buffer : List Json
  pub requests : List (List Action)
  pub readings : ℕ
  pub log : List Log

-- `buffer.clear()`
abbrev pub clear : Indexer → Indexer
clear w = record w { buffer = [] }

abbrev pub write_log : Log → Indexer → Indexer
write_log l w = record w { log = w.log ++ l ∷ [] }

-- The readings of the clock, and the result of each bulk request:
-- the number of documents indexed and the errors of the others.
module _ (clock : ℕ → Date) (async_bulk : ℕ → List Action → Result (ℕ × List Json)) where
  -- The list comprehension: the clock is read once for each event.
  abbrev pub actions : ℕ → List Json → List Action
  actions n [] = []
  actions n (event ∷ events) =
      record { index = index_name (clock n); source = event } ∷ actions (suc n) events

  -- What follows the request: the `try` with its `except` and `finally`.
  abbrev pub report : Result (ℕ × List Json) → Exec Indexer Unit
  report (ok (successes, [])) w =
      let logged = write_log (indexed successes (index_name (clock w.readings))) w in
      (ok tt, clear (record logged { readings = suc w.readings }))
  report (ok (successes, errors)) w =
      (ok tt, clear (write_log (partly successes (length errors)) w))
  report (err cancelled) w = (err cancelled, clear w)
  report (err e) w = (ok tt, clear (write_log (dropped (length w.buffer)) w))

  abbrev pub request : List Action → Exec Indexer Unit
  request batch w =
      report (async_bulk (length w.requests) batch)
        (record w { requests = w.requests ++ batch ∷ []; readings = w.readings + length batch })

  abbrev pub flush_batch : List Json → Exec Indexer Unit
  flush_batch [] w = (ok tt, w)
  flush_batch (event ∷ events) w = request (actions w.readings (event ∷ events)) w

  unfoldable pub flush : Exec Indexer Unit
  flush w = flush_batch w.buffer w

  module _ (batch_size : ℤ) where
    -- `buffer.append` and the flush of a full buffer.
    abbrev pub flush_if : Bool → Exec Indexer Unit
    flush_if true = flush
    flush_if false = pure tt

    abbrev pub append_event : Json → Exec Indexer Unit
    append_event event w =
        let more = w.buffer ++ event ∷ [] in
        flush_if (leb_ℤ batch_size (pos (length more))) (record w { buffer = more })

    -- One round of the inner loop: how the bounded wait for a message ends.
    unfoldable pub step : Result Json → Exec Indexer Unit
    step (ok event) w = append_event event w
    step (err timeout_error) w = flush w
    step (err e) w = (err e, w)

    -- The rounds of the loop; a run that does not raise goes on behind the given ones.
    unfoldable pub run_loop : List (Result Json) → Exec Indexer Unit
    run_loop [] = pure tt
    run_loop (arrival ∷ arrivals) = do step arrival; run_loop arrivals
