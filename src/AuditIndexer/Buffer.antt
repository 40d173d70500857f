-- ===== src/AuditIndexer/Buffer.antt =====
-- How much audit-indexer/indexer.py buffers and sends at once, and what its log accounts for.
use d_ai_api_sec.Prelude.{
  ℕ, suc, ◌+◌, ◌≤◌, ◌<◌, ◌≡◌, refl, ◌≢◌, Bool, true, false, List, [], ◌∷◌, ◌++◌, length, ap, sym,
  ◌∙◌, All, All-append, arith, length-append,
}
use d_ai_api_sec.Prelude.Int.{ℤ, pos, leb_ℤ}
use d_ai_api_sec.Json.{Json}
use d_ai_api_sec.Errors.{Result, ok, err, cancelled, timeout_error}
use d_ai_api_sec.Exec.{bind-ok, then-keeps}
use d_ai_api_sec.AuditIndexer.Index.{Date}
use d_ai_api_sec.AuditIndexer.{
  Action, Indexer, Log, indexed, partly, dropped, actions, report, flush_batch, flush, flush_if,
  step, run_loop,
}
use d_ai_api_sec.AuditIndexer.Delivery.{report-clears, flush-returns, Steady, received}

-- A request of at least one document and at most k.
abbrev pub IsSized : ℕ → List Action → Type 0
IsSized k batch = (1 ≤ length batch) × (length batch ≤ k)

-- Between two rounds fewer than k events wait.
pub record IsBounded (k : ℕ) (w : Indexer) : Type 0 where
  pub waiting : length w.buffer < k
  pub requests : All (IsSized k) w.requests

-- The events that the log tells of, indexed or not.
abbrev pub told : List Log → ℕ
told [] = 0
told (indexed n index ∷ log) = n + told log
told (partly n failed ∷ log) = (n + failed) + told log
told (dropped n ∷ log) = n + told log

-- Those and the ones that wait.
abbrev pub accounted : Indexer → ℕ
accounted w = told w.log + length w.buffer

told-append : (log : List Log) (l : Log) → told (log ++ l ∷ []) ≡ told log + told (l ∷ [])
told-append [] l = omega arith
told-append (indexed n i ∷ log) l = omega (arith, told-append log l)
told-append (partly n i ∷ log) l = omega (arith, told-append log l)
told-append (dropped n ∷ log) l = omega (arith, told-append log l)

module _ (clock : ℕ → Date) (async_bulk : ℕ → List Action → Result (ℕ × List Json)) where
  length-actions :
      (n : ℕ) (events : List Json) → length (actions clock async_bulk n events) ≡ length events
  length-actions n [] = refl
  length-actions n (e ∷ events) = ap suc (length-actions (suc n) events)

  report-IsBounded :
      (k : ℕ) (r : Result (ℕ × List Json)) (w : Indexer)
      → 1 ≤ k
      → All (IsSized k) w.requests
      → IsBounded k (report clock async_bulk r w).1
  report-IsBounded k r w ge h =
      let (empty, same) = report-clears clock async_bulk r w in
      record { waiting = rw empty (omega arith); requests = rw same h }

  flush_batch-IsBounded :
      (k : ℕ) (l : List Json) (w : Indexer)
      → w.buffer ≡ l
      → length l ≤ k
      → 1 ≤ k
      → All (IsSized k) w.requests
      → IsBounded k (flush_batch clock async_bulk l w).1
  flush_batch-IsBounded k [] w e le ge h = record { waiting = rw e (omega arith); requests = h }
  flush_batch-IsBounded k (x ∷ l) w e le ge h =
      let batch = actions clock async_bulk w.readings (x ∷ l) in
      report-IsBounded k (async_bulk (length w.requests) batch) _ ge (
        All-append (IsSized k) w.requests (batch ∷ []) h
          ((omega arith, omega (arith, length-actions (suc w.readings) l)), tt))

  flush-IsBounded :
      (k : ℕ) (w : Indexer)
      → length w.buffer ≤ k
      → 1 ≤ k
      → All (IsSized k) w.requests
      → IsBounded k (flush clock async_bulk w).1
  unfolding flush
  flush-IsBounded k w = flush_batch-IsBounded k w.buffer w refl

  module _ (k : ℕ) where
    flush_if-IsBounded :
        (b : Bool) (w : Indexer)
        → b ≡ leb_ℤ (pos (suc k)) (pos (length w.buffer))
        → length w.buffer ≤ suc k
        → All (IsSized (suc k)) w.requests
        → IsBounded (suc k) (flush_if clock async_bulk (pos (suc k)) b w).1
    flush_if-IsBounded true w e le h = flush-IsBounded (suc k) w le (omega arith) h
    flush_if-IsBounded false w e le h = record { waiting = ground arith; requests = h }

    pub step-IsBounded :
        (arrival : Result Json) (w : Indexer)
        → IsBounded (suc k) w
        → IsBounded (suc k) (step clock async_bulk (pos (suc k)) arrival w).1
    unfolding step
    step-IsBounded (ok event) w h =
        flush_if-IsBounded _ (record w { buffer = w.buffer ++ event ∷ [] }) refl
          (omega (arith, length-append w.buffer (event ∷ []), h.waiting)) h.requests
    step-IsBounded (err timeout_error) w h =
        flush-IsBounded (suc k) w (omega (arith, h.waiting)) (omega arith) h.requests
    step-IsBounded (err e) w h = h

    -- With a positive batch size, whatever arrives and whatever the requests end with, between two
    -- rounds fewer events than the batch size wait, and every request holds at least one event and at
    -- most as many as the batch size, if this was so at the start of the run.
    pub run_loop-IsBounded :
        (arrivals : List (Result Json)) (w : Indexer)
        → IsBounded (suc k) w
        → IsBounded (suc k) (run_loop clock async_bulk (pos (suc k)) arrivals w).1
    unfolding run_loop
    run_loop-IsBounded [] w h = h
    run_loop-IsBounded (arrival ∷ arrivals) w h =
        then-keeps (IsBounded (suc k)) (step clock async_bulk (pos (suc k)) arrival)
          (run_loop clock async_bulk (pos (suc k)) arrivals) w (step-IsBounded arrival w h)
          (run_loop-IsBounded arrivals)

  -- The request number and the batch fix the answer: the number of documents indexed and the errors
  -- make up the batch.
  abbrev pub IsHonest : Type 0
  IsHonest =
      (n : ℕ) (batch : List Action) (successes : ℕ) (errors : List Json)
      → async_bulk n batch ≡ ok (successes, errors)
      → successes + length errors ≡ length batch

  report-accounted :
      (r : Result (ℕ × List Json)) (w : Indexer)
      → r ≢ err cancelled
      → ((n : ℕ) (errors : List Json) → r ≡ ok (n, errors) → n + length errors ≡ length w.buffer)
      → accounted (report clock async_bulk r w).1 ≡ accounted w
  report-accounted (ok (n, [])) w steady h =
      omega (arith, told-append w.log (indexed n _), h n [] refl)
  report-accounted (ok (n, e ∷ es)) w steady h =
      omega (arith, told-append w.log (partly n (suc (length es))), h n (e ∷ es) refl)
  report-accounted (err cancelled) w steady h = absurd (steady refl)
  report-accounted (err e) w steady h = omega (arith, told-append w.log (dropped (length w.buffer)))

  flush_batch-accounted :
      (l : List Json) (w : Indexer)
      → w.buffer ≡ l
      → Steady clock async_bulk
      → IsHonest
      → accounted (flush_batch clock async_bulk l w).1 ≡ accounted w
  flush_batch-accounted [] w e steady honest = refl
  flush_batch-accounted (x ∷ l) w e steady honest =
      report-accounted _ _ (steady _ _) (λ n errors q.
        honest _ _ n errors q ∙ length-actions w.readings (x ∷ l) ∙ ap length (sym e))

  flush-accounted :
      (w : Indexer)
      → Steady clock async_bulk
      → IsHonest
      → accounted (flush clock async_bulk w).1 ≡ accounted w
  unfolding flush
  flush-accounted w = flush_batch-accounted w.buffer w refl

  module _ (batch_size : ℤ) where
    flush_if-accounted :
        (b : Bool) (w : Indexer)
        → Steady clock async_bulk
        → IsHonest
        → (w' : Indexer) × (flush_if clock async_bulk batch_size b w ≡ (ok tt, w'))
          × (accounted w' ≡ accounted w)
    flush_if-accounted true w h honest =
        (_, flush-returns clock async_bulk w h, flush-accounted w h honest)
    flush_if-accounted false w h honest = (w, refl, refl)

    -- If the bulk helper reports every document of a request as indexed or as failed, then, whatever
    -- the requests end with, a cancellation aside, every event that a run receives still waits or is told of in the log, as
    -- indexed, as failed or as dropped: none is lost without a word.
    pub run_loop-accounted :
        (arrivals : List (Result Json)) (w : Indexer)
        → Steady clock async_bulk
        → IsHonest
        → accounted (run_loop clock async_bulk batch_size arrivals w).1
          ≡ accounted w + length (received arrivals)
    unfolding run_loop step
    run_loop-accounted [] w h honest = omega arith
    run_loop-accounted (ok event ∷ arrivals) w h honest =
        let (v, e, same) =
          flush_if-accounted (leb_ℤ batch_size (pos (length (w.buffer ++ event ∷ []))))
            (record w { buffer = w.buffer ++ event ∷ [] }) h honest in
        ap (λ p. accounted p.1)
          (bind-ok (step clock async_bulk batch_size (ok event))
            (λ _. run_loop clock async_bulk batch_size arrivals) w e)
        ∙ run_loop-accounted arrivals v h honest
        ∙ omega (arith, same, length-append w.buffer (event ∷ []))
    run_loop-accounted (err timeout_error ∷ arrivals) w h honest =
        ap (λ p. accounted p.1)
          (bind-ok (step clock async_bulk batch_size (err timeout_error))
            (λ _. run_loop clock async_bulk batch_size arrivals) w
            (flush-returns clock async_bulk w h))
        ∙ run_loop-accounted arrivals _ h honest
        ∙ ap (λ n. n + length (received arrivals)) (flush-accounted w h honest)
    run_loop-accounted (err e ∷ arrivals) w h honest = omega arith
