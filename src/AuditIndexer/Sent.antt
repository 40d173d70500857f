-- ===== src/AuditIndexer/Sent.antt =====
-- What the loop of audit-indexer/indexer.py has sent to Elasticsearch, and how little it keeps back.
use d_ai_api_sec.Prelude.{
  ℕ, suc, ◌≤◌, ◌<◌, ◌≡◌, refl, Bool, true, false, List, [], ◌∷◌, ◌++◌, length, arith, ap,
  length-append,
}
use d_ai_api_sec.Prelude.Int.{ℤ, pos, leb_ℤ}
use d_ai_api_sec.Json.{Json}
use d_ai_api_sec.Errors.{Result, ok, err, timeout_error}
use d_ai_api_sec.Exec.{bind-ok}
use d_ai_api_sec.AuditIndexer.Index.{Date}
use d_ai_api_sec.AuditIndexer.{Action, Indexer, flush, flush_if, step, run_loop}
use d_ai_api_sec.AuditIndexer.Buffer.{IsBounded, run_loop-IsBounded}
use d_ai_api_sec.AuditIndexer.Delivery.{
  all_sources, handed, received, Steady, flush_hands, flush-returns, run_loop-handed,
}

-- The number of events received since the last timeout, on top of n that wait.
abbrev pub since_timeout : ℕ → List (Result Json) → ℕ
since_timeout n [] = n
since_timeout n (ok event ∷ arrivals) = since_timeout (suc n) arrivals
since_timeout n (err timeout_error ∷ arrivals) = since_timeout 0 arrivals
since_timeout n (err e ∷ arrivals) = n

since_timeout_mono :
    (arrivals : List (Result Json)) (m n : ℕ)
    → m ≤ n
    → since_timeout m arrivals ≤ since_timeout n arrivals
since_timeout_mono [] m n h = h
since_timeout_mono (ok event ∷ arrivals) m n h =
    since_timeout_mono arrivals (suc m) (suc n) (omega (arith, h))
since_timeout_mono (err timeout_error ∷ arrivals) m n h = omega arith
since_timeout_mono (err e ∷ arrivals) m n h = h

module _ (clock : ℕ → Date) (async_bulk : ℕ → List Action → Result (ℕ × List Json))
    (batch_size : ℤ) where
  flush_if-waiting :
      (b : Bool) (w : Indexer)
      → length (flush_if clock async_bulk batch_size b w).1.buffer ≤ length w.buffer
  flush_if-waiting true w =
      omega (arith, ap (λ (l : List Json). length l) (flush_hands clock async_bulk w).0)
  flush_if-waiting false w = omega arith

  flush_if-keeps :
      (b : Bool) (w : Indexer)
      → Steady clock async_bulk
      → (w' : Indexer) × (flush_if clock async_bulk batch_size b w ≡ (ok tt, w'))
        × (length w'.buffer ≤ length w.buffer)
  flush_if-keeps true w h = (_, flush-returns clock async_bulk w h, flush_if-waiting true w)
  flush_if-keeps false w h = (w, refl, omega arith)

  -- A timeout leaves nothing waiting.
  pub timeout-empties :
      (w : Indexer) → (step clock async_bulk batch_size (err timeout_error) w).1.buffer ≡ []
  unfolding step
  timeout-empties w = (flush_hands clock async_bulk w).0

  pub step-waiting :
      (event : Json) (w : Indexer)
      → length (step clock async_bulk batch_size (ok event) w).1.buffer ≤ suc (length w.buffer)
  unfolding step
  step-waiting event w = omega (
    arith,
    length-append w.buffer (event ∷ []),
    flush_if-waiting (leb_ℤ batch_size (pos (length (w.buffer ++ event ∷ []))))
        (record w { buffer = w.buffer ++ event ∷ [] }),
  )

  run_loop-waiting :
      (arrivals : List (Result Json)) (w : Indexer)
      → Steady clock async_bulk
      → length (run_loop clock async_bulk batch_size arrivals w).1.buffer
        ≤ since_timeout (length w.buffer) arrivals
  unfolding run_loop step
  run_loop-waiting [] w h = omega arith
  run_loop-waiting (ok event ∷ arrivals) w h =
      let (v, e, le) =
        flush_if-keeps (leb_ℤ batch_size (pos (length (w.buffer ++ event ∷ []))))
          (record w { buffer = w.buffer ++ event ∷ [] }) h in
      let run =
        ap (λ p. length p.1.buffer)
          (bind-ok (step clock async_bulk batch_size (ok event))
            (λ _. run_loop clock async_bulk batch_size arrivals) w e) in
      omega (
        arith,
        run,
        run_loop-waiting arrivals v h,
        since_timeout_mono arrivals (length v.buffer) (suc (length w.buffer))
            (omega (arith, le, length-append w.buffer (event ∷ []))),
      )
  run_loop-waiting (err timeout_error ∷ arrivals) w h =
      let v = (flush clock async_bulk w).1 in
      let run =
        ap (λ p. length p.1.buffer)
          (bind-ok (step clock async_bulk batch_size (err timeout_error))
            (λ _. run_loop clock async_bulk batch_size arrivals) w
            (flush-returns clock async_bulk w h)) in
      let none_waits : length v.buffer ≡ 0 =
        ap (λ (l : List Json). length l) (flush_hands clock async_bulk w).0 in
      omega (
        arith,
        run,
        run_loop-waiting arrivals v h,
        since_timeout_mono arrivals (length v.buffer) 0 (omega (arith, none_waits)),
      )
  run_loop-waiting (err e ∷ arrivals) w h = omega arith

-- With a positive batch size, whatever the requests end with, a cancellation aside: the documents of
-- the bulk requests, followed by those that wait, grow by the events received, each exactly once and
-- in order; fewer than the batch size wait; and none waits that was received before the last timeout,
-- so that all of these have been sent.
pub run_loop-sends :
    (clock : ℕ → Date) (async_bulk : ℕ → List Action → Result (ℕ × List Json)) (k : ℕ)
    (arrivals : List (Result Json)) (w : Indexer)
    → Steady clock async_bulk
    → IsBounded (suc k) w
    → (all_sources (run_loop clock async_bulk (pos (suc k)) arrivals w).1.requests
          ++ (run_loop clock async_bulk (pos (suc k)) arrivals w).1.buffer
        ≡ handed w ++ received arrivals)
      × (length (run_loop clock async_bulk (pos (suc k)) arrivals w).1.buffer < suc k)
      × (length (run_loop clock async_bulk (pos (suc k)) arrivals w).1.buffer
          ≤ since_timeout (length w.buffer) arrivals)
run_loop-sends clock async_bulk k arrivals w steady bounded = (
  run_loop-handed clock async_bulk (pos (suc k)) arrivals w steady,
  (run_loop-IsBounded clock async_bulk k arrivals w bounded).waiting,
  run_loop-waiting clock async_bulk (pos (suc k)) arrivals w steady,
)
