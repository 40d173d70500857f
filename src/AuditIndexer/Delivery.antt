-- ===== src/AuditIndexer/Delivery.antt =====
-- The events that the loop of audit-indexer/indexer.py has received: those of its requests to
-- Elasticsearch and, behind them, those that wait.
use mathlib.Core.Path.{ap₂}
use mathlib.Core.List.{append-nil, append_assoc}
use d_ai_api_sec.Prelude.{
  ℕ, suc, ◌≡◌, refl, ◌≢◌, Bool, true, false, List, [], ◌∷◌, ◌++◌, length, ap, sym, ◌∙◌,
}
use d_ai_api_sec.Prelude.Int.{ℤ, pos, leb_ℤ}
use d_ai_api_sec.Json.{Json}
use d_ai_api_sec.Errors.{Result, ok, err, cancelled, timeout_error}
use d_ai_api_sec.Exec.{bind-ok}
use d_ai_api_sec.AuditIndexer.Index.{Date}
use d_ai_api_sec.AuditIndexer.{
  Action, Indexer, actions, report, flush_batch, flush, flush_if, step, run_loop,
}

abbrev pub sources : List Action → List Json
sources [] = []
sources (a ∷ batch) = a.source ∷ sources batch

abbrev pub all_sources : List (List Action) → List Json
all_sources [] = []
all_sources (batch ∷ batches) = sources batch ++ all_sources batches

-- The events of the requests so far and, behind them, those that wait.
abbrev pub handed : Indexer → List Json
handed w = all_sources w.requests ++ w.buffer

-- The events that a run receives: up to the first failure that is no timeout.
abbrev pub received : List (Result Json) → List Json
received [] = []
received (ok event ∷ arrivals) = event ∷ received arrivals
received (err timeout_error ∷ arrivals) = received arrivals
received (err e ∷ arrivals) = []

all_sources-append :
    (bs : List (List Action)) (b : List Action)
    → all_sources (bs ++ b ∷ []) ≡ all_sources bs ++ sources b
all_sources-append [] b = append-nil (sources b)
all_sources-append (c ∷ bs) b =
    ap (λ l. sources c ++ l) (all_sources-append bs b)
    ∙ sym (append_assoc (sources c) (all_sources bs) (sources b))

module _ (clock : ℕ → Date) (async_bulk : ℕ → List Action → Result (ℕ × List Json)) where
  pub sources-actions :
      (n : ℕ) (events : List Json) → sources (actions clock async_bulk n events) ≡ events
  sources-actions n [] = refl
  sources-actions n (e ∷ events) = ap (λ l. e ∷ l) (sources-actions (suc n) events)

  -- Whatever the request ends with, the buffer is cleared and no request is made twice.
  pub report-clears :
      (r : Result (ℕ × List Json)) (w : Indexer)
      → ((report clock async_bulk r w).1.buffer ≡ [])
        × ((report clock async_bulk r w).1.requests ≡ w.requests)
  report-clears (ok (n, [])) w = (refl, refl)
  report-clears (ok (n, e ∷ es)) w = (refl, refl)
  report-clears (err cancelled) w = (refl, refl)
  report-clears (err e) w = (refl, refl)

  flush_batch-hands :
      (l : List Json) (w : Indexer)
      → w.buffer ≡ l
      → ((flush_batch clock async_bulk l w).1.buffer ≡ [])
        × (all_sources (flush_batch clock async_bulk l w).1.requests ≡ all_sources w.requests ++ l)
  flush_batch-hands [] w h = (h, sym (append-nil (all_sources w.requests)))
  flush_batch-hands (e ∷ events) w h =
      let batch = actions clock async_bulk w.readings (e ∷ events) in
      let (empty, same) = report-clears (async_bulk (length w.requests) batch) _ in
      (
        empty,
        ap all_sources same
            ∙ all_sources-append w.requests batch
            ∙ ap (λ l. all_sources w.requests ++ l) (sources-actions w.readings (e ∷ events)),
      )

  -- A flush hands over what waits, once and whole, and leaves nothing waiting.
  pub flush_hands :
      (w : Indexer)
      → ((flush clock async_bulk w).1.buffer ≡ [])
        × (all_sources (flush clock async_bulk w).1.requests ≡ handed w)
  unfolding flush
  flush_hands w = flush_batch-hands w.buffer w refl

  flush-handed : (w : Indexer) → handed (flush clock async_bulk w).1 ≡ handed w
  flush-handed w =
      let (empty, same) = flush_hands w in ap₂ (λ l k. l ++ k) same empty ∙ append-nil (handed w)

  -- No request ends with the cancellation of the loop.
  abbrev pub Steady : Type 0
  Steady = (n : ℕ) (batch : List Action) → async_bulk n batch ≢ err cancelled

  report-returns :
      (r : Result (ℕ × List Json)) (w : Indexer)
      → r ≢ err cancelled
      → (report clock async_bulk r w).0 ≡ ok tt
  report-returns (ok (n, [])) w h = refl
  report-returns (ok (n, e ∷ es)) w h = refl
  report-returns (err cancelled) w h = absurd (h refl)
  report-returns (err e) w h = refl

  flush_batch-returns :
      (l : List Json) (w : Indexer) → Steady → (flush_batch clock async_bulk l w).0 ≡ ok tt
  flush_batch-returns [] w h = refl
  flush_batch-returns (e ∷ events) w h = report-returns _ _ (h _ _)

  -- A flush swallows every failure of its request but a cancellation.
  pub flush-returns :
      (w : Indexer) → Steady → flush clock async_bulk w ≡ (ok tt, (flush clock async_bulk w).1)
  unfolding flush
  flush-returns w h =
      ap (λ r. (r, (flush_batch clock async_bulk w.buffer w).1)) (flush_batch-returns w.buffer w h)

  module _ (batch_size : ℤ) where
    pub flush_if-returns :
        (b : Bool) (w : Indexer)
        → Steady
        → (w' : Indexer) × (flush_if clock async_bulk batch_size b w ≡ (ok tt, w'))
          × (handed w' ≡ handed w)
    flush_if-returns true w h = (_, flush-returns w h, flush-handed w)
    flush_if-returns false w h = (w, refl, refl)

    flush_if-handed :
        (b : Bool) (w : Indexer) → handed (flush_if clock async_bulk batch_size b w).1 ≡ handed w
    flush_if-handed true w = flush-handed w
    flush_if-handed false w = refl

    -- A round adds the event that it receives, and a timeout adds nothing.
    pub step-handed :
        (event : Json) (w : Indexer)
        → handed (step clock async_bulk batch_size (ok event) w).1 ≡ handed w ++ event ∷ []
    unfolding step
    step-handed event w =
        flush_if-handed (leb_ℤ batch_size (pos (length (w.buffer ++ event ∷ []))))
          (record w { buffer = w.buffer ++ event ∷ [] })
        ∙ sym (append_assoc (all_sources w.requests) w.buffer (event ∷ []))

    pub timeout-handed :
        (w : Indexer) → handed (step clock async_bulk batch_size (err timeout_error) w).1 ≡ handed w
    unfolding step
    timeout-handed w = flush-handed w

    -- Whatever the requests end with, a cancellation aside: the documents of the requests, followed by
    -- the events that still wait, grow by the events received, each exactly once and in order.
    pub run_loop-handed :
        (arrivals : List (Result Json)) (w : Indexer)
        → Steady
        → handed (run_loop clock async_bulk batch_size arrivals w).1 ≡ handed w ++ received arrivals
    unfolding run_loop step
    run_loop-handed [] w h = sym (append-nil (handed w))
    run_loop-handed (ok event ∷ arrivals) w h =
        let (v, e, same) =
          flush_if-returns (leb_ℤ batch_size (pos (length (w.buffer ++ event ∷ []))))
            (record w { buffer = w.buffer ++ event ∷ [] }) h in
        ap (λ p. handed p.1)
          (bind-ok (step clock async_bulk batch_size (ok event))
            (λ _. run_loop clock async_bulk batch_size arrivals) w e)
        ∙ run_loop-handed arrivals v h
        ∙ ap (λ l. l ++ received arrivals)
            (same ∙ sym (append_assoc (all_sources w.requests) w.buffer (event ∷ [])))
        ∙ append_assoc (handed w) (event ∷ []) (received arrivals)
    run_loop-handed (err timeout_error ∷ arrivals) w h =
        ap (λ p. handed p.1)
          (bind-ok (step clock async_bulk batch_size (err timeout_error))
            (λ _. run_loop clock async_bulk batch_size arrivals) w (flush-returns w h))
        ∙ run_loop-handed arrivals _ h
        ∙ ap (λ l. l ++ received arrivals) (flush-handed w)
    run_loop-handed (err e ∷ arrivals) w h = sym (append-nil (handed w))
