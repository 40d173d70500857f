-- ===== src/AuditIndexer/Session.antt =====
-- `run` of audit-indexer/indexer.py: the connecting, the loop and the closing.
use d_ai_api_sec.Prelude.{
  ℕ, ◌≡◌, refl, ◌≢◌, Option, none, some, List, [], ◌∷◌, ◌++◌, ap, ◌∙◌, All, sym, length,
}
use d_ai_api_sec.Prelude.Int.{ℤ, pos, leb_ℤ}
use d_ai_api_sec.Json.{Json}
use d_ai_api_sec.Errors.{Error, Result, ok, err, timeout_error}
use d_ai_api_sec.Exec.{bind-ok, bind-err}
use d_ai_api_sec.Retry.{
  Attempt, Progress, connected, waiting, raised, retry, close_all, finally, IsRefused,
  retry-connects,
}
use d_ai_api_sec.AuditIndexer.Index.{Date}
use d_ai_api_sec.AuditIndexer.{Action, Indexer, flush, step, run_loop}
use d_ai_api_sec.AuditIndexer.Delivery.{
  all_sources, handed, received, Steady, flush_hands, flush-returns, flush_if-returns,
  run_loop-handed,
}

pub data Client : Type 0 where
  kafka_consumer elasticsearch : Client

-- How the awaited calls of a session end, those of the bulk requests aside.
pub record Session : Type 0 where
  pub attempts : List Attempt
  pub arrivals : List (Result Json)
  pub consumer_stopped : Result (Unit {0})
  pub elasticsearch_closed : Result (Unit {0})

-- The result, if there is one yet, the state and the clients called to close.
abbrev pub Ending : Type 0
Ending = Option (Result (Unit {0})) × Indexer × List Client

abbrev pub new_indexer : Indexer
new_indexer = record { buffer = []; requests = []; readings = 0; log = [] }

-- A round that does not end the loop.
pub data Goes : Result Json → Type 0 where
  event : (j : Json) → Goes (ok j)
  timeout : Goes (err timeout_error)

module _ (clock : ℕ → Date) (async_bulk : ℕ → List Action → Result (ℕ × List Json))
    (batch_size : ℤ) where
  -- The closing behind the last flush, which raised e on its way out.
  abbrev pub close_clients : Error → Session → Result (Unit {0}) × Indexer → Ending
  close_clients e s (ok _, w) =
      let (c, closed) =
        close_all
          ((kafka_consumer, s.consumer_stopped) ∷ (elasticsearch, s.elasticsearch_closed) ∷ []) in
      (some (finally (err e) c), w, closed)
  close_clients e s (err q, w) = (some (err q), w, [])

  -- The outer `finally`, once the loop has raised; without that the loop still runs.
  abbrev pub leave : Session → Result (Unit {0}) × Indexer → Ending
  leave s (ok _, w) = (none, w, [])
  leave s (err e, w) = close_clients e s (flush clock async_bulk w)

  abbrev pub collect : Progress → Session → Ending
  collect waiting s = (none, new_indexer, [])
  collect (raised e) s = (some (err e), new_indexer, [])
  collect connected s = leave s (run_loop clock async_bulk batch_size s.arrivals new_indexer)

  unfoldable pub run : Session → Ending
  run s = collect (retry s.attempts).0 s

  step-raises :
      (e : Error) (w : Indexer)
      → e ≢ timeout_error
      → step clock async_bulk batch_size (err e) w ≡ (err e, w)
  unfolding step
  step-raises timeout_error w ne = absurd (ne refl)
  step-raises e w ne = refl

  run_loop-raises :
      (rounds rest : List (Result Json)) (e : Error) (w : Indexer)
      → Steady clock async_bulk
      → All Goes rounds
      → e ≢ timeout_error
      → (w' : Indexer) × (run_loop clock async_bulk batch_size (rounds ++ err e ∷ rest) w
          ≡ (err e, w'))
  unfolding run_loop step
  run_loop-raises [] rest e w steady h ne = (
    w,
    bind-err (step clock async_bulk batch_size (err e))
        (λ _. run_loop clock async_bulk batch_size rest) w (step-raises e w ne),
  )
  run_loop-raises (_ ∷ rounds) rest e w steady (event x, hs) ne =
      let (v, k, same) =
        flush_if-returns clock async_bulk batch_size
          (leb_ℤ batch_size (pos (length (w.buffer ++ x ∷ []))))
          (record w { buffer = w.buffer ++ x ∷ [] }) steady in
      let (w', q) = run_loop-raises rounds rest e v steady hs ne in
      (
        w',
        bind-ok (step clock async_bulk batch_size (ok x))
              (λ _. run_loop clock async_bulk batch_size (rounds ++ err e ∷ rest)) w k
            ∙ q,
      )
  run_loop-raises (_ ∷ rounds) rest e w steady (timeout, hs) ne =
      let (w', q) = run_loop-raises rounds rest e (flush clock async_bulk w).1 steady hs ne in
      (
        w',
        bind-ok (step clock async_bulk batch_size (err timeout_error))
              (λ _. run_loop clock async_bulk batch_size (rounds ++ err e ∷ rest)) w
              (flush-returns clock async_bulk w steady)
            ∙ q,
      )

  -- A session whose loop is ended by a failure e, for example its cancellation, has handed over every
  -- event that it received, exactly once and in the order of arrival, with nothing left waiting; it
  -- ends with e and closes its two clients, if they can be closed. This holds behind any number of
  -- refused connections and whatever the bulk requests end with, a cancellation aside.
  pub run_drains :
      (s : Session) (refusals more : List Attempt) (last : Attempt)
      (rounds rest : List (Result Json)) (e : Error)
      → s.attempts ≡ refusals ++ last ∷ more
      → All IsRefused refusals
      → last.start ≡ ok tt
      → s.arrivals ≡ rounds ++ err e ∷ rest
      → All Goes rounds
      → e ≢ timeout_error
      → s.consumer_stopped ≡ ok tt
      → s.elasticsearch_closed ≡ ok tt
      → Steady clock async_bulk
      → (w : Indexer) × (run s ≡ (some (err e), w, kafka_consumer ∷ elasticsearch ∷ []))
        × ((w.buffer ≡ []) × (all_sources w.requests ≡ received s.arrivals))
  unfolding run
  run_drains s refusals more last rounds rest e a h ok_start arrive goes ne c d steady =
      let (w, k) = run_loop-raises rounds rest e new_indexer steady goes ne in
      let k' = ap (λ l. run_loop clock async_bulk batch_size l new_indexer) arrive ∙ k in
      let (empty, same) = flush_hands clock async_bulk w in
      (
        (flush clock async_bulk w).1,
        ap (λ p. collect p s)
              (ap (λ l. (retry l).0) a
                ∙ ap (λ q. q.0) (retry-connects refusals more last h ok_start))
            ∙ ap (leave s) k'
            ∙ ap (close_clients e s) (flush-returns clock async_bulk w steady)
            ∙ rw (c, d) refl,
        (
          empty,
          same
              ∙ ap (λ (q : Result (Unit {0}) × Indexer). handed q.1) (sym k')
              ∙ run_loop-handed clock async_bulk batch_size s.arrivals new_indexer steady,
        ),
      )
