-- ===== src/Retry.antt =====
-- The two shapes that the Kafka clients of threat-engine/app/kafka_consumer.py and
-- audit-indexer/indexer.py share: the loop that retries until the brokers answer, and the closing of
-- the clients in a `finally`. How each awaited call ends enters as an outcome.
use d_ai_api_sec.Prelude.{
  ℕ, suc, ◌+◌, ◌≡◌, refl, ◌≢◌, List, [], ◌∷◌, ◌++◌, length, All, arith, ap, ◌∙◌,
}
use mathlib.Core.Path.{ap₂}
use d_ai_api_sec.Errors.{Error, Result, ok, err, cancelled}

-- One round of the loop: how `start` ends and, behind a failure, how the sleep ends.
pub record Attempt : Type 0 where
  pub start : Result (Unit {0})
  pub sleep : Result (Unit {0})

-- Where the loop stands behind the attempts that are given.
pub data Progress : Type 0 where
  connected waiting : Progress
  raised : Error → Progress

-- One round, before the rounds behind it.
abbrev pub round : Result (Unit {0}) → Result (Unit {0}) → Progress × ℕ → Progress × ℕ
round (ok _) sleep rest = (connected, 0)
round (err cancelled) sleep rest = (raised cancelled, 0)
round (err e) (ok _) (p, n) = (p, suc n)
round (err e) (err q) rest = (raised q, 0)

-- The progress, and the attempts behind which the loop went on.
abbrev pub retry : List Attempt → Progress × ℕ
retry [] = (waiting, 0)
retry (a ∷ attempts) = round a.start a.sleep (retry attempts)

-- The calls of a `finally`: each one only behind the success of those before it.
abbrev pub close_all {ℓ} : {C : Type ℓ} → List (C × Result (Unit {0})) → Result (Unit {0}) × List C
close_all [] = (ok tt, [])
close_all ((c, ok _) ∷ calls) = let (r, done) = close_all calls in (r, c ∷ done)
close_all ((c, err e) ∷ calls) = (err e, c ∷ [])

-- What a `try` with a `finally` ends with: a failure of the `finally` replaces the other one.
abbrev pub finally : Result (Unit {0}) → Result (Unit {0}) → Result (Unit {0})
finally r (ok _) = r
finally r (err e) = err e

-- A round that failed, as anything but a cancellation, and slept.
pub record IsRefused (a : Attempt) : Type 0 where
  pub error : Error
  pub failed : a.start ≡ err error
  pub caught : error ≢ cancelled
  pub slept : a.sleep ≡ ok tt

round-refused :
    (q : Error) (rest : Progress × ℕ)
    → q ≢ cancelled
    → round (err q) (ok tt) rest ≡ (rest.0, suc rest.1)
round-refused cancelled rest h = absurd (h refl)
round-refused q rest h = refl

-- Behind refused rounds the loop stands where it would have stood without them.
pub retry-refusals :
    (refusals rest : List Attempt)
    → All IsRefused refusals
    → retry (refusals ++ rest) ≡ ((retry rest).0, length refusals + (retry rest).1)
retry-refusals [] rest h = ap (λ n. ((retry rest).0, n)) (omega arith)
retry-refusals (a ∷ refusals) rest (h, hs) =
    ap₂ (λ r s. round r s (retry (refusals ++ rest))) h.failed h.slept
    ∙ round-refused h.error (retry (refusals ++ rest)) h.caught
    ∙ ap (λ (p : Progress × ℕ). (p.0, suc p.1)) (retry-refusals refusals rest hs)
    ∙ ap (λ n. ((retry rest).0, n)) (omega arith)

-- The loop connects in the first round whose `start` succeeds.
pub retry-connects :
    (refusals rest : List Attempt) (last : Attempt)
    → All IsRefused refusals
    → last.start ≡ ok tt
    → retry (refusals ++ last ∷ rest) ≡ (connected, length refusals)
retry-connects refusals rest last h e =
    retry-refusals refusals (last ∷ rest) h
    ∙ ap (λ r. let (p, n) = round r last.sleep (retry rest) in (p, length refusals + n)) e
    ∙ ap (λ n. (connected, n)) (omega arith)
