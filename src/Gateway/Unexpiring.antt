-- ===== src/Gateway/Unexpiring.antt =====
-- A window counter of gateway/src/main/java/com/aisecfirewall/gateway/service/RedisStateService.java that has
-- no time of expiry, as where the EXPIRE behind its first INCR has failed.
use mathlib.Core.Path.{subst}
use d_ai_api_sec.Prelude.{
  ℕ, suc, ◌+◌, ◌≤◌, ◌==◌, ◌≡◌, refl, true, false, String, none, some, List, [], ◌∷◌, ap, ◌∙◌,
  length, arith,
}
use d_ai_api_sec.Errors.{ok}
use d_ai_api_sec.Exec.{Exec, pure, ◌>>◌, bind-ok}
use d_ai_api_sec.Gateway.Redis.{
  RedisClient, IsRedis, Entry, count, if_live, count_key, expire_if_new, increment_window_counter,
}

abbrev pub unexpiring : ℕ → Entry
unexpiring n = record { value = count n; expires = none }

module _ {S : Type 0} (redis : RedisClient S) (laws : IsRedis redis) (ip path : String)
    (window : ℕ) where
  -- Redis answers, and the counter stands at n without a time of expiry.
  abbrev pub IsStuck : ℕ → S → Type 0
  IsStuck n s = (laws.up s ≡ true) × (laws.entry (count_key ip path) s ≡ some (unexpiring n))

  -- The requests at the given times.
  abbrev pub count_all : List ℕ → Exec S Unit
  count_all [] = pure tt
  count_all (now ∷ times) = increment_window_counter redis now ip path window >> count_all times

  counted :
      (now n : ℕ) (s : S)
      → 1 ≤ n
      → IsStuck n s
      → (s' : S) × (increment_window_counter redis now ip path window s ≡ (ok (suc n), s'))
        × IsStuck (suc n) s'
  unfolding increment_window_counter
  counted now n s some_yet (up, held) =
      let key = count_key ip path in
      let later : (suc n == 1) ≡ false = ground arith in
      let (t, run, w) = laws.increment-counts now key s n none up (ap (if_live now) held) in
      (
        t,
        bind-ok (redis.increment now key) (expire_if_new redis now key window) s run
            ∙ rw later refl,
        (w.0, w.1),
      )

  all_counted :
      (times : List ℕ) (n : ℕ) (s : S)
      → 1 ≤ n
      → IsStuck n s
      → (s' : S) × (count_all times s ≡ (ok tt, s')) × IsStuck (n + length times) s'
  all_counted [] n s some_yet h = (s, refl, subst (λ k. IsStuck k s) (omega arith) h)
  all_counted (now ∷ times) n s some_yet h =
      let (t, run, stuck) = counted now n s some_yet h in
      let (u, rest, last) = all_counted times (suc n) t (omega arith) stuck in
      (
        u,
        bind-ok (increment_window_counter redis now ip path window) (λ _. count_all times) s run
            ∙ rest,
        subst (λ k. IsStuck k u) (omega arith) last,
      )

  -- While Redis answers, a counter that has counted and has no time of expiry never starts again: behind
  -- any requests of its client to its path, however far apart they are, the next one is counted on top of all
  -- of them.
  pub unexpiring_counts :
      (times : List ℕ) (now n : ℕ) (s : S)
      → 1 ≤ n
      → IsStuck n s
      → (t : S) × (u : S) × (count_all times s ≡ (ok tt, t))
        × (increment_window_counter redis now ip path window t ≡ (ok (suc (n + length times)), u))
  unexpiring_counts times now n s some_yet h =
      let (t, run, stuck) = all_counted times n s some_yet h in
      let (u, last, _) = counted now (n + length times) t (omega arith) stuck in (t, u, run, last)
