-- ===== src/Gateway/Burst.antt =====
-- What a burst of requests counts to, by RedisStateService.incrementWindowCounter of
-- gateway/src/main/java/com/aisecfirewall/gateway/service.
use d_ai_api_sec.Prelude.{
  ℕ, suc, ◌+◌, ◌*◌, ◌<◌, ◌≤◌, ◌≡◌, refl, true, String, none, some, List, [], ◌∷◌, ap, ◌∙◌, All,
  length, arith,
}
use d_ai_api_sec.Errors.{Result, ok}
use d_ai_api_sec.Exec.{Exec, pure, ◌>>=◌, ◌>>◌, bind-ok}
use d_ai_api_sec.Gateway.Redis.{
  RedisClient, IsRedis, if_live, count_key, streak_key, increment_window_counter,
  increment_failed_auth_streak,
}
use d_ai_api_sec.Gateway.Shared.{
  counted_until, Writes, streak-ne-count, count-ne-streak, window-first, window-again, streak-first,
  streak-again,
}
use d_ai_api_sec.Gateway.{measure}

module _ {S : Type 0} (redis : RedisClient S) (laws : IsRedis redis)
    (ip path identity : String) where
  -- The state behind some requests of one burst: the shared counter, until its time, and the streak.
  pub record Holds (n k time since : ℕ) (s : S) : Type 0 where
    pub up : laws.up s ≡ true
    pub counted : laws.entry (count_key ip path) s ≡ some (counted_until n time)
    pub streak : laws.entry (streak_key identity) s ≡ some (counted_until k since)

  measure-steps :
      (now a b c : ℕ) (r r1 r2 r3 : S)
      → increment_window_counter redis now ip path 10000 r ≡ (ok a, r1)
      → increment_window_counter redis now ip path 60000 r1 ≡ (ok b, r2)
      → increment_failed_auth_streak redis now identity r2 ≡ (ok c, r3)
      → measure redis now ip path identity r ≡ (ok (a, (b, c)), r3)
  unfolding measure
  measure-steps now a b c r r1 r2 r3 e f g =
      let third : ℕ → ℕ → Exec S (ℕ × (ℕ × ℕ)) =
        λ x y. increment_failed_auth_streak redis now identity >>= λ z. pure (x, (y, z)) in
      bind-ok (increment_window_counter redis now ip path 10000)
        (λ x. increment_window_counter redis now ip path 60000 >>= third x) r e
      ∙ bind-ok (increment_window_counter redis now ip path 60000) (third a) r1 f
      ∙ bind-ok (increment_failed_auth_streak redis now identity) (λ z. pure (a, (b, z))) r2 g

  -- The counter's writes leave the streak, and the other way round.
  both_hold :
      (n k m time since : ℕ) (r r1 r2 r3 : S)
      → Writes redis laws (count_key ip path) (counted_until m time) r r1
      → Writes redis laws (count_key ip path) (counted_until n time) r1 r2
      → Writes redis laws (streak_key identity) (counted_until k since) r2 r3
      → Holds n k time since r3
  both_hold n k m time since r r1 r2 r3 w1 (_, hit2, _) (up, hit3, miss3) = record {
    up = up;
    counted = miss3 (count_key ip path) (streak-ne-count ip path identity) ∙ hit2;
    streak = hit3;
  }

  streak_kept :
      (m n time : ℕ) (r r1 r2 : S)
      → Writes redis laws (count_key ip path) (counted_until m time) r r1
      → Writes redis laws (count_key ip path) (counted_until n time) r1 r2
      → laws.entry (streak_key identity) r2 ≡ laws.entry (streak_key identity) r
  streak_kept m n time r r1 r2 (_, _, miss1) (_, _, miss2) =
      miss2 (streak_key identity) (count-ne-streak ip path identity)
      ∙ miss1 (streak_key identity) (count-ne-streak ip path identity)

  measure-again :
      (now n k time since : ℕ) (r : S)
      → 0 < n
      → Holds n k time since r
      → now < time
      → now < since
      → (r' : S) × (measure redis now ip path identity r ≡ (ok (suc n, (suc (suc n), suc k)), r'))
        × Holds (suc (suc n)) (suc k) time (now + 900000) r'
  measure-again now n k time since r pos_n h soon kept =
      let (r1, e1, w1) =
        window-again redis laws now ip path 10000 n time r pos_n h.up h.counted soon in
      let (r2, e2, w2) =
        window-again redis laws now ip path 60000 (suc n) time r1 (omega arith) w1.0 w1.1 soon in
      let streak2 = streak_kept (suc n) (suc (suc n)) time r r1 r2 w1 w2 ∙ h.streak in
      let (r3, e3, w3) = streak-again redis laws now identity k since r2 w2.0 streak2 kept in
      (
        r3,
        measure-steps now (suc n) (suc (suc n)) (suc k) r r1 r2 r3 e1 e2 e3,
        both_hold (suc (suc n)) (suc k) (suc n) time (now + 900000) r r1 r2 r3 w1 w2 w3,
      )

  -- Redis answers, and neither the counter nor the streak is there.
  pub record IsFresh (now : ℕ) (s : S) : Type 0 where
    pub up : laws.up s ≡ true
    pub uncounted : if_live now (laws.entry (count_key ip path) s) ≡ none
    pub unbroken : if_live now (laws.entry (streak_key identity) s) ≡ none

  measure-first :
      (now : ℕ) (r : S)
      → IsFresh now r
      → (r' : S) × (measure redis now ip path identity r ≡ (ok (1, (2, 1)), r'))
        × Holds 2 1 (now + 10000) (now + 900000) r'
  measure-first now r h =
      let time = now + 10000 in
      let (r1, e1, w1) = window-first redis laws now ip path 10000 r h.up h.uncounted in
      let (r2, e2, w2) =
        window-again redis laws now ip path 60000 1 time r1 (omega arith) w1.0 w1.1 (omega arith) in
      let none2 = ap (if_live now) (streak_kept 1 2 time r r1 r2 w1 w2) ∙ h.unbroken in
      let (r3, e3, w3) = streak-first redis laws now identity r2 w2.0 none2 in
      (
        r3,
        measure-steps now 1 2 1 r r1 r2 r3 e1 e2 e3,
        both_hold 2 1 1 time (now + 900000) r r1 r2 r3 w1 w2 w3,
      )

  -- The counters of a row of requests, at the given times.
  abbrev pub measure_all : List ℕ → Exec S Unit
  measure_all [] = pure tt
  measure_all (now ∷ times) = measure redis now ip path identity >> measure_all times

  -- A time within ten seconds of the first request.
  abbrev pub IsSoon : ℕ → ℕ → Type 0
  IsSoon start now = (start ≤ now) × (now < start + 10000)

  recounted :
      (n m k l time since : ℕ) (r : S)
      → n ≡ m
      → k ≡ l
      → Holds n k time since r
      → Holds m l time since r
  recounted n m k l time since r e f h = rw (← e, ← f) h

  answers :
      (a b c x y z : ℕ) (r : S)
      → a ≡ x
      → b ≡ y
      → c ≡ z
      → ◌≡◌ {A = Result (ℕ × (ℕ × ℕ)) × S} (ok (a, (b, c)), r) (ok (x, (y, z)), r)
  answers a b c x y z r e f g = rw (e, f, g) refl

  measure_all-Holds :
      (start n k since : ℕ) (times : List ℕ) (r : S)
      → 0 < n
      → start + 10000 ≤ since
      → All (IsSoon start) times
      → Holds n k (start + 10000) since r
      → (since' : ℕ) × (r' : S) × (measure_all times r ≡ (ok tt, r'))
        × (start + 10000 ≤ since')
        × Holds (n + 2 * length times) (k + length times) (start + 10000) since' r'
  measure_all-Holds start n k since [] r pos_n late soon h = (
    since,
    r,
    refl,
    late,
    recounted n (n + 0) k (k + 0) (start + 10000) since r (omega arith) (omega arith) h,
  )
  measure_all-Holds start n k since (now ∷ times) r pos_n late ((after, soon), all) h =
      let (r1, e, held) =
        measure-again now n k (start + 10000) since r pos_n h soon (omega arith) in
      let (since', r', run, late', held') =
        measure_all-Holds start (suc (suc n)) (suc k) (now + 900000) times r1 (omega arith)
          (omega arith) all held in
      (
        since',
        r',
        bind-ok (measure redis now ip path identity) (λ _. measure_all times) r e ∙ run,
        late',
        recounted _ _ _ _ (start + 10000) since' r' (omega arith) (omega arith) held',
      )

  -- The two windows share one counter. While Redis answers and holds neither a counter nor a streak
  -- of the client yet: behind a burst of m requests of one client to one path within ten seconds of
  -- the first, the next one in that time is counted as the (2 m + 1)-th of the last ten seconds and
  -- as the (2 m + 2)-th of the last minute, though it is the (m + 1)-th; its streak of failed
  -- authentications is m + 1, whether one has failed or not.
  pub measure_counts_twice :
      (start : ℕ) (times : List ℕ) (now : ℕ) (r : S)
      → IsFresh start r
      → All (IsSoon start) times
      → IsSoon start now
      → (r' : S) × (r'' : S) × (measure_all (start ∷ times) r ≡ (ok tt, r'))
        × (measure redis now ip path identity r' ≡ (
          ok (
            2 * length (start ∷ times) + 1,
            (2 * length (start ∷ times) + 2, length (start ∷ times) + 1),
          ),
          r'',
        ))
  measure_counts_twice start times now r fresh all (after, soon) =
      let m = length times in
      let (r1, e, held) = measure-first start r fresh in
      let (since, r', run, late, held') =
        measure_all-Holds start 2 1 (start + 900000) times r1 (omega arith) (omega arith) all
          held in
      let (r'', k, _) =
        measure-again now (2 + 2 * m) (1 + m) (start + 10000) since r' (omega arith) held' soon
          (omega arith) in
      (
        r',
        r'',
        bind-ok (measure redis start ip path identity) (λ _. measure_all times) r e ∙ run,
        k ∙ answers _ _ _ _ _ _ r'' (omega arith) (omega arith) (omega arith),
      )
