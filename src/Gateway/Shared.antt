-- ===== src/Gateway/Shared.antt =====
-- The two windows of gateway/src/main/java/com/aisecfirewall/gateway/service/RedisStateService.java: their
-- counters have one key.
use Prim.Native.Char.{code}
use Prim.Native.String.{◌++◌ as append}
use package.text.Mathlib.TextLemmas.{head-eq_of_cons-eq, cons-append}
use d_ai_api_sec.Prelude.{
  Option, Bool, ℕ, suc, ◌+◌, ◌<◌, ◌==◌, ◌≡◌, refl, true, false, ltb, String, str_eq, eq_iff, none,
  some, ap, sym, ◌∙◌, inl, inr, Bool-cases, arith,
}
use d_ai_api_sec.Errors.{ok}
use d_ai_api_sec.Exec.{pure, ◌>>◌, bind-ok}
use d_ai_api_sec.Gateway.Redis.{
  RedisClient, IsRedis, Written, Entry, count, if_live, count_key, streak_key, expire_if_new,
  increment_window_counter, increment_failed_auth_streak, reset_failed_auth_streak,
}

-- A counter that is there until a time.
abbrev pub counted_until : ℕ → ℕ → Entry
counted_until n time = record { value = count n; expires = some time }

keys-ne : (ip path identity : String) → ¬ (count_key ip path ≡ streak_key identity)
keys-ne ip path identity e =
    let h = ap code (
      head-eq_of_cons-eq (
        sym (cons-append _ "ount:" (append ip (append ":" path)))
        ∙ e
        ∙ cons-append _ "ailstreak:" identity)) in
    omega arith

differ : (a b : String) → ¬ (a ≡ b) → str_eq a b ≡ false
differ a b h = elim (Bool-cases (str_eq a b)) [
  | inl same ↦ absurd (h ((eq_iff a b).0 same))
  | inr other ↦ other
]

pub count-ne-streak :
    (ip path identity : String) → str_eq (count_key ip path) (streak_key identity) ≡ false
count-ne-streak ip path identity = differ _ _ (keys-ne ip path identity)

pub streak-ne-count :
    (ip path identity : String) → str_eq (streak_key identity) (count_key ip path) ≡ false
streak-ne-count ip path identity = differ _ _ (λ e. keys-ne ip path identity (sym e))

module _ {S : Type 0} (redis : RedisClient S) (laws : IsRedis redis) where
  abbrev pub Writes : String → Entry → S → S → Type 0
  Writes = Written laws.up laws.entry

  written-again :
      (key : String) (e f : Entry) (s t u : S)
      → Writes key e s t
      → Writes key f t u
      → Writes key f s u
  written-again key e f s t u (_, _, miss) (up, hit, miss') =
      (up, hit, λ other h. miss' other h ∙ miss other h)

  live :
      (now n time : ℕ) (o : Option Entry)
      → o ≡ some (counted_until n time)
      → now < time
      → if_live now o ≡ some (counted_until n time)
  live now n time o e h = let alive : ltb now time ≡ true = ground arith in rw e (rw alive refl)

  -- The first request of a window starts the counter and its time.
  pub window-first :
      (now : ℕ) (ip path : String) (window : ℕ) (s : S)
      → laws.up s ≡ true
      → if_live now (laws.entry (count_key ip path) s) ≡ none
      → (s' : S) × (increment_window_counter redis now ip path window s ≡ (ok 1, s'))
        × Writes (count_key ip path) (counted_until 1 (now + window)) s s'
  unfolding increment_window_counter
  window-first now ip path window s up e =
      let key = count_key ip path in
      let new : Entry = record { value = count 1; expires = none } in
      let (t, run, w) = laws.increment-starts now key s up e in
      let (u, run', w') = laws.expire-writes now key window t new w.0 (ap (if_live now) w.1) in
      (
        u,
        bind-ok (redis.increment now key) (expire_if_new redis now key window) s run
            ∙ bind-ok (redis.expire now key window) (λ _. pure 1) t run',
        written-again key new (counted_until 1 (now + window)) s t u w w',
      )

  -- A later one counts on, and leaves the time.
  pub window-again :
      (now : ℕ) (ip path : String) (window n time : ℕ) (s : S)
      → 0 < n
      → laws.up s ≡ true
      → laws.entry (count_key ip path) s ≡ some (counted_until n time)
      → now < time
      → (s' : S) × (increment_window_counter redis now ip path window s ≡ (ok (suc n), s'))
        × Writes (count_key ip path) (counted_until (suc n) time) s s'
  unfolding increment_window_counter
  window-again now ip path window n time s some_yet up e h =
      let key = count_key ip path in
      let later : (suc n == 1) ≡ false = ground arith in
      let (t, run, w) =
        laws.increment-counts now key s n (some time) up (live now n time (laws.entry key s) e h) in
      (
        t,
        bind-ok (redis.increment now key) (expire_if_new redis now key window) s run
            ∙ rw later refl,
        w,
      )

  pub streak-first :
      (now : ℕ) (identity : String) (s : S)
      → laws.up s ≡ true
      → if_live now (laws.entry (streak_key identity) s) ≡ none
      → (s' : S) × (increment_failed_auth_streak redis now identity s ≡ (ok 1, s'))
        × Writes (streak_key identity) (counted_until 1 (now + 900000)) s s'
  unfolding increment_failed_auth_streak
  streak-first now identity s up e =
      let key = streak_key identity in
      let new : Entry = record { value = count 1; expires = none } in
      let (t, run, w) = laws.increment-starts now key s up e in
      let (u, run', w') = laws.expire-writes now key 900000 t new w.0 (ap (if_live now) w.1) in
      (
        u,
        bind-ok (redis.increment now key) (λ n. redis.expire now key 900000 >> pure n) s run
            ∙ bind-ok (redis.expire now key 900000) (λ _. pure 1) t run',
        written-again key new (counted_until 1 (now + 900000)) s t u w w',
      )

  pub streak-again :
      (now : ℕ) (identity : String) (n time : ℕ) (s : S)
      → laws.up s ≡ true
      → laws.entry (streak_key identity) s ≡ some (counted_until n time)
      → now < time
      → (s' : S) × (increment_failed_auth_streak redis now identity s ≡ (ok (suc n), s'))
        × Writes (streak_key identity) (counted_until (suc n) (now + 900000)) s s'
  unfolding increment_failed_auth_streak
  streak-again now identity n time s up e h =
      let key = streak_key identity in
      let (t, run, w) =
        laws.increment-counts now key s n (some time) up (live now n time (laws.entry key s) e h) in
      let (u, run', w') =
        laws.expire-writes now key 900000 t (counted_until (suc n) time) w.0
          (live now (suc n) time (laws.entry key t) w.1 h) in
      (
        u,
        bind-ok (redis.increment now key) (λ m. redis.expire now key 900000 >> pure m) s run
            ∙ bind-ok (redis.expire now key 900000) (λ _. pure (suc n)) t run',
        written-again key (counted_until (suc n) time) (counted_until (suc n) (now + 900000)) s t u
            w w',
      )

  -- Behind a reset of a streak the next increment is the first again, and what Redis holds for other
  -- keys is what it was before the two.
  reset-streak_first :
      (now later : ℕ) (identity : String) (s : S)
      → laws.up s ≡ true
      → (b : Bool) × (t : S) × (u : S) × (reset_failed_auth_streak redis now identity s ≡ (ok b, t))
        × (increment_failed_auth_streak redis later identity t ≡ (ok 1, u))
        × ((other : String)
            → str_eq (streak_key identity) other ≡ false
            → laws.entry other u ≡ laws.entry other s)
  unfolding reset_failed_auth_streak
  reset-streak_first now later identity s up =
      let key = streak_key identity in
      let (t, run, (up', gone, miss)) = laws.delete-removes now key s up in
      let (u, first, (_, _, miss')) = streak-first later identity t up' (ap (if_live later) gone) in
      (_, t, u, run, first, λ other h. miss' other h ∙ miss other h)
