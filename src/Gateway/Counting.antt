-- ===== src/Gateway/Counting.antt =====
-- The counters that the gateway keeps in Redis, for
-- gateway/src/main/java/com/aisecfirewall/gateway/service/RedisStateService.java: no other value gets
-- in their way.
use mathlib.Core.Path.{subst}
use d_ai_api_sec.Prelude.{
  str_eq, eq_iff, ℕ, suc, ◌*◌, ◌==◌, ◌≡◌, refl, true, String, Option, none, some, ap, sym, ◌∙◌, inl,
  inr, Bool-cases,
}
use d_ai_api_sec.Errors.{ok}
use d_ai_api_sec.Exec.{Exec, pure, ◌>>=◌, ◌>>◌, bind-ok, Returns, pure-Returns, then-Returns}
use d_ai_api_sec.Gateway.Redis.{
  RedisClient, IsRedis, Written, Value, count, text, Entry, is_live, if_live, blocklist_key,
  count_key, streak_key, expire_if_new, increment_window_counter, increment_failed_auth_streak,
}
use d_ai_api_sec.Gateway.{measure}
use d_ai_api_sec.Gateway.Keys.{
  IsCount, IsKept, Apart, count_key-Apart, streak_key-Apart, if_live-some, IsKept-IsCount, Holding,
  nothing, IsFree, Apart-IsFree,
}

module _ {S : Type 0} (redis : RedisClient S) (laws : IsRedis redis) (holding : Holding) where
  -- Redis answers, no counter's key holds a text, and the entries that are to stay are there.
  pub record IsCounting (s : S) : Type 0 where
    pub up : laws.up s ≡ true
    pub kept : (key : String) (e : Entry) → laws.entry key s ≡ some e → IsKept key e
    pub held :
        (ip : String) (e : Entry) → holding ip ≡ some e → laws.entry (blocklist_key ip) s ≡ some e

  pub Written-IsCounting :
      (key : String) (e : Entry) (s s' : S)
      → IsKept key e
      → IsFree holding key
      → IsCounting s
      → Written laws.up laws.entry key e s s'
      → IsCounting s'
  Written-IsCounting key e s s' k free h (up, hit, miss) = record {
    up = up;
    kept = λ j v found. elim (Bool-cases (str_eq key j)) [
      | inl same ↦
          let there : laws.entry j s' ≡ some e =
            subst (λ x. laws.entry x s' ≡ some e) ((eq_iff key j).0 same) hit in
          let equal : e ≡ v = cc in
          subst (IsKept j) equal (subst (λ x. IsKept x e) ((eq_iff key j).0 same) k)
      | inr other ↦ h.kept j v (sym (miss j other) ∙ found)
    ];
    held = λ ip v e. miss (blocklist_key ip) (free ip v e) ∙ h.held ip v e;
  }

  live-IsCount :
      (now : ℕ) (key : String) (s : S) (v : Entry)
      → Apart key
      → IsCounting s
      → if_live now (laws.entry key s) ≡ some v
      → IsCount v.value
  live-IsCount now key s v apart h e =
      IsKept-IsCount key v apart (h.kept key v (if_live-some now (laws.entry key s) v e))

  run_then :
      {A B : Type 0} (m : Exec S A) (f : A → Exec S B) (s : S) (a : A) (s' : S)
      → m s ≡ (ok a, s')
      → Returns IsCounting (f a) s'
      → Returns IsCounting (m >>= f) s
  run_then m f s a s' e (b, t, k, c) = (b, t, bind-ok m f s e ∙ k, c)

  -- Behind an INCR the key is there, whether it was before or not.
  abbrev Increments : ℕ → String → S → Type 0
  Increments now key s =
      (n : ℕ) × (s' : S) × (redis.increment now key s ≡ (ok n, s'))
      × IsCounting s'
      × (e : Entry) × (if_live now (laws.entry key s') ≡ some e)
      × IsCount e.value

  still_live :
      (now : ℕ) (o : Option Entry) (v w : Value) (expires : Option ℕ)
      → if_live now o ≡ some (record { value = v; expires = expires })
      → if_live now (some (record { value = w; expires = expires }))
        ≡ some (record { value = w; expires = expires })
  still_live now none v w expires e = cc
  still_live now (some x) v w expires e = elim (Bool-cases (is_live now x.expires)) [
    | inl live ↦
        let same : some x ≡ some (record { value = v; expires = expires }) = rw live at e in
        let equal : x ≡ record { value = v; expires = expires } = cc in
        let alive : is_live now expires ≡ true =
          ap (λ y. is_live now y.expires) (sym equal) ∙ live in
        rw alive refl
    | inr gone ↦
        let never : ◌≡◌ {A = Option Entry} none (some (record { value = v; expires = expires })) =
          rw gone at e in
        cc
  ]

  increment-Increments :
      (now : ℕ) (key : String) (s : S) → Apart key → IsCounting s → Increments now key s
  increment-Increments now key s apart h = by_entry (if_live now (laws.entry key s)) refl
    where
      by_value :
          (v : Value) (expires : Option ℕ)
          → if_live now (laws.entry key s) ≡ some (record { value = v; expires = expires })
          → IsCount v
          → Increments now key s
      by_value (count n) expires e k =
          let (s', run, w) = laws.increment-counts now key s n expires h.up e in
          let after : Entry = record { value = count (suc n); expires = expires } in
          (
            suc n,
            s',
            run,
            Written-IsCounting key after s s' (inl tt) (Apart-IsFree holding key apart) h w,
            after,
            ap (if_live now) w.1
                ∙ still_live now (laws.entry key s) (count n) (count (suc n)) expires e,
            tt,
          )
      by_value (text t) expires e k = absurd k

      by_entry : (o : Option Entry) → if_live now (laws.entry key s) ≡ o → Increments now key s
      by_entry none e =
          let (s', run, w) = laws.increment-starts now key s h.up e in
          let after : Entry = record { value = count 1; expires = none } in
          (
            1,
            s',
            run,
            Written-IsCounting key after s s' (inl tt) (Apart-IsFree holding key apart) h w,
            after,
            ap (if_live now) w.1,
            tt,
          )
      by_entry (some v) e = by_value v.value v.expires e (live-IsCount now key s v apart h e)

  expire-Returns :
      (now : ℕ) (key : String) (duration : ℕ) (s : S) (e : Entry)
      → Apart key
      → IsCounting s
      → if_live now (laws.entry key s) ≡ some e
      → IsCount e.value
      → Returns IsCounting (redis.expire now key duration) s
  expire-Returns now key duration s e apart h found k =
      let (s', run, w) = laws.expire-writes now key duration s e h.up found in
      (tt, s', run, Written-IsCounting key _ s s' (inl k) (Apart-IsFree holding key apart) h w)

  window_counter-Returns :
      (now : ℕ) (ip endpoint : String) (window : ℕ) (s : S)
      → IsCounting s
      → Returns IsCounting (increment_window_counter redis now ip endpoint window) s
  unfolding increment_window_counter
  window_counter-Returns now ip endpoint window s h =
      let key = count_key ip endpoint in
      let (n, s', run, c, e, found, k) =
        increment-Increments now key s (count_key-Apart ip endpoint) h in
      let rest : Returns IsCounting (expire_if_new redis now key window n) s' =
        elim (Bool-cases (n == 1)) [
          | inl first ↦ rw first (
              then-Returns IsCounting (redis.expire now key window) (λ _. pure n) s'
                (expire-Returns now key window s' e (count_key-Apart ip endpoint) c found k)
                (λ _ t. pure-Returns IsCounting n t))
          | inr later ↦ rw later (pure-Returns IsCounting n s' c)
        ] in
      run_then (redis.increment now key) (expire_if_new redis now key window) s n s' run rest

  failed_auth_streak-Returns :
      (now : ℕ) (identity : String) (s : S)
      → IsCounting s
      → Returns IsCounting (increment_failed_auth_streak redis now identity) s
  unfolding increment_failed_auth_streak
  failed_auth_streak-Returns now identity s h =
      let key = streak_key identity in
      let (n, s', run, c, e, found, k) =
        increment-Increments now key s (streak_key-Apart identity) h in
      run_then (redis.increment now key) (λ n. redis.expire now key (15 * 60000) >> pure n) s n s'
        run
        (then-Returns IsCounting (redis.expire now key (15 * 60000)) (λ _. pure n) s'
          (expire-Returns now key (15 * 60000) s' e (streak_key-Apart identity) c found k)
          (λ _ t. pure-Returns IsCounting n t))

  pub measure-Returns :
      (now : ℕ) (ip path identity : String) (s : S)
      → IsCounting s
      → Returns IsCounting (measure redis now ip path identity) s
  unfolding measure
  measure-Returns now ip path identity s h =
      then-Returns IsCounting (increment_window_counter redis now ip path 10000) _ s
        (window_counter-Returns now ip path 10000 s h)
        (λ a t c.
          then-Returns IsCounting (increment_window_counter redis now ip path 60000) _ t
            (window_counter-Returns now ip path 60000 t c)
            (λ b u d.
              then-Returns IsCounting (increment_failed_auth_streak redis now identity) _ u
                (failed_auth_streak-Returns now identity u d)
                (λ n v. pure-Returns IsCounting (a, (b, n)) v)))

-- A write to the blocklist holds on to what it has written.
pub Written-holds :
    {S : Type 0} (redis : RedisClient S) (laws : IsRedis redis) (holding : Holding) (ip : String)
    (e : Entry) (s s' : S)
    → ((j : String) (v : Entry) → holding j ≡ some v → (ip ≡ j) × (e ≡ v))
    → IsCounting redis laws nothing s
    → Written laws.up laws.entry (blocklist_key ip) e s s'
    → IsCounting redis laws holding s'
Written-holds redis laws holding ip e s s' only h w =
    let counting =
      Written-IsCounting redis laws nothing (blocklist_key ip) e s s' (inr (ip, refl))
        (λ j v never. cc) h w in
    record {
      up = counting.up;
      kept = counting.kept;
      held = λ j v found.
          let (same, equal) = only j v found in
          subst (λ i. laws.entry (blocklist_key i) s' ≡ some v) same (w.1 ∙ ap some equal);
    }
