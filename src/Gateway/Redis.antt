-- ===== src/Gateway/Redis.antt =====
-- gateway/src/main/java/com/aisecfirewall/gateway/service/RedisStateService.java, over the commands that
-- its Redis client has. Times are in milliseconds.
use Prim.Native.String.{◌++◌ as append}
use d_ai_api_sec.Prelude.{
  ℕ, suc, ◌+◌, ◌*◌, ◌==◌, ◌≡◌, Bool, true, false, ltb, String, str_eq, Option, none, some,
  if◌then◌else◌,
}
use d_ai_api_sec.Errors.{ok, err, connection_error}
use d_ai_api_sec.Exec.{Exec, pure, ◌>>=◌, ◌>>◌}

-- The commands, at a time, over the state S of the server: EXISTS, SET with a time to live, INCR,
-- PEXPIRE and DEL.
pub record RedisClient (S : Type 0) : Type 0 where
  pub has_key : ℕ → String → Exec S Bool
  pub set : ℕ → String → String → ℕ → Exec S Unit
  pub increment : ℕ → String → Exec S ℕ
  pub expire : ℕ → String → ℕ → Exec S Unit
  pub delete : ℕ → String → Exec S Bool

abbrev pub blocklist_key : String → String
blocklist_key client_ip = append "blocklist:" client_ip

-- The window has no part in the key.
abbrev pub count_key : String → String → String
count_key client_ip endpoint = append "count:" (append client_ip (append ":" endpoint))

abbrev pub streak_key : String → String
streak_key identity = append "failstreak:" identity

module _ {S : Type 0} (redis : RedisClient S) where
  unfoldable pub is_blocked : ℕ → String → Exec S Bool
  is_blocked now client_ip = redis.has_key now (blocklist_key client_ip)

  -- With the time to live in seconds.
  unfoldable pub block_immediately : ℕ → ℕ → String → String → Exec S Unit
  block_immediately ttl now client_ip reason =
      redis.set now (blocklist_key client_ip) reason (ttl * 1000)

  abbrev pub expire_if_new : ℕ → String → ℕ → ℕ → Exec S ℕ
  expire_if_new now key window n =
      if n == 1 then (redis.expire now key window >> pure n) else pure n

  unfoldable pub increment_window_counter : ℕ → String → String → ℕ → Exec S ℕ
  increment_window_counter now client_ip endpoint window = do
    n ← redis.increment now (count_key client_ip endpoint)
    expire_if_new now (count_key client_ip endpoint) window n

  unfoldable pub increment_failed_auth_streak : ℕ → String → Exec S ℕ
  increment_failed_auth_streak now identity = do
    n ← redis.increment now (streak_key identity)
    redis.expire now (streak_key identity) (15 * 60000)
    pure n

  unfoldable pub reset_failed_auth_streak : ℕ → String → Exec S Bool
  reset_failed_auth_streak now identity = redis.delete now (streak_key identity)

-- What a key holds.
pub data Value : Type 0 where
  count : ℕ → Value
  text : String → Value

pub record Entry : Type 0 where
  pub value : Value
  pub expires : Option ℕ

-- Whether an entry is still there at a time.
abbrev pub is_live : ℕ → Option ℕ → Bool
is_live now none = true
is_live now (some time) = ltb now time

abbrev pub if_live : ℕ → Option Entry → Option Entry
if_live now none = none
if_live now (some e) = if is_live now e.expires then some e else none

abbrev pub is_found : Option Entry → Bool
is_found none = false
is_found (some e) = true

-- A write of an entry: the server still answers, the key holds the entry, and the others what they did.
abbrev pub Written :
    {S : Type 0} → (S → Bool) → (String → S → Option Entry) → String → Entry → S → S → Type 0
Written up entry key e s s' =
    (up s' ≡ true)
    × (entry key s' ≡ some e)
    × ((other : String) → str_eq key other ≡ false → entry other s' ≡ entry other s)

-- A removal: the server still answers, the key holds nothing, and the others what they did.
abbrev pub Removed :
    {S : Type 0} → (S → Bool) → (String → S → Option Entry) → String → S → S → Type 0
Removed up entry key s s' =
    (up s' ≡ true)
    × (entry key s' ≡ none)
    × ((other : String) → str_eq key other ≡ false → entry other s' ≡ entry other s)

-- The documented behaviour of the commands: a state that answers holds an entry for each key, each
-- write changes that of its key alone, INCR keeps the time at which its key expires, and a
-- server that is down fails.
pub record IsRedis {S : Type 0} (redis : RedisClient S) : Type 0 where
  pub up : S → Bool
  pub entry : String → S → Option Entry
  pub has_key-answers :
      (now : ℕ) (key : String) (s : S)
      → up s ≡ true
      → redis.has_key now key s ≡ (ok (is_found (if_live now (entry key s))), s)
  pub has_key-fails :
      (now : ℕ) (key : String) (s : S)
      → up s ≡ false
      → redis.has_key now key s ≡ (err connection_error, s)
  pub set-writes :
      (now : ℕ) (key value : String) (ttl : ℕ) (s : S)
      → up s ≡ true
      → (s' : S) × (redis.set now key value ttl s ≡ (ok tt, s'))
        × Written up entry key (record { value = text value; expires = some (now + ttl) }) s s'
  pub increment-starts :
      (now : ℕ) (key : String) (s : S)
      → up s ≡ true
      → if_live now (entry key s) ≡ none
      → (s' : S) × (redis.increment now key s ≡ (ok 1, s'))
        × Written up entry key (record { value = count 1; expires = none }) s s'
  pub increment-counts :
      (now : ℕ) (key : String) (s : S) (n : ℕ) (expires : Option ℕ)
      → up s ≡ true
      → if_live now (entry key s) ≡ some (record { value = count n; expires = expires })
      → (s' : S) × (redis.increment now key s ≡ (ok (suc n), s'))
        × Written up entry key (record { value = count (suc n); expires = expires }) s s'
  pub expire-writes :
      (now : ℕ) (key : String) (duration : ℕ) (s : S) (e : Entry)
      → up s ≡ true
      → if_live now (entry key s) ≡ some e
      → (s' : S) × (redis.expire now key duration s ≡ (ok tt, s'))
        × Written up entry key (record { value = e.value; expires = some (now + duration) }) s s'
  pub delete-removes :
      (now : ℕ) (key : String) (s : S)
      → up s ≡ true
      → (s' : S) × (redis.delete now key s ≡ (ok (is_found (if_live now (entry key s))), s'))
        × Removed up entry key s s'
