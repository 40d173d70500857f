-- ===== src/Tests/Redis.antt =====
-- A Redis that keeps its entries in a dict.
use d_ai_api_sec.Prelude.{ℕ, suc, ◌+◌, ◌≡◌, Bool, true, false, String, Option, none, some, ap, ◌∙◌}
use d_ai_api_sec.Prelude.Dict.{Dict, lookup, insert, remove}
use d_ai_api_sec.Prelude.Dict.Lookup.{
  lookup-insert, lookup-insert_other, lookup-remove, lookup-remove_other,
}
use d_ai_api_sec.Errors.{Result, ok, err, connection_error, value_error}
use d_ai_api_sec.Gateway.Redis.{
  RedisClient, IsRedis, Written, Value, count, text, Entry, if_live, is_found,
}

pub record Server : Type 0 where
  pub up : Bool
  pub entries : Dict Entry

abbrev pub find : ℕ → String → Server → Option Entry
find now key s = if_live now (lookup key s.entries)

abbrev pub put : String → Entry → Server → Server
put key e s = record s { entries = insert key e s.entries }

abbrev pub drop : String → Server → Server
drop key s = record s { entries = remove key s.entries }

-- A command fails if the server is down.
abbrev pub if_up : {A : Type 0} → Bool → Result A × Server → Server → Result A × Server
if_up true done s = done
if_up false done s = (err connection_error, s)

abbrev pub increment_value : String → Value → Option ℕ → Server → Result ℕ × Server
increment_value key (count n) expires s =
    (ok (suc n), put key (record { value = count (suc n); expires = expires }) s)
increment_value key (text t) expires s = (err value_error, s)

abbrev pub increment_entry : String → Option Entry → Server → Result ℕ × Server
increment_entry key none s = increment_value key (count 0) none s
increment_entry key (some e) s = increment_value key e.value e.expires s

abbrev pub expire_entry : String → ℕ → Option Entry → Server → Result (Unit {0}) × Server
expire_entry key time none s = (ok tt, s)
expire_entry key time (some e) s =
    (ok tt, put key (record { value = e.value; expires = some time }) s)

abbrev pub client : RedisClient Server
client = record {
  has_key = λ now key s. if_up s.up (ok (is_found (find now key s)), s) s;
  set = λ now key value ttl s.
      if_up s.up (ok tt, put key (record { value = text value; expires = some (now + ttl) }) s) s;
  increment = λ now key s. if_up s.up (increment_entry key (find now key s) s) s;
  expire =
      λ now key duration s. if_up s.up (expire_entry key (now + duration) (find now key s) s) s;
  delete = λ now key s. if_up s.up (ok (is_found (find now key s)), drop key s) s;
}

abbrev pub up : Server → Bool
up s = s.up

abbrev pub entry : String → Server → Option Entry
entry key s = lookup key s.entries

pub put-Written :
    (key : String) (e : Entry) (s : Server) → s.up ≡ true → Written up entry key e s (put key e s)
put-Written key e s h =
    (h, lookup-insert key e s.entries, λ other k. lookup-insert_other other key e s.entries k)

pub up-eq :
    {A : Type 0} (done : Result A × Server) (s : Server) → s.up ≡ true → if_up s.up done s ≡ done
up-eq done s h = ap (λ b. if_up b done s) h

abbrev pub laws : IsRedis client
laws = record {
  up = up;
  entry = entry;
  has_key-answers = λ now key s h. up-eq (ok (is_found (find now key s)), s) s h;
  has_key-fails = λ now key s h. ap (λ b. if_up b (ok (is_found (find now key s)), s) s) h;
  set-writes = λ now key value ttl s h.
      let e : Entry = record { value = text value; expires = some (now + ttl) } in
      (put key e s, up-eq (ok tt, put key e s) s h, put-Written key e s h);
  increment-starts = λ now key s h e.
      let new : Entry = record { value = count 1; expires = none } in
      (
        put key new s,
        up-eq (increment_entry key (find now key s) s) s h ∙ ap (λ o. increment_entry key o s) e,
        put-Written key new s h,
      );
  increment-counts = λ now key s n expires h e.
      let next : Entry = record { value = count (suc n); expires = expires } in
      (
        put key next s,
        up-eq (increment_entry key (find now key s) s) s h ∙ ap (λ o. increment_entry key o s) e,
        put-Written key next s h,
      );
  expire-writes = λ now key duration s e h found.
      let next : Entry = record { value = e.value; expires = some (now + duration) } in
      (
        put key next s,
        up-eq (expire_entry key (now + duration) (find now key s) s) s h
            ∙ ap (λ o. expire_entry key (now + duration) o s) found,
        put-Written key next s h,
      );
  delete-removes = λ now key s h. (
    drop key s,
    up-eq (ok (is_found (find now key s)), drop key s) s h,
    (h, lookup-remove key s.entries, λ other k. lookup-remove_other other key s.entries k),
  );
}
