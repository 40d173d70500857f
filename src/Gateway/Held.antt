-- ===== src/Gateway/Held.antt =====
-- A client that is on the blocklist of ZeroTrustFilter.filter, of
-- gateway/src/main/java/com/aisecfirewall/gateway/filter, stays there, whatever the gateway serves meanwhile.
use mathlib.Core.Path.{subst}
use package.text.Mathlib.TextLemmas.{append_cancel_left}
use d_ai_api_sec.Prelude.{
  ℕ, ◌<◌, ◌≡◌, refl, Bool, true, false, String, str_eq, eq_iff, Bool-cases, Option, none, some,
  List, [], ◌∷◌, All, ap, sym, ◌∙◌, inl, inr, if◌then◌else◌,
}
use d_ai_api_sec.Errors.{Result, ok, err}
use d_ai_api_sec.Exec.{lift, bind-ok, bind-err}
use d_ai_api_sec.Gateway.Redis.{IsRedis, Entry, text, blocklist_key, is_blocked}
use d_ai_api_sec.Gateway.Signal.{Claims}
use d_ai_api_sec.Gateway.Address.{resolve_client_ip}
use d_ai_api_sec.Gateway.Keys.{Holding, IsFree}
use d_ai_api_sec.Gateway.Answers.{KeepsHeld, filter_holds}
use d_ai_api_sec.Gateway.Asked.{HasAccess, blocked_refused, stay}
use d_ai_api_sec.Gateway.Blocked.{live_found}
use d_ai_api_sec.Gateway.{
  Request, Gateway, Response, temporarily_blocked, Setting, on_redis, is_public, claims_of, admit,
  unless_blocked, filter,
}

-- That the blocklist holds an entry for one client.
abbrev pub only : String → Entry → Holding
only ip e other = if str_eq ip other then some e else none

only_self : (ip : String) (e : Entry) → only ip e ip ≡ some e
only_self ip e = rw ((eq_iff ip ip).1 refl) refl

-- For no other client it holds any.
pub only_other :
    (ip : String) (e : Entry) (j : String) (v : Entry) → only ip e j ≡ some v → (ip ≡ j) × (e ≡ v)
only_other ip e j v h = elim (Bool-cases (str_eq ip j)) [
  | inl same ↦
      let found : ◌≡◌ {A = Option Entry} (some e) (some v) = rw same at h in
      ((eq_iff ip j).0 same, cc)
  | inr other ↦ let never : ◌≡◌ {A = Option Entry} none (some v) = rw other at h in absurd (cc)
]

only-IsFree :
    (ip other : String) (e : Entry)
    → str_eq ip other ≡ false
    → IsFree (only ip e) (blocklist_key other)
only-IsFree ip other e apart j v h =
    elim (Bool-cases (str_eq (blocklist_key other) (blocklist_key j))) [
      | inr differ ↦ differ
      | inl same ↦
          let equal : other ≡ j =
            append_cancel_left "blocklist:" other j
              ((eq_iff (blocklist_key other) (blocklist_key j)).0 same) in
          let miss : str_eq ip j ≡ false = ap (str_eq ip) (sym equal) ∙ apart in
          let never : ◌≡◌ {A = Option Entry} none (some v) = rw miss at h in absurd (cc)
    ]

module _ {S : Type 0} (env : Setting S) where
  -- Other requests, one after the other, each with what it leaves behind.
  abbrev pub serve_all : List Request → Gateway S → Gateway S
  serve_all [] g = g
  serve_all (req ∷ requests) g = serve_all requests (filter env req g).1

  -- A request of a client that is found on the blocklist changes nothing, with or without access.
  admit_keeps :
      (public : Bool) (claims : Option Claims) (req : Request) (ip : String) (g : Gateway S)
      → env.redis.has_key req.now (blocklist_key ip) g.redis ≡ (ok true, g.redis)
      → (admit env public claims req ip g).1 ≡ g
  admit_keeps false none req ip g found = refl
  admit_keeps true claims req ip g found =
      ap (λ (p : Result Response × Gateway S). p.1)
        (bind-ok (on_redis (is_blocked env.redis req.now ip))
          (λ b. unless_blocked env b req ip claims) g (stay env req.now ip g (ok true) found))
  admit_keeps false (some c) req ip g found =
      ap (λ (p : Result Response × Gateway S). p.1)
        (bind-ok (on_redis (is_blocked env.redis req.now ip))
          (λ b. unless_blocked env b req ip (some c)) g (stay env req.now ip g (ok true) found))

  module _ (laws : IsRedis env.redis) (ip : String) (reason : String) (time : ℕ) where
    abbrev pub block : Entry
    block = record { value = text reason; expires = some time }

    abbrev pub IsBlocked : Gateway S → Type 0
    IsBlocked g = KeepsHeld env laws (only ip block) g

    found :
        (now : ℕ) (g : Gateway S)
        → IsBlocked g
        → now < time
        → env.redis.has_key now (blocklist_key ip) g.redis ≡ (ok true, g.redis)
    found now g h soon =
        laws.has_key-answers now (blocklist_key ip) g.redis h.up
        ∙ ap {B = Result Bool × S} (λ b. (ok b, g.redis))
            (live_found now time reason (laws.entry (blocklist_key ip) g.redis)
              (h.held ip block (only_self ip block)) soon)

    filter-IsBlocked :
        (req : Request) (g : Gateway S)
        → req.now < time
        → IsBlocked g
        → IsBlocked (filter env req g).1
    unfolding filter
    filter-IsBlocked req g soon h =
        by_address (resolve_client_ip req.forwarded_for req.remote_address) refl
      where
        by_address :
            (r : Result String)
            → resolve_client_ip req.forwarded_for req.remote_address ≡ r
            → IsBlocked (filter env req g).1
        by_address (err e) k =
            let claims = claims_of env (is_public req.path) req.authorization in
            subst (λ (p : Result Response × Gateway S). IsBlocked p.1)
              (sym (
                bind-err (lift (resolve_client_ip req.forwarded_for req.remote_address))
                  (admit env (is_public req.path) claims req) g (ap (λ x. (x, g)) k)))
              h
        by_address (ok other) k = elim (Bool-cases (str_eq ip other)) [
          | inr apart ↦
              let (r, t, run, held) =
                filter_holds env laws (only ip block) req g other k
                  (only-IsFree ip other block apart) h in
              subst (λ (p : Result Response × Gateway S). IsBlocked p.1) (sym run) held
          | inl same ↦
              let claims = claims_of env (is_public req.path) req.authorization in
              let there =
                subst
                  (λ j. env.redis.has_key req.now (blocklist_key j) g.redis ≡ (ok true, g.redis))
                  ((eq_iff ip other).0 same) (found req.now g h soon) in
              let run =
                bind-ok (lift (resolve_client_ip req.forwarded_for req.remote_address))
                  (admit env (is_public req.path) claims req) g (ap (λ x. (x, g)) k) in
              subst (λ (p : Result Response × Gateway S). IsBlocked p.1) (sym run)
                (subst IsBlocked (sym (admit_keeps (is_public req.path) claims req other g there))
                  h)
        ]

    serve_all-IsBlocked :
        (requests : List Request) (g : Gateway S)
        → All (λ (req : Request). req.now < time) requests
        → IsBlocked g
        → IsBlocked (serve_all requests g)
    serve_all-IsBlocked [] g all h = h
    serve_all-IsBlocked (req ∷ requests) g (soon, all) h =
        serve_all-IsBlocked requests (filter env req g).1 all (filter-IsBlocked req g soon h)

    pub still_refused :
        (requests : List Request) (later : Request) (g : Gateway S)
        → IsBlocked g
        → All (λ (req : Request). req.now < time) requests
        → resolve_client_ip later.forwarded_for later.remote_address ≡ ok ip
        → HasAccess env later
        → later.now < time
        → filter env later (serve_all requests g) ≡ (ok temporarily_blocked, serve_all requests g)
    still_refused requests later g h all same access soon =
        let t = serve_all requests g in
        blocked_refused env later ip t same access
          (found later.now t (serve_all-IsBlocked requests g all h) soon)
