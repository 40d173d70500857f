-- ===== src/Gateway/Lasting.antt =====
-- How long a client stays blocked once ZeroTrustFilter.filter, of
-- gateway/src/main/java/com/aisecfirewall/gateway/filter, has blocked it, whatever the gateway serves meanwhile.
use mathlib.Core.Path.{subst}
use d_ai_api_sec.Prelude.{
  ℕ, ◌*◌, ◌+◌, ◌<◌, ◌≡◌, refl, Bool, true, false, String, str_eq, List, All, ap, sym, ◌∙◌,
}
use d_ai_api_sec.Errors.{Result, ok, err}
use d_ai_api_sec.Exec.{bind-ok}
use d_ai_api_sec.Gateway.Redis.{IsRedis, if_live, is_found, blocklist_key, is_blocked}
use d_ai_api_sec.Gateway.Address.{resolve_client_ip}
use d_ai_api_sec.Gateway.Keys.{nothing}
use d_ai_api_sec.Gateway.Counting.{IsCounting, measure-Returns, Written-holds}
use d_ai_api_sec.Gateway.Answers.{Steady}
use d_ai_api_sec.Gateway.Asked.{HasAccess, claims_in, signal_at, filter-screen, stay}
use d_ai_api_sec.Gateway.Blocked.{enforce_blocks}
use d_ai_api_sec.Gateway.{
  Request, Envelope, Gateway, blocked_by_engine, temporarily_blocked, Setting, on_redis, measure,
  envelope_of, is_high_risk, enforce, proceed, unless_blocked, continue_pipeline, filter,
  or_unscored, published_if, identity_key,
}
use d_ai_api_sec.Gateway.Held.{only, only_other, block, serve_all, still_refused}

published_if-redis :
    {S : Type 0} (r : Result (Unit {0})) (envelope : Envelope) (g : Gateway S)
    → (published_if r envelope g).redis ≡ g.redis
published_if-redis (ok _) envelope g = refl
published_if-redis (err e) envelope g = refl

module _ {S : Type 0} (env : Setting S) (laws : IsRedis env.redis) where
  -- A request that is asked about at the counters that it has.
  filter-enforce_at :
      (req : Request) (ip : String) (g : Gateway S) (rates : ℕ × (ℕ × ℕ)) (counted : S)
      → resolve_client_ip req.forwarded_for req.remote_address ≡ ok ip
      → HasAccess env req
      → laws.up g.redis ≡ true
      → is_found (if_live req.now (laws.entry (blocklist_key ip) g.redis)) ≡ false
      → measure env.redis req.now ip req.path (identity_key ip (claims_in env req)) g.redis
        ≡ (ok rates, counted)
      → is_high_risk env req.path rates.0 ≡ true
      → (t : Gateway S) × (t.redis ≡ counted)
        × (filter env req g
            ≡ enforce env
                (str_eq (or_unscored (env.engine (signal_at env req rates))).decision "BLOCK")
                req.now
                ip
                (or_unscored (env.engine (signal_at env req rates)))
                t)
  unfolding continue_pipeline
  filter-enforce_at req ip g rates counted resolved access up unblocked measured risky =
      let m = measure env.redis req.now ip req.path (identity_key ip (claims_in env req)) in
      let envelope = envelope_of env req ip (signal_at env req rates) in
      let answer =
        laws.has_key-answers req.now (blocklist_key ip) g.redis up
        ∙ ap {B = Result Bool × S} (λ b. (ok b, g.redis)) unblocked in
      let run =
        ap {B = Result (ℕ × (ℕ × ℕ)) × Gateway S}
          (λ (p : Result (ℕ × (ℕ × ℕ)) × S). (p.0, record g { redis = p.1 })) measured in
      (
        published_if (env.kafka envelope) envelope (record g { redis = counted }),
        published_if-redis (env.kafka envelope) envelope (record g { redis = counted }),
        filter-screen env req ip g resolved access
            ∙ bind-ok (on_redis (is_blocked env.redis req.now ip))
                (λ b. unless_blocked env b req ip (claims_in env req)) g
                (stay env req.now ip g (ok false) answer)
            ∙ bind-ok (on_redis m) (proceed env req ip (claims_in env req)) g run
            ∙ rw risky refl,
      )

  -- A request with access of a client that is not blocked, while Redis answers and holds no text under a
  -- counter's key: if at its counters it is a high-risk one, by its path or by its rate, and the decision of
  -- the engine about its signal with these counters is BLOCK, the client gets a 403; and whatever requests the
  -- gateway serves meanwhile, of this and of other clients, each later one of the client, with a valid token or
  -- on a public path, is refused without being counted or published, until the configured time is over.
  pub block_lasts :
      (req later : Request) (between : List Request) (ip : String) (g : Gateway S)
      (rates : ℕ × (ℕ × ℕ)) (counted : S)
      → resolve_client_ip req.forwarded_for req.remote_address ≡ ok ip
      → HasAccess env req
      → Steady env laws g
      → is_found (if_live req.now (laws.entry (blocklist_key ip) g.redis)) ≡ false
      → measure env.redis req.now ip req.path (identity_key ip (claims_in env req)) g.redis
        ≡ (ok rates, counted)
      → is_high_risk env req.path rates.0 ≡ true
      → str_eq (or_unscored (env.engine (signal_at env req rates))).decision "BLOCK" ≡ true
      → All
          (λ (other : Request). other.now < req.now + env.properties.blocklist_ttl_seconds * 1000)
          between
      → resolve_client_ip later.forwarded_for later.remote_address ≡ ok ip
      → HasAccess env later
      → later.now < req.now + env.properties.blocklist_ttl_seconds * 1000
      → (g' : Gateway S) × (filter env req g ≡ (
        ok (blocked_by_engine (or_unscored (env.engine (signal_at env req rates))).reason),
        g',
      ))
        × (filter env later (serve_all env between g')
            ≡ (ok temporarily_blocked, serve_all env between g'))
  block_lasts req later between ip g rates counted resolved access steady unblocked measured risky
        blocks all same later_access soon =
      let r = or_unscored (env.engine (signal_at env req rates)) in
      let time = req.now + env.properties.blocklist_ttl_seconds * 1000 in
      let (t, redis, e) =
        filter-enforce_at req ip g rates counted resolved access steady.up unblocked measured
          risky in
      let (_, after, run, counting) =
        measure-Returns env.redis laws nothing req.now ip req.path
          (identity_key ip (claims_in env req)) g.redis steady in
      let ends : after ≡ t.redis =
        ap {B = S} (λ (p : Result (ℕ × (ℕ × ℕ)) × S). p.1) (sym run ∙ measured) ∙ sym redis in
      let steady' = subst (IsCounting env.redis laws nothing) ends counting in
      let (s, block_run, w) = enforce_blocks env laws req.now ip r t steady'.up in
      (
        record t { redis = s },
        e ∙ ap (λ b. enforce env b req.now ip r t) blocks ∙ block_run,
        still_refused env laws ip r.reason time between later (record t { redis = s })
            (Written-holds env.redis laws (only ip (block env laws ip r.reason time)) ip
              (block env laws ip r.reason time) t.redis s (only_other ip _) steady' w)
            all same later_access soon,
      )
