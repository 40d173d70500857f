-- ===== src/Gateway/Asked.antt =====
-- A request of a client with access: how ZeroTrustFilter.filter, of
-- gateway/src/main/java/com/aisecfirewall/gateway/filter, goes on with it.
use d_ai_api_sec.Prelude.{
  ℕ, ◌≡◌, refl, Bool, true, false, String, str_eq, Option, some, ap, ◌∙◌, ◌⊎◌, inl, inr,
}
use d_ai_api_sec.Errors.{Error, Result, ok, err, connection_error}
use d_ai_api_sec.Exec.{lift, bind-err, bind-ok}
use d_ai_api_sec.Gateway.Redis.{IsRedis, if_live, is_found, blocklist_key, is_blocked}
use d_ai_api_sec.Gateway.Signal.{Claims, RequestSignalDto}
use d_ai_api_sec.Gateway.Keys.{nothing}
use d_ai_api_sec.Gateway.Counting.{measure-Returns}
use d_ai_api_sec.Gateway.Answers.{Steady, on_redis-Returns, published_if-KeepsHeld}
use d_ai_api_sec.Gateway.Address.{resolve_client_ip}
use d_ai_api_sec.Gateway.{
  Request, proceed, screen, Gateway, temporarily_blocked, Setting, on_redis, is_public, validate,
  claims_of, measure, signal_of, envelope_of, is_high_risk, enforce, continue_pipeline,
  unless_blocked, admit, filter, or_unscored, unscored, forwarded, published_if, identity_key,
}

module _ {S : Type 0} (env : Setting S) where
  -- A request that needs no token, or has one whose claims are verified.
  abbrev pub HasAccess : Request → Type 0
  HasAccess req =
      (is_public req.path ≡ true) ⊎ ((c : Claims) × (validate env req.authorization ≡ some c))

  abbrev pub claims_in : Request → Option Claims
  claims_in req = claims_of env (is_public req.path) req.authorization

  admit_open :
      (public : Bool) (header : Option String) (req : Request) (ip : String) (g : Gateway S)
      → (public ≡ true) ⊎ ((c : Claims) × (validate env header ≡ some c))
      → admit env public (claims_of env public header) req ip g
        ≡ screen env req ip (claims_of env public header) g
  admit_open true header req ip g h = refl
  admit_open false header req ip g (inl e) = cc
  admit_open false header req ip g (inr (c, e)) = rw e refl

  pub filter-screen :
      (req : Request) (ip : String) (g : Gateway S)
      → resolve_client_ip req.forwarded_for req.remote_address ≡ ok ip
      → HasAccess req
      → filter env req g ≡ screen env req ip (claims_in req) g
  unfolding filter
  filter-screen req ip g e h =
      bind-ok (lift (resolve_client_ip req.forwarded_for req.remote_address))
        (admit env (is_public req.path) (claims_in req) req) g (ap (λ x. (x, g)) e)
      ∙ admit_open (is_public req.path) req.authorization req ip g h

  pub stay :
      (now : ℕ) (ip : String) (g : Gateway S) (r : Result Bool)
      → env.redis.has_key now (blocklist_key ip) g.redis ≡ (r, g.redis)
      → on_redis (is_blocked env.redis now ip) g ≡ (r, g)
  unfolding is_blocked
  stay now ip g r e =
      ap {B = Result Bool × Gateway S} (λ (p : Result Bool × S). (p.0, record g { redis = p.1 })) e

  -- A client that is found on the blocklist gets a 403, and nothing else happens.
  pub blocked_refused :
      (req : Request) (ip : String) (g : Gateway S)
      → resolve_client_ip req.forwarded_for req.remote_address ≡ ok ip
      → HasAccess req
      → env.redis.has_key req.now (blocklist_key ip) g.redis ≡ (ok true, g.redis)
      → filter env req g ≡ (ok temporarily_blocked, g)
  unfolding is_blocked
  blocked_refused req ip g e h found =
      filter-screen req ip g e h
      ∙ bind-ok (on_redis (is_blocked env.redis req.now ip))
          (λ b. unless_blocked env b req ip (claims_in req)) g (stay req.now ip g (ok true) found)

  -- The signal that a request has at given counters.
  abbrev pub signal_at : Request → ℕ × (ℕ × ℕ) → RequestSignalDto
  signal_at req rates = signal_of env req (claims_in req) rates.0 rates.1.0 rates.1.1

  module _ (laws : IsRedis env.redis) where
    -- If Redis does not answer, no request passes: the handler raises before anything is counted or
    -- published.
    redis_down_refuses :
        (req : Request) (ip : String) (g : Gateway S)
        → resolve_client_ip req.forwarded_for req.remote_address ≡ ok ip
        → HasAccess req
        → laws.up g.redis ≡ false
        → filter env req g ≡ (err connection_error, g)
    redis_down_refuses req ip g e h down =
        filter-screen req ip g e h
        ∙ bind-err (on_redis (is_blocked env.redis req.now ip))
            (λ b. unless_blocked env b req ip (claims_in req)) g
            (stay req.now ip g (err connection_error)
              (laws.has_key-fails req.now (blocklist_key ip) g.redis down))

    -- A request that is to be scored, of a client that is not blocked.
    pub record IsAsked (req : Request) (ip : String) (g : Gateway S) : Type 0 where
      pub resolved : resolve_client_ip req.forwarded_for req.remote_address ≡ ok ip
      pub access : HasAccess req
      pub steady : Steady env laws g
      pub unblocked : is_found (if_live req.now (laws.entry (blocklist_key ip) g.redis)) ≡ false
      pub risky : (rate : ℕ) → is_high_risk env req.path rate ≡ true

    pub filter-enforce :
        (req : Request) (ip : String) (g : Gateway S)
        → IsAsked req ip g
        → (rates : ℕ × (ℕ × ℕ)) × (t : Gateway S) × (filter env req g
            ≡ enforce env
                (str_eq (or_unscored (env.engine (signal_at req rates))).decision "BLOCK")
                req.now
                ip
                (or_unscored (env.engine (signal_at req rates)))
                t)
          × Steady env laws t
    unfolding continue_pipeline
    filter-enforce req ip g h =
        let identity = identity_key ip (claims_in req) in
        let m = measure env.redis req.now ip req.path identity in
        let (rates, t, run, steady) =
          on_redis-Returns env laws nothing m g (
            measure-Returns env.redis laws nothing req.now ip req.path identity g.redis h.steady) in
        let envelope = envelope_of env req ip (signal_at req rates) in
        let answer =
          laws.has_key-answers req.now (blocklist_key ip) g.redis h.steady.up
          ∙ ap {B = Result Bool × S} (λ b. (ok b, g.redis)) h.unblocked in
        (
          rates,
          published_if (env.kafka envelope) envelope t,
          filter-screen req ip g h.resolved h.access
              ∙ bind-ok (on_redis (is_blocked env.redis req.now ip))
                  (λ b. unless_blocked env b req ip (claims_in req)) g
                  (stay req.now ip g (ok false) answer)
              ∙ bind-ok (on_redis m) (proceed env req ip (claims_in req)) g run
              ∙ rw (h.risky rates.0) refl,
          published_if-KeepsHeld env laws nothing (env.kafka envelope) envelope t steady,
        )

    -- A request with access to a high-risk path, of a client that is not blocked, while Redis
    -- answers and holds no text under a counter's key: if the threat engine fails on it, be it by a
    -- timeout, an open circuit or an error status, the request is forwarded, tagged as UNSCORED.
    pub engine_down_forwards :
        (req : Request) (ip : String) (g : Gateway S)
        → IsAsked req ip g
        → ((rates : ℕ × (ℕ × ℕ)) → (q : Error) × (env.engine (signal_at req rates) ≡ err q))
        → (g' : Gateway S) × (filter env req g ≡ (ok (forwarded (some unscored)), g'))
    engine_down_forwards req ip g h fails =
        let (rates, t, e, _) = filter-enforce req ip g h in
        let (q, k) = fails rates in
        (
          t,
          e
              ∙ ap
                  (λ a.
                    enforce env (str_eq (or_unscored a).decision "BLOCK") req.now ip (or_unscored a)
                      t)
                  k,
        )
