-- ===== src/Gateway/Answers.antt =====
-- That ZeroTrustFilter.filter, of gateway/src/main/java/com/aisecfirewall/gateway/filter, answers, and
-- what it answers when Redis or the threat engine does not.
use d_ai_api_sec.Prelude.{
  ℕ, ◌*◌, ◌+◌, ◌≡◌, refl, Bool, true, false, String, Option, none, some, ap, ◌∙◌, inr,
}
use d_ai_api_sec.Errors.{Result, ok, err}
use d_ai_api_sec.Exec.{Exec, pure, lift, Returns, pure-Returns, then-Returns, bind-ok}
use d_ai_api_sec.ThreatEngine.Api.{ScoreResponse}
use d_ai_api_sec.Gateway.Redis.{
  IsRedis, Entry, if_live, is_found, text, blocklist_key, is_blocked, block_immediately,
}
use d_ai_api_sec.Gateway.Signal.{Claims, RequestSignalDto}
use d_ai_api_sec.Gateway.Keys.{Holding, nothing, IsFree}
use d_ai_api_sec.Gateway.Counting.{IsCounting, Written-IsCounting, measure-Returns}
use d_ai_api_sec.Gateway.Address.{resolve_client_ip}
use d_ai_api_sec.Gateway.{
  Request, Envelope, proceed, screen, Gateway, Response, blocked_by_engine, temporarily_blocked,
  unauthorized, forwarded, Setting, on_redis, is_public, claims_of, measure, signal_of, envelope_of,
  is_high_risk, enforce, score_if, continue_pipeline, unless_blocked, admit, filter, published_if,
  identity_key,
}

module _ {S : Type 0} (env : Setting S) (laws : IsRedis env.redis) (holding : Holding) where
  -- The gateway's part of the invariant, with entries that are to stay.
  abbrev pub KeepsHeld : Gateway S → Type 0
  KeepsHeld g = IsCounting env.redis laws holding g.redis

  pub on_redis-Returns :
      {A : Type 0} (m : Exec S A) (g : Gateway S)
      → Returns (IsCounting env.redis laws holding) m g.redis
      → Returns KeepsHeld (on_redis m) g
  on_redis-Returns {A} m g (a, r, e, h) = (
    a,
    record g { redis = r },
    ap {B = Result A × Gateway S} (λ (p : Result A × S). (p.0, record g { redis = p.1 })) e,
    h,
  )

  pub published_if-KeepsHeld :
      (r : Result (Unit {0})) (envelope : Envelope) (g : Gateway S)
      → KeepsHeld g
      → KeepsHeld (published_if r envelope g)
  published_if-KeepsHeld (ok _) envelope g h = h
  published_if-KeepsHeld (err e) envelope g h = h

  is_blocked-Returns :
      (now : ℕ) (ip : String) (s : S)
      → IsCounting env.redis laws holding s
      → Returns (IsCounting env.redis laws holding) (is_blocked env.redis now ip) s
  unfolding is_blocked
  is_blocked-Returns now ip s h = (
    is_found (if_live now (laws.entry (blocklist_key ip) s)),
    s,
    laws.has_key-answers now (blocklist_key ip) s h.up,
    h,
  )

  block_immediately-Returns :
      (ttl now : ℕ) (ip reason : String) (s : S)
      → IsFree holding (blocklist_key ip)
      → IsCounting env.redis laws holding s
      → Returns
          (IsCounting env.redis laws holding)
          (block_immediately env.redis ttl now ip reason)
          s
  unfolding block_immediately
  block_immediately-Returns ttl now ip reason s free h =
      let (s', run, w) = laws.set-writes now (blocklist_key ip) reason (ttl * 1000) s h.up in
      let e : Entry = record { value = text reason; expires = some (now + ttl * 1000) } in
      (
        tt,
        s',
        run,
        Written-IsCounting env.redis laws holding (blocklist_key ip) e s s' (inr (ip, refl)) free h
            w,
      )

  enforce-Returns :
      (b : Bool) (now : ℕ) (ip : String) (r : ScoreResponse) (g : Gateway S)
      → IsFree holding (blocklist_key ip)
      → KeepsHeld g
      → Returns KeepsHeld (enforce env b now ip r) g
  enforce-Returns true now ip r g free h =
      let m = block_immediately env.redis env.properties.blocklist_ttl_seconds now ip r.reason in
      then-Returns KeepsHeld (on_redis m) (λ _. pure (blocked_by_engine r.reason)) g
        (on_redis-Returns m g (block_immediately-Returns _ now ip r.reason g.redis free h))
        (λ _ t. pure-Returns KeepsHeld (blocked_by_engine r.reason) t)
  enforce-Returns false now ip r g free h = pure-Returns KeepsHeld (forwarded (some r)) g h

  score_if-Returns :
      (b : Bool) (now : ℕ) (ip : String) (signal : RequestSignalDto) (g : Gateway S)
      → IsFree holding (blocklist_key ip)
      → KeepsHeld g
      → Returns KeepsHeld (score_if env b now ip signal) g
  score_if-Returns true now ip signal g free h = enforce-Returns _ now ip _ g free h
  score_if-Returns false now ip signal g free h = pure-Returns KeepsHeld (forwarded none) g h

  continue_pipeline-Returns :
      (req : Request) (ip : String) (claims : Option Claims) (g : Gateway S)
      → IsFree holding (blocklist_key ip)
      → KeepsHeld g
      → Returns KeepsHeld (continue_pipeline env req ip claims) g
  unfolding continue_pipeline
  continue_pipeline-Returns req ip claims g free h =
      let m = measure env.redis req.now ip req.path (identity_key ip claims) in
      then-Returns KeepsHeld (on_redis m) (proceed env req ip claims) g
        (on_redis-Returns m g (
          measure-Returns env.redis laws holding req.now ip req.path (identity_key ip claims)
            g.redis h))
        (λ rates t k.
          let signal = signal_of env req claims rates.0 rates.1.0 rates.1.1 in
          let envelope = envelope_of env req ip signal in
          score_if-Returns (is_high_risk env req.path rates.0) req.now ip signal
            (published_if (env.kafka envelope) envelope t) free
            (published_if-KeepsHeld (env.kafka envelope) envelope t k))

  unless_blocked-Returns :
      (b : Bool) (req : Request) (ip : String) (claims : Option Claims) (g : Gateway S)
      → IsFree holding (blocklist_key ip)
      → KeepsHeld g
      → Returns KeepsHeld (unless_blocked env b req ip claims) g
  unless_blocked-Returns true req ip claims g free h =
      pure-Returns KeepsHeld temporarily_blocked g h
  unless_blocked-Returns false req ip claims g free h =
      continue_pipeline-Returns req ip claims g free h

  screen-Returns :
      (req : Request) (ip : String) (claims : Option Claims) (g : Gateway S)
      → IsFree holding (blocklist_key ip)
      → KeepsHeld g
      → Returns KeepsHeld (screen env req ip claims) g
  screen-Returns req ip claims g free h =
      let m = is_blocked env.redis req.now ip in
      then-Returns KeepsHeld (on_redis m) (λ b. unless_blocked env b req ip claims) g
        (on_redis-Returns m g (is_blocked-Returns req.now ip g.redis h))
        (λ b t. unless_blocked-Returns b req ip claims t free)

  admit-Returns :
      (public : Bool) (claims : Option Claims) (req : Request) (ip : String) (g : Gateway S)
      → IsFree holding (blocklist_key ip)
      → KeepsHeld g
      → Returns KeepsHeld (admit env public claims req ip) g
  admit-Returns true claims req ip g free h = screen-Returns req ip claims g free h
  admit-Returns false none req ip g free h = pure-Returns KeepsHeld unauthorized g h
  admit-Returns false (some c) req ip g free h = screen-Returns req ip (some c) g free h

  -- An answer to a client of whose entry nothing is to stay.
  pub filter_holds :
      (req : Request) (g : Gateway S) (ip : String)
      → resolve_client_ip req.forwarded_for req.remote_address ≡ ok ip
      → IsFree holding (blocklist_key ip)
      → KeepsHeld g
      → Returns KeepsHeld (filter env req) g
  unfolding filter
  filter_holds req g ip e free h =
      let claims = claims_of env (is_public req.path) req.authorization in
      let start = lift (resolve_client_ip req.forwarded_for req.remote_address) in
      let (r, t, run, k) = admit-Returns (is_public req.path) claims req ip g free h in
      (
        r,
        t,
        bind-ok start (admit env (is_public req.path) claims req) g (ap (λ x. (x, g)) e) ∙ run,
        k,
      )

module _ {S : Type 0} (env : Setting S) (laws : IsRedis env.redis) where
  -- Redis answers, and no counter's key holds a text.
  abbrev pub Steady : Gateway S → Type 0
  Steady g = IsCounting env.redis laws nothing g.redis

  -- While Redis answers and none of its counters' keys holds a text, every request of a client that
  -- has an address is answered, whatever the threat engine, Kafka and the token say; and the
  -- counters are still in order behind it.
  pub filter_answers :
      (req : Request) (g : Gateway S) (ip : String)
      → resolve_client_ip req.forwarded_for req.remote_address ≡ ok ip
      → Steady g
      → (r : Response) × (g' : Gateway S) × (filter env req g ≡ (ok r, g')) × Steady g'
  filter_answers req g ip e h = filter_holds env laws nothing req g ip e (λ j v never. cc) h
