-- ===== src/Gateway/Admission.antt =====
-- What ZeroTrustFilter.filter, of gateway/src/main/java/com/aisecfirewall/gateway/filter, lets through.
use d_ai_api_sec.Prelude.{
  ℕ, ◌≡◌, refl, Bool, true, false, String, str_eq, Option, none, some, [], ◌∷◌, ◌++◌, ap, sym, ◌∙◌,
  ◌⊎◌, inl, inr,
}
use d_ai_api_sec.Errors.{Result, ok, err}
use d_ai_api_sec.Exec.{Exec, pure, bind-eq-ok, lift-eq-ok}
use d_ai_api_sec.ThreatEngine.Api.{ScoreResponse}
use d_ai_api_sec.Gateway.Redis.{blocklist_key, is_blocked, block_immediately}
use d_ai_api_sec.Gateway.Signal.{Claims, RequestSignalDto}
use d_ai_api_sec.Gateway.Address.{resolve_client_ip}
use d_ai_api_sec.Gateway.{
  Request, Envelope, proceed, screen, Gateway, Response, blocked_by_engine, rejected, forwarded,
  Setting, on_redis, is_public, validate, claims_of, measure, signal_of, envelope_of, is_high_risk,
  enforce, score_if, continue_pipeline, unless_blocked, admit, filter, or_unscored, published_if,
  identity_key,
}

-- What the threat engine may have said: nothing if it is not asked, and no BLOCK if it is.
abbrev pub Allowed : Bool → ScoreResponse → Option ScoreResponse → Type 0
Allowed true r tag = (str_eq r.decision "BLOCK" ≡ false) × (tag ≡ some r)
Allowed false r tag = tag ≡ none

module _ {S : Type 0} where
  rejected-ne-forwarded :
      (status : ℕ) (body : String) (tag : Option ScoreResponse) (g g' : Gateway S)
      → ¬ (
          ◌≡◌ {A = Result Response × Gateway S}
            (ok (rejected status body), g)
            (ok (forwarded tag), g'))
  rejected-ne-forwarded status body tag g g' e =
      let h = ap {B = Result Response} (λ (p : Result Response × Gateway S). p.0) e in cc

  on_redis-eq-ok :
      {A : Type 0} (m : Exec S A) (g g' : Gateway S) (a : A)
      → on_redis m g ≡ (ok a, g')
      → (m g.redis ≡ (ok a, g'.redis)) × (g'.published ≡ g.published)
  on_redis-eq-ok {A} m g g' a e = (
    ap {B = Result A × S} (λ (p : Result A × Gateway S). (p.0, p.1.redis)) e,
    sym (ap (λ (p : Result A × Gateway S). p.1.published) e),
  )

  published_if-parts :
      (r : Result (Unit {0})) (envelope : Envelope) (v g : Gateway S)
      → v.published ≡ g.published
      → ((published_if r envelope v).redis ≡ v.redis)
        × ((published_if r envelope v).published ≡ (published_if r envelope g).published)
  published_if-parts (ok _) envelope v g e = (refl, ap (λ l. l ++ envelope ∷ []) e)
  published_if-parts (err q) envelope v g e = (refl, e)

module _ {S : Type 0} (env : Setting S) where
  -- How a request comes through with its claims: the counters, the signal that is offered to Kafka,
  -- and the tag.
  pub record IsScreened (req : Request) (client_ip : String) (claims : Option Claims)
      (g : Gateway S) (tag : Option ScoreResponse) (g' : Gateway S) : Type 0 where
    pub rates : ℕ × (ℕ × ℕ)
    pub signal : RequestSignalDto
    pub measured :
        measure env.redis req.now client_ip req.path (identity_key client_ip claims) g.redis
        ≡ (ok rates, g'.redis)
    pub built : signal ≡ signal_of env req claims rates.0 rates.1.0 rates.1.1
    pub published :
        g'.published
        ≡ (published_if
            (env.kafka (envelope_of env req client_ip signal))
            (envelope_of env req client_ip signal)
            g).published
    pub verdict : Allowed (is_high_risk env req.path rates.0) (or_unscored (env.engine signal)) tag

  enforce-forwards :
      (b : Bool) (now : ℕ) (ip : String) (r : ScoreResponse) (g g' : Gateway S)
      (tag : Option ScoreResponse)
      → enforce env b now ip r g ≡ (ok (forwarded tag), g')
      → (b ≡ false) × ((tag ≡ some r) × (g' ≡ g))
  enforce-forwards true now ip r g g' tag e =
      let m : Exec (Gateway S) Unit =
        on_redis
          (block_immediately env.redis env.properties.blocklist_ttl_seconds now ip r.reason) in
      let (_, v, _, h) = bind-eq-ok m (λ _. pure (blocked_by_engine r.reason)) g e in
      absurd (rejected-ne-forwarded 403 _ tag v g' h)
  enforce-forwards false now ip r g g' tag e =
      let w = ap {B = Result Response} (λ (p : Result Response × Gateway S). p.0) e in
      let v = ap {B = Gateway S} (λ (p : Result Response × Gateway S). p.1) e in (refl, (cc, cc))

  score_if-forwards :
      (b : Bool) (now : ℕ) (ip : String) (signal : RequestSignalDto) (g g' : Gateway S)
      (tag : Option ScoreResponse)
      → score_if env b now ip signal g ≡ (ok (forwarded tag), g')
      → Allowed b (or_unscored (env.engine signal)) tag × (g' ≡ g)
  score_if-forwards true now ip signal g g' tag e =
      let (b, (t, same)) =
        enforce-forwards (str_eq (or_unscored (env.engine signal)).decision "BLOCK") now ip
          (or_unscored (env.engine signal)) g g' tag e in
      ((b, t), same)
  score_if-forwards false now ip signal g g' tag e =
      let w = ap {B = Result Response} (λ (p : Result Response × Gateway S). p.0) e in
      let v = ap {B = Gateway S} (λ (p : Result Response × Gateway S). p.1) e in (cc, cc)

  continue_pipeline-IsScreened :
      (req : Request) (ip : String) (claims : Option Claims) (g g' : Gateway S)
      (tag : Option ScoreResponse)
      → continue_pipeline env req ip claims g ≡ (ok (forwarded tag), g')
      → IsScreened req ip claims g tag g'
  unfolding continue_pipeline
  continue_pipeline-IsScreened req ip claims g g' tag e =
      let (rates, v, k, h) =
        bind-eq-ok (on_redis (measure env.redis req.now ip req.path (identity_key ip claims)))
          (proceed env req ip claims) g e in
      let signal = signal_of env req claims rates.0 rates.1.0 rates.1.1 in
      let envelope = envelope_of env req ip signal in
      let (allowed, same) =
        score_if-forwards (is_high_risk env req.path rates.0) req.now ip signal
          (published_if (env.kafka envelope) envelope v) g' tag h in
      let (run, kept) =
        on_redis-eq-ok (measure env.redis req.now ip req.path (identity_key ip claims)) g v rates
          k in
      let (same_redis, after) = published_if-parts (env.kafka envelope) envelope v g kept in
      record {
        rates = rates;
        signal = signal;
        measured = run ∙ ap (λ x. (ok rates, x)) (sym same_redis ∙ ap (λ x. x.redis) (sym same));
        built = refl;
        published = ap (λ x. x.published) same ∙ after;
        verdict = allowed;
      }

  unless_blocked-IsScreened :
      (b : Bool) (req : Request) (ip : String) (claims : Option Claims) (g g' : Gateway S)
      (tag : Option ScoreResponse)
      → unless_blocked env b req ip claims g ≡ (ok (forwarded tag), g')
      → (b ≡ false) × IsScreened req ip claims g tag g'
  unless_blocked-IsScreened true req ip claims g g' tag e =
      absurd (rejected-ne-forwarded 403 _ tag g g' e)
  unless_blocked-IsScreened false req ip claims g g' tag e =
      (refl, continue_pipeline-IsScreened req ip claims g g' tag e)

  -- What screening finds: the client is not on the blocklist, and its request goes on from there.
  abbrev pub Screens :
      Request → String → Option Claims → Gateway S → Option ScoreResponse → Gateway S → Type 0
  Screens req ip claims g tag g' =
      (v : Gateway S) × (env.redis.has_key req.now (blocklist_key ip) g.redis ≡ (ok false, v.redis))
      × (v.published ≡ g.published)
      × IsScreened req ip claims v tag g'

  screen-Screens :
      (req : Request) (ip : String) (claims : Option Claims) (g g' : Gateway S)
      (tag : Option ScoreResponse)
      → screen env req ip claims g ≡ (ok (forwarded tag), g')
      → Screens req ip claims g tag g'
  unfolding is_blocked
  screen-Screens req ip claims g g' tag e =
      let (b, v, k, h) =
        bind-eq-ok (on_redis (is_blocked env.redis req.now ip))
          (λ b. unless_blocked env b req ip claims) g e in
      let (asked, kept) = on_redis-eq-ok (is_blocked env.redis req.now ip) g v b k in
      let (free, screened) = unless_blocked-IsScreened b req ip claims v g' tag h in
      (v, asked ∙ ap (λ x. (ok x, v.redis)) free, kept, screened)

  admit-forwards :
      (public : Bool) (claims : Option Claims) (req : Request) (ip : String) (g g' : Gateway S)
      (tag : Option ScoreResponse)
      → admit env public claims req ip g ≡ (ok (forwarded tag), g')
      → ((public ≡ true) ⊎ ((c : Claims) × (claims ≡ some c)))
        × (screen env req ip claims g ≡ (ok (forwarded tag), g'))
  admit-forwards true claims req ip g g' tag e = (inl refl, e)
  admit-forwards false none req ip g g' tag e = absurd (rejected-ne-forwarded 401 _ tag g g' e)
  admit-forwards false (some c) req ip g g' tag e = (inr (c, refl), e)

  pub authentic :
      (public : Bool) (header : Option String)
      → (public ≡ true) ⊎ ((c : Claims) × (claims_of env public header ≡ some c))
      → (public ≡ true) ⊎ ((c : Claims) × (validate env header ≡ some c))
  authentic true header h = inl refl
  authentic false header h = h

  -- Of a client with a name: its claims and what it came through.
  pub record IsPassed (req : Request) (g : Gateway S) (tag : Option ScoreResponse) (g' : Gateway S)
      : Type 0 where
    pub client_ip : String
    pub resolved : resolve_client_ip req.forwarded_for req.remote_address ≡ ok client_ip
    pub authentic :
        (is_public req.path ≡ true) ⊎ ((c : Claims) × (validate env req.authorization ≡ some c))
    pub screened :
        Screens req client_ip (claims_of env (is_public req.path) req.authorization) g tag g'

  -- A request that the gateway forwards has a public path or a token whose claims are verified; its
  -- client is not on the blocklist at that time; its two rates and its streak are counted in Redis and the
  -- signal built from them is offered to Kafka; and it carries no tag if its path is no high-risk one and
  -- its rate is not above the threshold, and else the answer of the threat engine, or the stand-in for
  -- one that fails, whose decision is not BLOCK.
  pub filter-IsPassed :
      (req : Request) (g g' : Gateway S) (tag : Option ScoreResponse)
      → filter env req g ≡ (ok (forwarded tag), g')
      → IsPassed req g tag g'
  unfolding filter
  filter-IsPassed req g g' tag e =
      let claims = claims_of env (is_public req.path) req.authorization in
      let (ip, r, k) =
        lift-eq-ok (resolve_client_ip req.forwarded_for req.remote_address)
          (admit env (is_public req.path) claims req) g e in
      let (who, h) = admit-forwards (is_public req.path) claims req ip g g' tag k in
      let s = screen-Screens req ip claims g g' tag h in
      record {
        client_ip = ip;
        resolved = r;
        authentic = authentic (is_public req.path) req.authorization who;
        screened = s;
      }
