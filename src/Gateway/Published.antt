-- ===== src/Gateway/Published.antt =====
-- What ZeroTrustFilter.filter, of gateway/src/main/java/com/aisecfirewall/gateway/filter, offers to Kafka by
-- KafkaRequestPublisher.publishAsync.
use mathlib.Core.Path.{subst}
use d_ai_api_sec.Prelude.{
  ℕ, ◌≡◌, refl, Bool, true, false, String, Option, none, some, List, [], ◌∷◌, ◌++◌, ap, sym, ◌∙◌,
  ◌⊎◌, inl, inr,
}
use d_ai_api_sec.Errors.{Result, ok, err}
use d_ai_api_sec.Exec.{Exec, pure, lift, bind-ends}
use d_ai_api_sec.ThreatEngine.Api.{ScoreResponse}
use d_ai_api_sec.Gateway.Redis.{blocklist_key, is_blocked, block_immediately}
use d_ai_api_sec.Gateway.Signal.{Claims, RequestSignalDto}
use d_ai_api_sec.Gateway.Admission.{authentic}
use d_ai_api_sec.Gateway.Asked.{HasAccess}
use d_ai_api_sec.Gateway.Address.{resolve_client_ip}
use d_ai_api_sec.Gateway.{
  Request, Envelope, proceed, screen, Gateway, Response, blocked_by_engine, Setting, on_redis,
  is_public, claims_of, measure, signal_of, envelope_of, is_high_risk, enforce, score_if,
  continue_pipeline, unless_blocked, admit, filter, published_if, identity_key,
}

kept_published :
    {S A : Type 0} (m : Exec S A) (g t : Gateway S) (r : Result A)
    → on_redis m g ≡ (r, t)
    → t.published ≡ g.published
kept_published {S} {A} m g t r e = sym (ap (λ (p : Result A × Gateway S). p.1.published) e)

module _ {S : Type 0} (env : Setting S) where
  -- What a run leaves behind in the topic: nothing more, or the one message of the request.
  abbrev Offers : Request → String → List Envelope → Result Response × Gateway S → Type 0
  Offers req ip before (r, g) =
      (g.published ≡ before)
      ⊎ ((signal : RequestSignalDto) × (g.published ≡ before ++ envelope_of env req ip signal ∷ []))

  enforce-keeps :
      (b : Bool) (now : ℕ) (ip : String) (r : ScoreResponse) (g : Gateway S)
      → (enforce env b now ip r g).1.published ≡ g.published
  enforce-keeps true now ip r g =
      let m = block_immediately env.redis env.properties.blocklist_ttl_seconds now ip r.reason in
      bind-ends (λ p. p.1.published ≡ g.published) (on_redis m)
        (λ _. pure (blocked_by_engine r.reason)) g (λ q t e. kept_published m g t (err q) e)
        (λ u t e. kept_published m g t (ok u) e)
  enforce-keeps false now ip r g = refl

  score_if-keeps :
      (b : Bool) (now : ℕ) (ip : String) (signal : RequestSignalDto) (g : Gateway S)
      → (score_if env b now ip signal g).1.published ≡ g.published
  score_if-keeps true now ip signal g = enforce-keeps _ now ip _ g
  score_if-keeps false now ip signal g = refl

  published_if-Offers :
      (r : Result (Unit {0})) (req : Request) (ip : String) (signal : RequestSignalDto)
      (before : List Envelope) (t : Gateway S) (p : Result Response × Gateway S)
      → t.published ≡ before
      → p.1.published ≡ (published_if r (envelope_of env req ip signal) t).published
      → Offers req ip before p
  published_if-Offers (ok _) req ip signal before t p h e =
      inr (signal, e ∙ ap (λ l. l ++ envelope_of env req ip signal ∷ []) h)
  published_if-Offers (err q) req ip signal before t p h e = inl (e ∙ h)

  continue_pipeline-Offers :
      (req : Request) (ip : String) (claims : Option Claims) (g : Gateway S)
      → Offers req ip g.published (continue_pipeline env req ip claims g)
  unfolding continue_pipeline
  continue_pipeline-Offers req ip claims g =
      let m = measure env.redis req.now ip req.path (identity_key ip claims) in
      bind-ends (Offers req ip g.published) (on_redis m) (proceed env req ip claims) g
        (λ q t e. inl (kept_published m g t (err q) e))
        (λ rates t e.
          let signal = signal_of env req claims rates.0 rates.1.0 rates.1.1 in
          let accepted = env.kafka (envelope_of env req ip signal) in
          published_if-Offers accepted req ip signal g.published t
            (proceed env req ip claims rates t) (kept_published m g t (ok rates) e)
            (score_if-keeps (is_high_risk env req.path rates.0) req.now ip signal
              (published_if accepted (envelope_of env req ip signal) t)))

  -- A request adds no message, or one: that of a client with access, which is not on the blocklist.
  pub data Published (req : Request) (g : Gateway S) : Gateway S → Type 0 where
    unpublished : (g' : Gateway S) → g'.published ≡ g.published → Published req g g'
    offered :
        (g' : Gateway S) (ip : String) (signal : RequestSignalDto)
        → resolve_client_ip req.forwarded_for req.remote_address ≡ ok ip
        → HasAccess env req
        → (asked : S) × (env.redis.has_key req.now (blocklist_key ip) g.redis ≡ (ok false, asked))
        → g'.published ≡ g.published ++ envelope_of env req ip signal ∷ []
        → Published req g g'

  by_Offers :
      (req : Request) (ip : String) (g t : Gateway S) (p : Result Response × Gateway S)
      → resolve_client_ip req.forwarded_for req.remote_address ≡ ok ip
      → HasAccess env req
      → env.redis.has_key req.now (blocklist_key ip) g.redis ≡ (ok false, t.redis)
      → t.published ≡ g.published
      → Offers req ip t.published p
      → Published req g p.1
  by_Offers req ip g t (r, g') e h free kept (inl same) = unpublished g' (same ∙ kept)
  by_Offers req ip g t (r, g') e h free kept (inr (signal, more)) =
      offered g' ip signal e h (t.redis, free)
        (more ∙ ap (λ l. l ++ envelope_of env req ip signal ∷ []) kept)

  unless_blocked-Published :
      (b : Bool) (req : Request) (ip : String) (claims : Option Claims) (g t : Gateway S)
      → resolve_client_ip req.forwarded_for req.remote_address ≡ ok ip
      → HasAccess env req
      → env.redis.has_key req.now (blocklist_key ip) g.redis ≡ (ok b, t.redis)
      → t.published ≡ g.published
      → Published req g (unless_blocked env b req ip claims t).1
  unless_blocked-Published true req ip claims g t e h found kept = unpublished t kept
  unless_blocked-Published false req ip claims g t e h free kept =
      by_Offers req ip g t (continue_pipeline env req ip claims t) e h free kept
        (continue_pipeline-Offers req ip claims t)

  screen-Published :
      (req : Request) (ip : String) (claims : Option Claims) (g : Gateway S)
      → resolve_client_ip req.forwarded_for req.remote_address ≡ ok ip
      → HasAccess env req
      → Published req g (screen env req ip claims g).1
  unfolding is_blocked
  screen-Published req ip claims g e h =
      let m = is_blocked env.redis req.now ip in
      bind-ends (λ p. Published req g p.1) (on_redis m) (λ b. unless_blocked env b req ip claims) g
        (λ q t k. unpublished t (kept_published m g t (err q) k))
        (λ b t k.
          unless_blocked-Published b req ip claims g t e h
            (ap {B = Result Bool × S} (λ (p : Result Bool × Gateway S). (p.0, p.1.redis)) k)
            (kept_published m g t (ok b) k))

  admit-Published :
      (public : Bool) (claims : Option Claims) (req : Request) (ip : String) (g : Gateway S)
      → resolve_client_ip req.forwarded_for req.remote_address ≡ ok ip
      → ((public ≡ true) ⊎ ((c : Claims) × (claims ≡ some c)) → HasAccess env req)
      → Published req g (admit env public claims req ip g).1
  admit-Published true claims req ip g e h = screen-Published req ip claims g e (h (inl refl))
  admit-Published false none req ip g e h = unpublished g refl
  admit-Published false (some c) req ip g e h =
      screen-Published req ip (some c) g e (h (inr (c, refl)))

  -- Whatever a request meets and however its handling ends, it adds at most one message to the raw topic,
  -- and adds none if its token is not verified or its client is on the blocklist.
  pub filter-Published : (req : Request) (g : Gateway S) → Published req g (filter env req g).1
  unfolding filter
  filter-Published req g =
      let claims = claims_of env (is_public req.path) req.authorization in
      let m : Exec (Gateway S) String =
        lift (resolve_client_ip req.forwarded_for req.remote_address) in
      bind-ends (λ p. Published req g p.1) m (admit env (is_public req.path) claims req) g
        (λ q t k. unpublished t (sym (ap (λ (p : Result String × Gateway S). p.1.published) k)))
        (λ ip t k.
          let same : g ≡ t = ap {B = Gateway S} (λ (p : Result String × Gateway S). p.1) k in
          let resolved = ap {B = Result String} (λ (p : Result String × Gateway S). p.0) k in
          subst (λ x. Published req g (admit env (is_public req.path) claims req ip x).1) same
            (admit-Published (is_public req.path) claims req ip g resolved
              (authentic env (is_public req.path) req.authorization)))
