-- ===== src/ThreatEngine/Consumer/Blocklist.antt =====
-- What a run writes to the blocklist, whatever Redis and Kafka answer.
use mathlib.Core.Path.{subst}
use package.text.Mathlib.TextLemmas.{append_cancel_left}
use d_ai_api_sec.Prelude.{
  ℕ, ◌+◌, ◌≤◌, ◌≡◌, refl, ◌≢◌, Bool, true, false, ◌&&◌, String, str_eq, eq_iff, List, [], ◌∷◌, ◌++◌,
  length, length-append, All, All-append, arith, ap, ◌∙◌, Bool-cases, inl, inr,
}
use d_ai_api_sec.Json.{Json, text, item}
use d_ai_api_sec.Errors.{Result, ok, err, cancelled, ok-injective, >>=-eq-ok}
use d_ai_api_sec.Exec.{◌>>◌, bind-ok}
use d_ai_api_sec.Float.{Float, le}
use d_ai_api_sec.ThreatEngine.Signal.{construct}
use d_ai_api_sec.ThreatEngine.Features.{extract_features}
use d_ai_api_sec.ThreatEngine.Model.{
  EnsembleThreatModel, ScoreResult, predict, normalize_iso, verdict, result_of, block_threshold,
  challenge_threshold,
}
use d_ai_api_sec.ThreatEngine.Model as Model
use d_ai_api_sec.ThreatEngine.Consumer.{
  Event, SetEx, World, Outcomes, Setting, Scored, client_of, blocks, event, is_known, formatted,
  fields_of, block_if, skip_failure, command, scoring, process, handle, call_send, consume,
}
use d_ai_api_sec.ThreatEngine.Consumer.Message.{skipped, handle_unscored}

abbrev pub block_reason : String
block_reason = "High combined anomaly + attack-pattern probability"

verdict-block : (f : Float) → (verdict f).0 ≡ "BLOCK" → (verdict f).1 ≡ block_reason
unfolding verdict
verdict-block f e = elim (Bool-cases (le block_threshold f)) [
  | inl block ↦ rw block refl
  | inr below ↦ elim (Bool-cases (le challenge_threshold f)) [
    | inl challenge ↦
        let wrong : ◌≡◌ {A = String} "CHALLENGE" "BLOCK" = rw (below, challenge) at e in
        absurd (ground (arith, eq_iff "CHALLENGE" "BLOCK"))
    | inr low ↦
        let wrong : ◌≡◌ {A = String} "ALLOW" "BLOCK" = rw (below, low) at e in
        absurd (ground (arith, eq_iff "ALLOW" "BLOCK"))
  ]
]

score-reason :
    (clip : Float → Float → Float → Float) (m : EnsembleThreatModel) (x : List Float)
    (r : ScoreResult)
    → Model.score clip m x ≡ ok r
    → r.decision ≡ "BLOCK"
    → r.reason ≡ block_reason
unfolding Model.score
score-reason clip m x r e =
    let (x1, e1, k1) = >>=-eq-ok (predict m.isolation_forest x) _ e in
    let (x2, e2, k2) = >>=-eq-ok (normalize_iso clip m x1) _ k1 in
    let (x3, e3, k3) = >>=-eq-ok (predict m.xgb_model x) _ k2 in
    subst (λ q. q.decision ≡ "BLOCK" → q.reason ≡ block_reason) (ok-injective k3)
      (verdict-block (Model.combine x2 x3))

both_true : (a b : Bool) → (a && b) ≡ true → (a ≡ true) × (b ≡ true)
both_true a b h = ground arith

-- An outcome that the inner `except` catches, or none at all.
pub record Caught (o : Outcomes) : Type 0 where
  pub setex : o.setex ≢ err cancelled
  pub send : o.send ≢ err cancelled

module _ (clip : Float → Float → Float → Float) (log2 : Float → Float) (env : Setting) where
  -- A command of this service: it never names the unknown client, it lasts as long as configured, and
  -- it carries the reason of a block.
  pub record IsOurs (c : SetEx) : Type 0 where
    pub key : c.key ≢ "blocklist:unknown"
    pub ttl : c.ttl ≡ env.ttl
    pub value : c.value ≡ block_reason

  -- Python writes no other value as it writes the text "unknown".
  abbrev pub TextsDiffer : Type 0
  TextsDiffer = (v : Json) → env.text_of v ≢ "unknown"

  known-formatted :
      TextsDiffer → (v : Json) → is_known v ≡ true → formatted env.text_of v ≢ "unknown"
  known-formatted differ (text ip) e = ground (arith, eq_iff ip "unknown")
  known-formatted differ Json.null e = differ _
  known-formatted differ v e = differ _

  command-IsOurs :
      (s : Scored) (payload : Json)
      → TextsDiffer
      → scoring clip log2 env payload ≡ ok s
      → blocks s ≡ true
      → IsOurs (command clip log2 env s)
  unfolding scoring
  command-IsOurs s payload differ e b =
      let (x1, e1, k1) = >>=-eq-ok (item payload "signal") _ e in
      let (x2, e2, k2) = >>=-eq-ok (env.read_arguments x1) _ k1 in
      let (x3, e3, k3) = >>=-eq-ok (construct x2) _ k2 in
      let (x4, e4, k4) = >>=-eq-ok (extract_features log2 x3) _ k3 in
      let (x5, e5, k5) = >>=-eq-ok (Model.score clip env.model x4) _ k4 in
      let (x6, e6, k6) = >>=-eq-ok (fields_of payload) _ k5 in
      let (decided, known) =
        both_true (str_eq s.result.decision "BLOCK") (is_known (client_of s)) b in
      let same : x5 ≡ s.result = ap (λ t. t.result) (ok-injective k6) in
      record {
        key = λ k.
            known-formatted differ (client_of s) known
              (append_cancel_left "blocklist:" (formatted env.text_of (client_of s)) "unknown" k);
        ttl = refl;
        value =
            score-reason clip env.model x4 s.result (e5 ∙ ap ok same)
              ((eq_iff s.result.decision "BLOCK").0 decided);
      }

  -- What a step may leave behind a blocklist and an audit topic of n events.
  abbrev Extends : ℕ → World → Type 0
  Extends n w = All IsOurs w.blocklist × (length w.audit ≤ n)

  sent-Extends :
      (r : Result (Unit {0})) (e : Event) (w : World) (n : ℕ)
      → r ≢ err cancelled
      → Extends n w
      → (w' : World) × (skip_failure (call_send r e w) ≡ (ok tt, w')) × Extends (n + 1) w'
  sent-Extends (ok _) e w n h (ours, few) =
      (_, refl, (ours, rw (length-append w.audit (e ∷ [])) (omega arith)))
  sent-Extends (err q) e w n h (ours, few) =
      (w, skipped q w (λ c. h (ap err c)), (ours, omega arith))

  writes-Extends :
      (b : Bool) (r q : Result (Unit {0})) (c : SetEx) (e : Event) (w : World) (n : ℕ)
      → r ≢ err cancelled
      → q ≢ err cancelled
      → (b ≡ true → IsOurs c)
      → Extends n w
      → (w' : World) × (skip_failure ((block_if b r c >> call_send q e) w) ≡ (ok tt, w'))
        × Extends (n + 1) w'
  writes-Extends false r q c e w n hr hq ours h = sent-Extends q e w n hq h
  writes-Extends true (ok _) q c e w n hr hq ours (all, few) =
      sent-Extends q e (record { blocklist = w.blocklist ++ c ∷ []; audit = w.audit }) n hq
        (All-append IsOurs w.blocklist (c ∷ []) all (ours refl, tt), few)
  writes-Extends true (err x) q c e w n hr hq ours (all, few) =
      (w, skipped x w (λ k. hr (ap err k)), (all, omega arith))

  -- No step of the scoring is a cancellation point.
  abbrev pub Survivable : Outcomes × Json → Type 0
  Survivable m = Caught m.0 × (scoring clip log2 env m.1 ≢ err cancelled)

  handle-Extends :
      (m : Outcomes × Json) (w : World) (n : ℕ)
      → TextsDiffer
      → Survivable m
      → Extends n w
      → (w' : World) × (handle clip log2 env m.0 m.1 w ≡ (ok tt, w')) × Extends (n + 1) w'
  unfolding handle process
  handle-Extends (o, payload) w n differ (caught, steady) h =
      by_score (scoring clip log2 env payload) refl
    where
      by_score :
          (r : Result Scored)
          → scoring clip log2 env payload ≡ r
          → (w' : World) × (handle clip log2 env o payload w ≡ (ok tt, w')) × Extends (n + 1) w'
      by_score (ok s) e =
          let (w', k, x) =
            writes-Extends (blocks s) o.setex o.send (command clip log2 env s) (event s) w n
              caught.setex caught.send (command-IsOurs s payload differ e) h in
          (w', rw e k, x)
      by_score (err q) e = (
        w,
        handle_unscored clip log2 env o payload q w e (λ c. steady (e ∙ ap err c)),
        (h.0, omega arith),
      )

  consume-Extends :
      (messages : List (Outcomes × Json)) (w : World) (n : ℕ)
      → TextsDiffer
      → All Survivable messages
      → Extends n w
      → (w' : World) × (consume clip log2 env messages w ≡ (ok tt, w'))
        × Extends (n + length messages) w'
  unfolding consume
  consume-Extends [] w n differ hs h = (w, refl, (h.0, omega arith))
  consume-Extends ((o, payload) ∷ messages) w n differ (s, hs) h =
      let (v, e, x) = handle-Extends (o, payload) w n differ s h in
      let (w', k, (all, few)) = consume-Extends messages v (n + 1) differ hs x in
      (
        w',
        bind-ok (handle clip log2 env o payload) (λ _. consume clip log2 env messages) w e ∙ k,
        (all, omega arith),
      )

  -- Whatever Redis and Kafka answer to the calls of a run, a cancellation aside, and whatever the
  -- messages are, the loop gets through them all: at the end every command of the blocklist is this
  -- service's (a client that is not "unknown", the configured time to live, the reason of a BLOCK),
  -- and there is at most one new event for each message. Python is taken to write no value that is
  -- not a text as "unknown".
  pub consume_survives :
      (messages : List (Outcomes × Json)) (w : World)
      → TextsDiffer
      → All Survivable messages
      → All IsOurs w.blocklist
      → (w' : World) × (consume clip log2 env messages w ≡ (ok tt, w'))
        × (All IsOurs w'.blocklist × (length w'.audit ≤ length w.audit + length messages))
  consume_survives messages w differ hs ours =
      consume-Extends messages w (length w.audit) differ hs (ours, omega arith)
