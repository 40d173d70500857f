-- ===== src/ThreatEngine/Consumer/Written.antt =====
-- One message of threat-engine/app/kafka_consumer.py: exactly what its handling adds to the audit topic and
-- to Redis, however the two calls end.
use mathlib.Core.List.{append-nil}
use d_ai_api_sec.Prelude.{◌≡◌, refl, Bool, true, false, ◌&&◌, List, [], ◌∷◌, ◌++◌, ap, sym, ◌∙◌}
use d_ai_api_sec.Json.{Json}
use d_ai_api_sec.Errors.{Result, ok, err, cancelled}
use d_ai_api_sec.Exec.{lift, ◌>>◌, ◌>>=◌}
use d_ai_api_sec.Float.{Float}
use d_ai_api_sec.ThreatEngine.Consumer.{
  Event, SetEx, World, Outcomes, Scored, event, blocks, command, block_if, skip_failure, scoring,
  process, writes, handle, call_send,
}
use d_ai_api_sec.ThreatEngine.Consumer as Consumer

abbrev pub is_ok : {A : Type 0} → Result A → Bool
is_ok (ok a) = true
is_ok (err e) = false

-- Whether the write to Redis lets the sending happen.
abbrev pub goes_on : Bool → Result (Unit {0}) → Bool
goes_on true setex = is_ok setex
goes_on false setex = true

abbrev pub only_if : {A : Type 0} → Bool → A → List A
only_if true a = a ∷ []
only_if false a = []

-- The event of a scored message, if neither call fails.
abbrev pub event_added : Outcomes → Result Scored → List Event
event_added o (err e) = []
event_added o (ok s) = only_if (goes_on (blocks s) o.setex && is_ok o.send) (event s)

-- Skipping changes no state.
skip_failure-keeps : (p : Result (Unit {0}) × World) → (skip_failure p).1 ≡ p.1
skip_failure-keeps (ok _, w) = refl
skip_failure-keeps (err cancelled, w) = refl
skip_failure-keeps (err q, w) = refl

-- What a world has more than another.
abbrev Grown : World → World → List SetEx → List Event → Type 0
Grown w w' commands events =
    (w'.blocklist ≡ w.blocklist ++ commands) × (w'.audit ≡ w.audit ++ events)

unwritten : (w : World) → Grown w w [] []
unwritten w = (sym (append-nil w.blocklist), sym (append-nil w.audit))

writes-Grown :
    (b : Bool) (r q : Result (Unit {0})) (c : SetEx) (e : Event) (w : World)
    → Grown w
        ((block_if b r c >> call_send q e) w).1
        (only_if (b && is_ok r) c)
        (only_if (goes_on b r && is_ok q) e)
writes-Grown true (ok _) (ok _) c e w = (refl, refl)
writes-Grown true (ok _) (err x) c e w = (refl, sym (append-nil w.audit))
writes-Grown true (err x) q c e w = unwritten w
writes-Grown false r (ok _) c e w = (sym (append-nil w.blocklist), refl)
writes-Grown false r (err x) c e w = unwritten w

module _ (clip : Float → Float → Float → Float) (log2 : Float → Float)
    (env : Consumer.Setting) where
  -- The command of a scored message whose client is to be blocked, if Redis accepts it.
  abbrev pub command_added : Outcomes → Result Scored → List SetEx
  command_added o (err e) = []
  command_added o (ok s) = only_if (blocks s && is_ok o.setex) (command clip log2 env s)

  by_score :
      (o : Outcomes) (r : Result Scored) (w : World)
      → Grown w ((lift r >>= writes clip log2 env o) w).1 (command_added o r) (event_added o r)
  by_score o (err e) w = unwritten w
  by_score o (ok s) w = writes-Grown (blocks s) o.setex o.send (command clip log2 env s) (event s) w

  -- Handling a message appends its command and its event, each if the calls up to it are accepted.
  pub handle-writes :
      (o : Outcomes) (payload : Json) (w : World)
      → ((handle clip log2 env o payload w).1.blocklist
          ≡ w.blocklist ++ command_added o (scoring clip log2 env payload))
        × ((handle clip log2 env o payload w).1.audit
            ≡ w.audit ++ event_added o (scoring clip log2 env payload))
  unfolding handle process
  handle-writes o payload w =
      let kept = skip_failure-keeps (process clip log2 env o payload w) in
      let (commands, events) = by_score o (scoring clip log2 env payload) w in
      (ap (λ v. v.blocklist) kept ∙ commands, ap (λ v. v.audit) kept ∙ events)
