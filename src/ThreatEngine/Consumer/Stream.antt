-- ===== src/ThreatEngine/Consumer/Stream.antt =====
-- A run of the loop over a stream of messages.
use d_ai_api_sec.Prelude.{
  ◌≡◌, refl, ◌≢◌, Bool, true, false, List, [], ◌∷◌, ◌++◌, All, if◌then◌else◌, ap, sym, ◌∙◌,
}
use mathlib.Core.List.{append-nil, append_assoc}
use mathlib.Core.Path.{ap₂}
use d_ai_api_sec.Json.{Json}
use d_ai_api_sec.Errors.{Result, ok, err, cancelled}
use d_ai_api_sec.Exec.{bind-ok}
use d_ai_api_sec.Float.{Float}
use d_ai_api_sec.ThreatEngine.Consumer.{
  Event, SetEx, World, Outcomes, Setting, Scored, blocks, event, command, scoring, handle, consume,
}
use d_ai_api_sec.ThreatEngine.Consumer.Message.{handle_unscored, handle_accepted}

abbrev pub accepted : Outcomes
accepted = record { setex = ok tt; send = ok tt }

-- The messages of a run in which every call is accepted.
abbrev pub accepted_run : List Json → List (Outcomes × Json)
accepted_run [] = []
accepted_run (p ∷ payloads) = (accepted, p) ∷ accepted_run payloads

abbrev pub events_from : Result Scored → List Event
events_from (ok s) = event s ∷ []
events_from (err e) = []

append_if :
    (b : Bool) (c : SetEx) (l : List SetEx)
    → (if b then l ++ c ∷ [] else l) ≡ l ++ (if b then c ∷ [] else [])
append_if true c l = refl
append_if false c l = sym (append-nil l)

module _ (clip : Float → Float → Float → Float) (log2 : Float → Float) (env : Setting) where
  abbrev pub commands_from : Result Scored → List SetEx
  commands_from (ok s) = if blocks s then command clip log2 env s ∷ [] else []
  commands_from (err e) = []

  -- The events of the messages that can be scored, in order.
  abbrev pub events : List Json → List Event
  events [] = []
  events (p ∷ payloads) = events_from (scoring clip log2 env p) ++ events payloads

  -- The commands of those among them that are to be blocked, in order.
  abbrev pub commands : List Json → List SetEx
  commands [] = []
  commands (p ∷ payloads) = commands_from (scoring clip log2 env p) ++ commands payloads

  -- No step of the scoring is a cancellation point.
  abbrev pub Scorable : Json → Type 0
  Scorable p = scoring clip log2 env p ≢ err cancelled

  handle-accepted :
      (p : Json) (w : World)
      → Scorable p
      → handle clip log2 env accepted p w ≡ (
        ok tt,
        record {
          blocklist = w.blocklist ++ commands_from (scoring clip log2 env p);
          audit = w.audit ++ events_from (scoring clip log2 env p);
        },
      )
  handle-accepted p w h = by_score (scoring clip log2 env p) refl
    where
      by_score :
          (r : Result Scored)
          → scoring clip log2 env p ≡ r
          → handle clip log2 env accepted p w ≡ (
            ok tt,
            record { blocklist = w.blocklist ++ commands_from r; audit = w.audit ++ events_from r },
          )
      by_score (ok s) e =
          handle_accepted clip log2 env p s w e
          ∙ ap (λ l. (ok tt, record { blocklist = l; audit = w.audit ++ event s ∷ [] }))
              (append_if (blocks s) (command clip log2 env s) w.blocklist)
      by_score (err q) e =
          handle_unscored clip log2 env accepted p q w e (λ c. h (e ∙ ap err c))
          ∙ ap₂ (λ l k. (ok tt, record { blocklist = l; audit = k })) (sym (append-nil w.blocklist))
              (sym (append-nil w.audit))

  -- If Redis and Kafka accept everything and no scoring is cancelled, a run over any messages adds to the audit topic the events
  -- of those that can be scored and to the blocklist the commands of those to be blocked, each in the
  -- order of the messages, and goes on behind every message that cannot be scored.
  pub consume_accepted :
      (payloads : List Json) (w : World)
      → All Scorable payloads
      → consume clip log2 env (accepted_run payloads) w ≡ (
        ok tt,
        record { blocklist = w.blocklist ++ commands payloads; audit = w.audit ++ events payloads },
      )
  unfolding consume
  consume_accepted [] w h =
      ap₂ (λ l k. (ok tt, record { blocklist = l; audit = k })) (sym (append-nil w.blocklist))
        (sym (append-nil w.audit))
  consume_accepted (p ∷ payloads) w (h, hs) =
      bind-ok (handle clip log2 env accepted p) (λ _. consume clip log2 env (accepted_run payloads))
        w (handle-accepted p w h)
      ∙ consume_accepted payloads _ hs
      ∙ ap₂ (λ l k. (ok tt, record { blocklist = l; audit = k }))
          (append_assoc w.blocklist (commands_from (scoring clip log2 env p)) (commands payloads))
          (append_assoc w.audit (events_from (scoring clip log2 env p)) (events payloads))
