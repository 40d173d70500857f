-- ===== src/Pipeline/Trail.antt =====
-- What the messages that threat-engine/app/kafka_consumer.py takes come to, by the endings of its calls.
use mathlib.Core.List.{append-nil, append_assoc}
use d_ai_api_sec.Prelude.{◌≡◌, refl, String, List, [], ◌∷◌, ◌++◌, ap, sym, ◌∙◌}
use d_ai_api_sec.Errors.{Result, ok}
use d_ai_api_sec.ThreatEngine.Consumer.{Event, SetEx, Outcomes, Scored, scoring}
use d_ai_api_sec.Gateway.Signal.{RequestSignalDto}
use d_ai_api_sec.Gateway.Asked.{HasAccess}
use d_ai_api_sec.Gateway.Address.{resolve_client_ip}
use d_ai_api_sec.Gateway.{Request, Envelope, envelope_of}
use d_ai_api_sec.Pipeline.{Setup, envelopes}
use d_ai_api_sec.ThreatEngine.Consumer.Written.{event_added, command_added}

pub envelopes-append :
    (l : List (Envelope × Outcomes)) (e : Envelope) (o : Outcomes)
    → envelopes (l ++ (e, o) ∷ []) ≡ envelopes l ++ e ∷ []
envelopes-append [] e o = refl
envelopes-append ((d, p) ∷ l) e o = ap (λ r. d ∷ r) (envelopes-append l e o)

module _ {S : Type 0} (x : Setup S) where
  -- A message that the gateway made for a request with access.
  pub record IsOffered (e : Envelope) : Type 0 where
    pub request : Request
    pub client_ip : String
    pub signal : RequestSignalDto
    pub same : e ≡ envelope_of x.gateway request client_ip signal
    pub resolved : resolve_client_ip request.forwarded_for request.remote_address ≡ ok client_ip
    pub access : HasAccess x.gateway request

  abbrev pub score_of : Envelope → Result Scored
  score_of e = scoring x.clip x.log2 x.consumer (x.payload_of e)

  -- The events and the commands that messages come to, in their order, by the endings of the calls.
  abbrev pub events_of : List (Envelope × Outcomes) → List Event
  events_of [] = []
  events_of ((e, o) ∷ rest) = event_added o (score_of e) ++ events_of rest

  abbrev pub commands_of : List (Envelope × Outcomes) → List SetEx
  commands_of [] = []
  commands_of ((e, o) ∷ rest) =
      command_added x.clip x.log2 x.consumer o (score_of e) ++ commands_of rest

  pub events_of-append :
      (l : List (Envelope × Outcomes)) (e : Envelope) (o : Outcomes)
      → events_of (l ++ (e, o) ∷ []) ≡ events_of l ++ event_added o (score_of e)
  events_of-append [] e o = append-nil (event_added o (score_of e))
  events_of-append ((d, p) ∷ l) e o =
      ap (λ r. event_added p (score_of d) ++ r) (events_of-append l e o)
      ∙ sym (append_assoc (event_added p (score_of d)) (events_of l) (event_added o (score_of e)))

  pub commands_of-append :
      (l : List (Envelope × Outcomes)) (e : Envelope) (o : Outcomes)
      → commands_of (l ++ (e, o) ∷ [])
        ≡ commands_of l ++ command_added x.clip x.log2 x.consumer o (score_of e)
  commands_of-append [] e o = append-nil (command_added x.clip x.log2 x.consumer o (score_of e))
  commands_of-append ((d, p) ∷ l) e o =
      ap (λ r. command_added x.clip x.log2 x.consumer p (score_of d) ++ r)
        (commands_of-append l e o)
      ∙ sym (
          append_assoc (command_added x.clip x.log2 x.consumer p (score_of d)) (commands_of l)
            (command_added x.clip x.log2 x.consumer o (score_of e)))
