-- ===== src/ThreatEngine/Consumer/Alike.antt =====
-- The endpoint and the stream consumer score alike.
use d_ai_api_sec.Prelude.{◌≡◌, refl, List}
use d_ai_api_sec.Json.{Json, object, Fields, item}
use d_ai_api_sec.Errors.{ok, ok-injective, >>=-eq-ok}
use d_ai_api_sec.Float.{Float}
use d_ai_api_sec.ThreatEngine.Signal.{RequestSignal, Arguments, construct}
use d_ai_api_sec.ThreatEngine.Features.{extract_features}
use d_ai_api_sec.ThreatEngine.Model as Model
use d_ai_api_sec.ThreatEngine.Model.{EnsembleThreatModel, ScoreResult}
use d_ai_api_sec.ThreatEngine.Api.{ScoreResponse, response_of, require_loaded}
use d_ai_api_sec.ThreatEngine.Api as Api
use d_ai_api_sec.ThreatEngine.Consumer.{Event, Setting, Scored, event, scoring}

-- The part of an event that the endpoint's answer has as well.
abbrev pub scores_of : Event → ScoreResponse
scores_of e = record {
  isolation_score = e.isolation_score;
  xgboost_score = e.xgboost_score;
  final_score = e.final_score;
  decision = e.decision;
  reason = e.reason;
}

module _ (clip : Float → Float → Float → Float) (log2 : Float → Float) where
  -- An answer of the endpoint comes from a score.
  answered :
      (m : EnsembleThreatModel) (s : RequestSignal) (a : ScoreResponse)
      → Api.score clip log2 m s ≡ ok a
      → (v : List Float) × (r : ScoreResult) × (extract_features log2 s ≡ ok v)
        × (Model.score clip m v ≡ ok r)
        × (response_of r ≡ a)
  unfolding Api.score
  answered m s a e =
      let (_, _, k1) = >>=-eq-ok (require_loaded clip log2 m.isolation_forest) _ e in
      let (v, e2, k2) = >>=-eq-ok (extract_features log2 s) _ k1 in
      let (r, e3, k3) = >>=-eq-ok (Model.score clip m v) _ k2 in (v, r, e2, e3, ok-injective k3)

  -- If the endpoint answers a signal, then a message with that signal is scored by the consumer, and
  -- its event carries the same scores, decision and reason.
  pub scoring-alike :
      (env : Setting) (payload : Fields) (raw : Json) (arguments : Arguments) (s : RequestSignal)
      (a : ScoreResponse)
      → item (object payload) "signal" ≡ ok raw
      → env.read_arguments raw ≡ ok arguments
      → construct arguments ≡ ok s
      → Api.score clip log2 env.model s ≡ ok a
      → (x : Scored) × (scoring clip log2 env (object payload) ≡ ok x) × (scores_of (event x) ≡ a)
  unfolding scoring
  scoring-alike env payload raw arguments s a found read built answer =
      let (v, r, e, run, same) = answered env.model s a answer in
      (
        record { signal = s; result = r; fields = payload },
        rw (found, read, built, e, run) refl,
        same,
      )
