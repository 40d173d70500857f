-- ===== src/ThreatEngine/Api/Answers.antt =====
-- What the scoring endpoint answers once a model is loaded.
use d_ai_api_sec.Prelude.{◌≡◌, refl, some, List, All, ap}
use d_ai_api_sec.Errors.{ok}
use d_ai_api_sec.Float.{Float}
use d_ai_api_sec.ThreatEngine.Signal.{RequestSignal}
use d_ai_api_sec.ThreatEngine.Signal.Valid.{IsValid}
use d_ai_api_sec.ThreatEngine.Entropy.{IsLog2}
use d_ai_api_sec.ThreatEngine.Anomaly.Exact.{HasPair}
use d_ai_api_sec.ThreatEngine.Features.{extract_features}
use d_ai_api_sec.ThreatEngine.Features.Bounds.{IsSized, extract_features_total}
use d_ai_api_sec.ThreatEngine.Model.{EnsembleThreatModel, Predictor, ScoreResult, IsClip}
use d_ai_api_sec.ThreatEngine.Model as Model
use d_ai_api_sec.ThreatEngine.Model.Scores.{InUnit, Reads, score_bounds}
use d_ai_api_sec.ThreatEngine.Model.Decisions.{Agrees, score-Agrees}
use d_ai_api_sec.ThreatEngine.Api.{ScoreResponse, response_of, require_loaded, score}

-- The response carries the result's values.
abbrev pub result_in : ScoreResponse → ScoreResult
result_in a = record {
  isolation_score = a.isolation_score;
  xgboost_score = a.xgboost_score;
  final_score = a.final_score;
  decision = a.decision;
  reason = a.reason;
}

-- The handler's steps, once each of them returns.
pub score_steps :
    (clip : Float → Float → Float → Float) (log2 : Float → Float) (m : EnsembleThreatModel)
    (s : RequestSignal) (v : List Float) (r : ScoreResult)
    → require_loaded clip log2 m.isolation_forest ≡ ok tt
    → extract_features log2 s ≡ ok v
    → Model.score clip m v ≡ ok r
    → score clip log2 m s ≡ ok (response_of r)
unfolding score
score_steps clip log2 m s v r loaded e run = rw (loaded, e, run) refl

module _ (clip : Float → Float → Float → Float) (clip_laws : IsClip clip) (log2 : Float → Float)
    (log2_laws : IsLog2 log2) where
  -- A signal within the declared bounds, of moderate integers and body and with a pair as the range of
  -- each numeric field, is answered without an exception, if for its vector both loaded artifacts
  -- return a raw score in reach of the score range and a probability; the three scores in the answer
  -- lie between 0.0 and 1.0, and the decision agrees with the final one.
  pub score_answers :
      (m : EnsembleThreatModel) (forest : Predictor) (s : RequestSignal)
      → m.isolation_forest ≡ some forest
      → ((v : List Float)
          → extract_features log2 s ≡ ok v
          → (raw : Float) × (prob : Float) × Reads m v raw prob)
      → IsValid s
      → IsSized s
      → All (HasPair s.baseline_numeric_ranges) s.numeric_fields
      → (a : ScoreResponse) × (score clip log2 m s ≡ ok a)
        × InUnit a.isolation_score
        × InUnit a.xgboost_score
        × InUnit a.final_score
        × Agrees (result_in a)
  score_answers m forest s loaded reads valid sized pairs =
      let (v, e) = extract_features_total log2 log2_laws s valid sized pairs in
      let (raw, prob, h) = reads v e in
      let (r, run, iso, xgb, final) = score_bounds clip clip_laws m v raw prob h in
      (
        response_of r,
        score_steps clip log2 m s v r (ap (require_loaded clip log2) loaded) e run,
        iso,
        xgb,
        final,
        score-Agrees clip clip_laws m v raw prob r h run,
      )
