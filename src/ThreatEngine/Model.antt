-- ===== src/ThreatEngine/Model.antt =====
-- threat-engine/app/model.py: the ensemble of an isolation forest and a gradient-boosted classifier.
-- The two artifacts are parameters: what `decision_function(x)[0]` and `predict_proba(x)[0][1]`
-- return for a vector, or raise. So is numpy's `clip`.
pub mod Load
pub mod Normalize
pub mod Scores
pub mod Decisions
pub mod Both
use d_ai_api_sec.Prelude.{◌≡◌, String, Option, none, some, List, if◌then◌else◌}
use d_ai_api_sec.Prelude.Dict.{Dict}
use d_ai_api_sec.Errors.{Result, ok, err, attribute_error, ◌>>=◌}
use d_ai_api_sec.Float.{Float, minus, add, sub, mul, div, max, dec, le, ◌≼◌, ◌≺◌, round_4}

pub record ScoreResult : Type 0 where
  pub isolation_score : Float
  pub xgboost_score : Float
  pub final_score : Float
  pub decision : String
  pub reason : String

abbrev pub Predictor : Type 0
Predictor = List Float → Result Float

abbrev pub iso_weight : Float
iso_weight = dec 35 2

abbrev pub xgb_weight : Float
xgb_weight = dec 65 2

abbrev pub block_threshold : Float
block_threshold = dec 85 2

abbrev pub challenge_threshold : Float
challenge_threshold = dec 60 2

pub record EnsembleThreatModel : Type 0 where
  pub model_dir : String
  pub isolation_forest : Option Predictor
  pub xgb_model : Option Predictor
  pub iso_score_min : Float
  pub iso_score_max : Float

-- `__init__`
unfoldable pub init : String → EnsembleThreatModel
init dir = record {
  model_dir = dir;
  isolation_forest = none;
  xgb_model = none;
  iso_score_min = minus (dec 5 1);
  iso_score_max = dec 5 1;
}

-- What the model's directory holds: what `joblib.load` returns for each artifact, and the parsed
-- `metadata.json`.
pub record Artifacts : Type 0 where
  pub isolation_forest : Result Predictor
  pub xgboost_model : Result Predictor
  pub metadata : Result (Dict Float)

-- `self.isolation_forest.decision_function(x)`, where the attribute may still be None
abbrev pub predict : Option Predictor → List Float → Result Float
predict none x = err attribute_error
predict (some predictor) x = predictor x

-- The `if` over the thresholds.
unfoldable pub verdict : Float → String × String
verdict final =
    if le block_threshold final
    then ("BLOCK", "High combined anomaly + attack-pattern probability")
    else if le challenge_threshold final
    then ("CHALLENGE", "Elevated risk -- require step-up auth (OTP/CAPTCHA)")
    else ("ALLOW", "Risk within normal operating range")

-- The weighted sum of the two scores.
unfoldable pub combine : Float → Float → Float
combine iso prob = add (mul iso_weight iso) (mul xgb_weight prob)

abbrev pub result_of : Float → Float → ScoreResult
result_of iso prob =
    let final = combine iso prob in
    record {
      isolation_score = round_4 iso;
      xgboost_score = round_4 prob;
      final_score = round_4 final;
      decision = (verdict final).0;
      reason = (verdict final).1;
    }

module _ (clip : Float → Float → Float → Float) where
  -- `np.clip(x, low, high)` returns x inside the interval, and the nearer edge outside.
  pub record IsClip : Type 0 where
    pub below : (x low high : Float) → low ≼ high → x ≺ low → clip x low high ≡ low
    pub inside : (x low high : Float) → low ≼ x → x ≼ high → clip x low high ≡ x
    pub above : (x low high : Float) → low ≼ high → high ≺ x → clip x low high ≡ high

  -- `_normalize_iso`
  unfoldable pub normalize_iso : EnsembleThreatModel → Float → Result Float
  normalize_iso m raw_score = do
    let span = max (sub m.iso_score_max m.iso_score_min) (dec 1 6)
    anomaly ← div (sub m.iso_score_max raw_score) span
    ok (clip anomaly (dec 0 1) (dec 10 1))

  unfoldable pub score : EnsembleThreatModel → List Float → Result ScoreResult
  score m x = do
    raw_iso ← predict m.isolation_forest x
    iso_norm ← normalize_iso m raw_iso
    xgb_prob ← predict m.xgb_model x
    ok (result_of iso_norm xgb_prob)
