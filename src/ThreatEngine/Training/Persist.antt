-- ===== src/ThreatEngine/Training/Persist.antt =====
-- What `EnsembleThreatModel.load` finds behind a training run that returned.
use d_ai_api_sec.Prelude.{◌≡◌, ◌⊎◌, false, Option, none, some, List, [], ◌∷◌, map, All, Any}
use d_ai_api_sec.Prelude.Int.{pos, ◌*ℤ◌}
use d_ai_api_sec.Prelude.Dict.{Dict}
use d_ai_api_sec.Errors.{Result, ok, err, file_error, or_raise}
use d_ai_api_sec.Json.{number, integer, Fields, end, field}
use d_ai_api_sec.Float.{Float, unit, of_ratio, le, ◌≼◌}
use d_ai_api_sec.ThreatEngine.Model.{EnsembleThreatModel, Predictor, Artifacts}
use d_ai_api_sec.ThreatEngine.Training.{Rng}
use d_ai_api_sec.ThreatEngine.Training.Fit.{
  Row, Models, decisions, benign_rows, generate_dataset, pos_weight,
}

-- The numbers among the entries of a JSON object.
abbrev pub numbers : Fields → Dict Float
numbers end = []
numbers (field k (number x) rest) = (k, x) ∷ numbers rest
numbers (field k (integer n) rest) = (k, of_ratio (n *ℤ pos unit) 1) ∷ numbers rest
numbers (field k value rest) = numbers rest

abbrev pub metadata_in : Option Fields → Result (Dict Float)
metadata_in none = err file_error
metadata_in (some fields) = ok (numbers fields)

-- The directory as a load reads it.
abbrev pub files_in : Models → Artifacts
files_in m = record {
  isolation_forest = or_raise m.isolation_forest file_error;
  xgboost_model = or_raise m.xgboost_model file_error;
  metadata = metadata_in m.metadata;
}

abbrev pub Spans : Float → Float → List Float → Type 0
Spans low high scores = All (λ s. (low ≼ s) × (s ≼ high)) scores

module _ (clip : Float → Float → Float → Float) (rng : Rng) (sample : List Row → List Row)
    (train_test_split : List Row → Result (List Row × List Row))
    (fit_forest : List (List Float) → Result Predictor)
    (fit_xgb : Float → List Row → Result Predictor)
    (evaluate : Predictor → List Row → Result (Unit {0})) where
  -- What a run that returned went through: the data and their split, both fits on the training part, and
  -- what is loaded of them.
  pub record Trained (training : List Row) (loaded : EnsembleThreatModel) : Type 0 where
    pub data_set : List Row
    pub held_out : List Row
    pub generated :
        generate_dataset clip rng sample train_test_split fit_forest fit_xgb evaluate 6000 900 600
        ≡ ok data_set
    pub parted : train_test_split data_set ≡ ok (training, held_out)
    pub weight : Float
    pub weighted : pos_weight training ≡ ok weight
    pub forest : Predictor
    pub xgb : Predictor
    pub scores : List Float
    pub fitted_xgb : fit_xgb weight training ≡ ok xgb
    pub fitted : fit_forest (map (λ (r : Row). r.features) (benign_rows training)) ≡ ok forest
    pub forest_loaded : loaded.isolation_forest ≡ some forest
    pub xgb_loaded : loaded.xgb_model ≡ some xgb
    pub scored : decisions forest training ≡ ok scores
    pub ranges :
        Spans loaded.iso_score_min loaded.iso_score_max scores ⊎ Any (λ s. le s s ≡ false) scores
