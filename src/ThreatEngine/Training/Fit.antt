-- ===== src/ThreatEngine/Training/Fit.antt =====
-- `generate_dataset` and `main` of threat-engine/train/train_model.py, and what a load finds behind
-- them. The train and test split, the two fits and the evaluation are parameters.
use d_ai_api_sec.Prelude.{
  ℕ, zero, suc, Bool, true, false, ◌&&◌, String, Option, some, List, [], ◌∷◌, ◌++◌, map, length,
  if◌then◌else◌,
}
use d_ai_api_sec.Prelude.Int.{pos, ◌*ℤ◌}
use d_ai_api_sec.Prelude.Dict.{lookup}
use d_ai_api_sec.Errors.{Result, ok, err, key_error, value_error, file_error, or_raise}
use d_ai_api_sec.Errors as Errors
use d_ai_api_sec.Exec.{Exec, lift, modify, ◌>>=◌, ◌>>◌}
use d_ai_api_sec.Json.{text, number, integer, array, Items, nil, cons, Fields, end, field}
use d_ai_api_sec.Float.{Float, nan, unit, of_ratio, le, nought, is_zero, dec, min, max, true_div}
use d_ai_api_sec.ThreatEngine.Features.{feature_order}
use d_ai_api_sec.ThreatEngine.Model.{Predictor}
use d_ai_api_sec.ThreatEngine.Training.{
  Rng, Column, floats, ints, Frame, benign, credential_stuffing, business_logic_abuse,
}

-- One row of `X` and `y`.
pub record Row : Type 0 where
  pub features : List Float
  pub label : Float

-- `values` of a column, as float64
abbrev pub cells : Column → List Float
cells (floats xs) = xs
cells (ints ns) = map (λ n. of_ratio (n *ℤ pos unit) 1) ns

-- `df[names]`
abbrev pub select : List String → Frame → Result (List Column)
select [] frame = ok []
select (name ∷ names) frame =
    Errors.◌>>=◌ (or_raise (lookup name frame) key_error)
      λ column. Errors.◌>>=◌ (select names frame) λ columns. ok (column ∷ columns)

-- The columns read row by row.
abbrev pub heads : List (List Float) → List Float
heads [] = []
heads ([] ∷ columns) = heads columns
heads ((x ∷ xs) ∷ columns) = x ∷ heads columns

abbrev pub tails : List (List Float) → List (List Float)
tails [] = []
tails ([] ∷ columns) = [] ∷ tails columns
tails ((x ∷ xs) ∷ columns) = xs ∷ tails columns

abbrev pub zip_rows : List (List Float) → List Float → List Row
zip_rows columns [] = []
zip_rows columns (l ∷ labels) =
    record { features = heads columns; label = l } ∷ zip_rows (tails columns) labels

unfoldable pub rows : Frame → Result (List Row)
rows frame = Errors.◌>>=◌ (select feature_order frame) λ columns.
    Errors.◌>>=◌ (or_raise (lookup "label" frame) key_error)
      λ labels. ok (zip_rows (map cells columns) (cells labels))

abbrev pub keep_if : Bool → Row → List Row → List Row
keep_if true r rest = r ∷ rest
keep_if false r rest = rest

-- `X_train[benign_mask]`
abbrev pub benign_rows : List Row → List Row
benign_rows [] = []
benign_rows (r ∷ training) = keep_if (is_zero r.label) r (benign_rows training)

-- `(y_train == label).sum()`
abbrev pub count_label : Float → List Row → ℕ
count_label label [] = 0
count_label label (r ∷ training) =
    let rest = count_label label training in
    if le r.label label && le label r.label then suc rest else rest

-- `(y_train == 0).sum() / max((y_train == 1).sum(), 1)`
abbrev pub at_least_one : ℕ → ℕ
at_least_one zero = 1
at_least_one (suc n) = suc n

unfoldable pub pos_weight : List Row → Result Float
pos_weight training =
    true_div (count_label nought training) (at_least_one (count_label (dec 1 0) training))

-- `iso.decision_function(X_train)`
abbrev pub decisions : Predictor → List Row → Result (List Float)
decisions forest [] = ok []
decisions forest (r ∷ training) =
    Errors.◌>>=◌ (forest r.features) λ s. Errors.◌>>=◌ (decisions forest training) λ ss. ok (s ∷ ss)

-- numpy's `min` and `max` of two numbers: a NaN is passed on.
abbrev pub least : Float → Float → Float
least x y = if le x x && le y y then min x y else nan

abbrev pub greatest : Float → Float → Float
greatest x y = if le x x && le y y then max x y else nan

abbrev pub np_min : List Float → Result Float
np_min [] = err value_error
np_min (x ∷ []) = ok x
np_min (x ∷ xs) = Errors.◌>>=◌ (np_min xs) λ m. ok (least x m)

abbrev pub np_max : List Float → Result Float
np_max [] = err value_error
np_max (x ∷ []) = ok x
np_max (x ∷ xs) = Errors.◌>>=◌ (np_max xs) λ m. ok (greatest x m)

-- The model directory: the artifacts written so far.
pub record Models : Type 0 where
  pub isolation_forest : Option Predictor
  pub xgboost_model : Option Predictor
  pub metadata : Option Fields

abbrev pub items : List String → Items
items [] = nil
items (name ∷ names) = cons (text name) (items names)

abbrev pub metadata_of : Float → Float → ℕ → Fields
metadata_of low high trained_rows = field "feature_order" (array (items feature_order)) (
    field "iso_score_min" (number low)
      (field "iso_score_max" (number high) (field "trained_rows" (integer (pos trained_rows)) end)))

-- What a run has computed before it writes anything.
pub record Fitted : Type 0 where
  pub training : List Row
  pub forest : Predictor
  pub scores : List Float
  pub xgb : Predictor
  pub trained_rows : ℕ

abbrev pub write_metadata : Fitted → Float → Float → Exec Models Unit
write_metadata f low high =
    modify (λ m. record m { metadata = some (metadata_of low high f.trained_rows) })

-- The last part of `main`: the range of the scores is computed once both models are written.
abbrev pub persist : Fitted → Exec Models Unit
persist f = do
  modify (λ m. record m { isolation_forest = some f.forest })
  modify (λ m. record m { xgboost_model = some f.xgb })
  low ← lift (np_min f.scores)
  high ← lift (np_max f.scores)
  write_metadata f low high

module _ (clip : Float → Float → Float → Float) (rng : Rng) (sample : List Row → List Row)
    (train_test_split : List Row → Result (List Row × List Row))
    (fit_forest : List (List Float) → Result Predictor)
    (fit_xgb : Float → List Row → Result Predictor)
    (evaluate : Predictor → List Row → Result (Unit {0})) where
  -- The generators draw one after the other, twelve draws each.
  unfoldable pub generate_dataset : ℕ → ℕ → ℕ → Result (List Row)
  generate_dataset n_benign n_stuffing n_abuse =
      Errors.◌>>=◌ (rows (benign clip rng 0 n_benign)) λ a.
        Errors.◌>>=◌ (rows (credential_stuffing clip rng 12 n_stuffing)) λ b.
          Errors.◌>>=◌ (rows (business_logic_abuse clip rng 24 n_abuse))
            λ c. ok (sample (a ++ b ++ c))

  -- `main` up to the evaluation, which prints.
  unfoldable pub fit : Result Fitted
  fit = Errors.◌>>=◌ (generate_dataset 6000 900 600) λ df.
      Errors.◌>>=◌ (train_test_split df) λ parts.
        Errors.◌>>=◌ (fit_forest (map (λ (r : Row). r.features) (benign_rows parts.0))) λ iso.
          Errors.◌>>=◌ (decisions iso parts.0) λ iso_scores_train.
            Errors.◌>>=◌ (pos_weight parts.0) λ weight. Errors.◌>>=◌ (fit_xgb weight parts.0) λ xgb.
              Errors.◌>>=◌ (evaluate xgb parts.1) λ _. ok record {
                training = parts.0;
                forest = iso;
                scores = iso_scores_train;
                xgb = xgb;
                trained_rows = length df;
              }

  unfoldable pub main : Exec Models Unit
  main = lift fit >>= persist
