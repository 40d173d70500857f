-- ===== src/ThreatEngine/Model/Load.antt =====
-- `EnsembleThreatModel.load`, which sets the attributes one by one.
use mathlib.Core.Path.{subst}
use d_ai_api_sec.Prelude.{◌≡◌, refl, ap, Option, none, some}
use d_ai_api_sec.Prelude.Dict.{Dict, lookup}
use d_ai_api_sec.Errors.{Error, Result, ok, err, key_error, or_raise}
use d_ai_api_sec.Exec.{Exec, lift, modify, err-ne-ok, ◌>>=◌, ◌>>◌}
use d_ai_api_sec.Float.{Float}
use d_ai_api_sec.ThreatEngine.Model.{EnsembleThreatModel, Predictor, Artifacts}

unfoldable pub load : Artifacts → Exec EnsembleThreatModel Unit
load files = do
  forest ← lift files.isolation_forest
  modify (λ m. record m { isolation_forest = some forest })
  xgb ← lift files.xgboost_model
  modify (λ m. record m { xgb_model = some xgb })
  meta ← lift files.metadata
  low ← lift (or_raise (lookup "iso_score_min" meta) key_error)
  modify (λ m. record m { iso_score_min = low })
  high ← lift (or_raise (lookup "iso_score_max" meta) key_error)
  modify (λ m. record m { iso_score_max = high })

-- After a load that returns, both artifacts and both ends of the score range are those of the files.
pub record IsLoaded (files : Artifacts) (m : EnsembleThreatModel) : Type 0 where
  pub forest : Predictor
  pub xgb : Predictor
  pub meta : Dict Float
  pub forest_file : files.isolation_forest ≡ ok forest
  pub xgb_file : files.xgboost_model ≡ ok xgb
  pub meta_file : files.metadata ≡ ok meta
  pub forest_set : m.isolation_forest ≡ some forest
  pub xgb_set : m.xgb_model ≡ some xgb
  pub min_set : lookup "iso_score_min" meta ≡ some m.iso_score_min
  pub max_set : lookup "iso_score_max" meta ≡ some m.iso_score_max

abbrev files_of : Result Predictor → Result Predictor → Result (Dict Float) → Artifacts
files_of f x d = record { isolation_forest = f; xgboost_model = x; metadata = d }

-- The last steps, given what the dict holds.
finish-IsLoaded :
    (f x : Predictor) (d : Dict Float) (m m' : EnsembleThreatModel) (low high : Option Float)
    → lookup "iso_score_min" d ≡ low
    → lookup "iso_score_max" d ≡ high
    → load (files_of (ok f) (ok x) (ok d)) m ≡ (ok tt, m')
    → IsLoaded (files_of (ok f) (ok x) (ok d)) m'
unfolding load
finish-IsLoaded f x d m m' none high el eh e = let raised = rw el at e in cc (ap (λ p. p.0) raised)
finish-IsLoaded f x d m m' (some low) none el eh e =
    let raised = rw (el, eh) at e in cc (ap (λ p. p.0) raised)
finish-IsLoaded f x d m m' (some low) (some high) el eh e =
    let done = rw (el, eh) at e in
    subst (IsLoaded (files_of (ok f) (ok x) (ok d))) (ap (λ p. p.1) done) record {
      forest = f;
      xgb = x;
      meta = d;
      forest_file = refl;
      xgb_file = refl;
      meta_file = refl;
      forest_set = refl;
      xgb_set = refl;
      min_set = el;
      max_set = eh;
    }

files-IsLoaded :
    (f x : Result Predictor) (d : Result (Dict Float)) (m m' : EnsembleThreatModel)
    → load (files_of f x d) m ≡ (ok tt, m')
    → IsLoaded (files_of f x d) m'
unfolding load
files-IsLoaded (ok f) (ok x) (ok d) m m' e = finish-IsLoaded f x d m m' _ _ refl refl e
files-IsLoaded (ok f) (ok x) (err q) m m' e = absurd (err-ne-ok q tt _ m' e)
files-IsLoaded (ok f) (err q) d m m' e = absurd (err-ne-ok q tt _ m' e)
files-IsLoaded (err q) x d m m' e = absurd (err-ne-ok q tt _ m' e)

-- A load that returns leaves both artifacts and both ends of the score range as the files hold them.
pub load-IsLoaded :
    (files : Artifacts) (m m' : EnsembleThreatModel)
    → load files m ≡ (ok tt, m')
    → IsLoaded files m'
load-IsLoaded files m m' e =
    files-IsLoaded files.isolation_forest files.xgboost_model files.metadata m m' e

-- If the isolation forest can be read and the classifier cannot, the load raises what reading the
-- classifier raised and leaves a model with a forest and with the former classifier.
load_partial :
    (files : Artifacts) (m : EnsembleThreatModel) (forest : Predictor) (q : Error)
    → files.isolation_forest ≡ ok forest
    → files.xgboost_model ≡ err q
    → load files m ≡ (err q, record m { isolation_forest = some forest })
unfolding load
load_partial files m forest q f x = rw (f, x)
