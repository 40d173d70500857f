-- ===== src/ThreatEngine/Api.antt =====
-- threat-engine/app/main.py: the HTTP endpoints and the application's lifespan.
pub mod Ready
pub mod Answers
use d_ai_api_sec.Prelude.{◌≡◌, refl, Bool, true, false, String, Option, none, some, List}
use d_ai_api_sec.Errors.{Result, ok, err, http_error, ◌>>=◌, ◌>>◌}
use d_ai_api_sec.Float.{Float}
use d_ai_api_sec.ThreatEngine.Signal.{RequestSignal}
use d_ai_api_sec.ThreatEngine.Features.{extract_features}
use d_ai_api_sec.ThreatEngine.Model.{EnsembleThreatModel, Predictor, ScoreResult, Artifacts, init}
use d_ai_api_sec.ThreatEngine.Model as Model
use d_ai_api_sec.ThreatEngine.Model.Load.{load}

pub record ScoreResponse : Type 0 where
  pub isolation_score : Float
  pub xgboost_score : Float
  pub final_score : Float
  pub decision : String
  pub reason : String

pub record Health : Type 0 where
  pub status : String
  pub model_loaded : Bool

-- `x is not None`
abbrev pub is_some {ℓ} : {A : Type ℓ} → Option A → Bool
is_some none = false
is_some (some a) = true

unfoldable pub health : EnsembleThreatModel → Health
health m = record { status = "ok"; model_loaded = is_some m.isolation_forest }

-- `ScoreResponse(**result.__dict__)`
abbrev pub response_of : ScoreResult → ScoreResponse
response_of r = record {
  isolation_score = r.isolation_score;
  xgboost_score = r.xgboost_score;
  final_score = r.final_score;
  decision = r.decision;
  reason = r.reason;
}

module _ (clip : Float → Float → Float → Float) (log2 : Float → Float) where
  -- The handler's guard, on the attribute that it tests.
  abbrev pub require_loaded : Option Predictor → Result (Unit {0})
  require_loaded none = err (http_error 503)
  require_loaded (some forest) = ok tt

  unfoldable pub score : EnsembleThreatModel → RequestSignal → Result ScoreResponse
  score m signal = do
    require_loaded m.isolation_forest
    vector ← extract_features log2 signal
    result ← Model.score clip m vector
    ok (response_of result)

-- The process: the module-level model, and whether the consumer's task runs.
pub record App : Type 0 where
  pub model : EnsembleThreatModel
  pub consumer_running : Bool

-- The state when the module has been imported.
unfoldable pub imported : App
unfolding init
imported = record { model = init "models"; consumer_running = false }

-- The task of the consumer's loop.
abbrev pub start_consumer_in_background : App → App
start_consumer_in_background app = record app { consumer_running = true }

-- What follows `model.load()`: the consumer's task is created, unless the load raised, which ends the
-- process.
abbrev pub after_load : App → Result (Unit {0}) × EnsembleThreatModel → Result App
after_load app (ok _, m) = ok (start_consumer_in_background (record app { model = m }))
after_load app (err e, m) = err e

-- `lifespan` up to its `yield`: the state in which requests are served. What `model.load` raises ends
-- the start, and with it the server, which then serves none.
unfoldable pub startup : Artifacts → App → Result App
startup files app = after_load app (load files app.model)

-- `lifespan` behind its `yield`
unfoldable pub shutdown : App → App
shutdown app = record app { consumer_running = false }
