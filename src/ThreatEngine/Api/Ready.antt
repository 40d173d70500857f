-- ===== src/ThreatEngine/Api/Ready.antt =====
-- What the endpoints do before and behind a complete start.
use d_ai_api_sec.Prelude.{◌≡◌, refl, true, false, String, ap, sym}
use d_ai_api_sec.Errors.{Result, ok, err, http_error, ok-injective, ◌>>=◌}
use d_ai_api_sec.Float.{Float}
use d_ai_api_sec.ThreatEngine.Signal.{RequestSignal}
use d_ai_api_sec.ThreatEngine.Features.{extract_features}
use d_ai_api_sec.ThreatEngine.Model.{
  EnsembleThreatModel, Predictor, ScoreResult, Artifacts, init, IsClip, normalize_iso,
}
use d_ai_api_sec.ThreatEngine.Model as Model
use d_ai_api_sec.ThreatEngine.Model.Load.{load, IsLoaded, load-IsLoaded}
use d_ai_api_sec.ThreatEngine.Api.{
  health, response_of, require_loaded, score, App, startup, after_load,
}

after_load-ok :
    (app app' : App) (r : Result (Unit {0})) (m : EnsembleThreatModel)
    → after_load app (r, m) ≡ ok app'
    → (r ≡ ok tt) × (m ≡ app'.model) × (app'.consumer_running ≡ true)
after_load-ok app app' (ok u) m e =
    let same = ok-injective e in
    (refl, ap (λ (a : App). a.model) same, ap (λ (a : App). a.consumer_running) (sym same))
after_load-ok app app' (err q) m e = cc

-- A start that returns has loaded the model.
startup-loads :
    (files : Artifacts) (app app' : App)
    → startup files app ≡ ok app'
    → IsLoaded files app'.model × (app'.consumer_running ≡ true)
unfolding startup
startup-loads files app app' e =
    let (r, m, run) = after_load-ok app app' (load files app.model).0 (load files app.model).1 e in
    (load-IsLoaded files app.model app'.model (λ i. (r i, m i)), run)

module _ (clip : Float → Float → Float → Float) (log2 : Float → Float) where
  -- Once a start has returned, the probe reports a loaded model, the consumer's task runs, and the
  -- scoring endpoint answers every signal by extracting its features and scoring them with the two
  -- artifacts of the files, and with no 503.
  pub startup-serves :
      (files : Artifacts) (app app' : App) (s : RequestSignal)
      → startup files app ≡ ok app'
      → ((health app'.model).model_loaded ≡ true)
        × (app'.consumer_running ≡ true)
        × IsLoaded files app'.model
        × (score clip log2 app'.model s ≡ (
            extract_features log2 s >>= λ v.
            Model.score clip app'.model v >>= λ r. ok (response_of r)))
  unfolding health score
  startup-serves files app app' s e =
      let (loaded, run) = startup-loads files app app' e in
      (rw loaded.forest_set refl, run, loaded, rw (loaded.forest_set, require_loaded) refl)

  -- A model that has not been loaded is reported so, and each signal is answered by a 503.
  pub unloaded_refuses :
      (dir : String) (s : RequestSignal)
      → ((health (init dir)).model_loaded ≡ false)
        × (score clip log2 (init dir) s ≡ err (http_error 503))
  unfolding health score init
  unloaded_refuses dir s = (refl, refl)
