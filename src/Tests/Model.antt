-- ===== src/Tests/Model.antt =====
-- Runs of the ensemble and of the endpoints.
use d_ai_api_sec.Prelude.{◌≡◌, refl, ◌≢◌, inl, ◌≤◌, true, List, [], ◌∷◌}
use d_ai_api_sec.Errors.{ok, ◌>>=◌}
use d_ai_api_sec.Float.{Float, arithmetic, dec, minus, nought, ◌≼◌}
use d_ai_api_sec.ThreatEngine.Features.{extract_features}
use d_ai_api_sec.ThreatEngine.Model.{
  EnsembleThreatModel, ScoreResult, Artifacts, init, combine, verdict, result_of, normalize_iso,
}
use d_ai_api_sec.ThreatEngine.Model as Model
use d_ai_api_sec.ThreatEngine.Model.Load.{load, IsLoaded}
use d_ai_api_sec.ThreatEngine.Model.Normalize.{IsInReach}
use d_ai_api_sec.ThreatEngine.Model.Scores.{Reads, InUnit, score_bounds}
use d_ai_api_sec.ThreatEngine.Model.Decisions.{Agrees, severity, score-Agrees, score-severity_mono}
use d_ai_api_sec.ThreatEngine.Model.Both.{score_needs_both}
use d_ai_api_sec.ThreatEngine.Api.{ScoreResponse, health, imported, startup, score, response_of}
use d_ai_api_sec.ThreatEngine.Api.Ready.{startup-serves}
use d_ai_api_sec.ThreatEngine.Api.Answers.{result_in, score_answers}
use d_ai_api_sec.Tests.Instances.{
  log2, log2_laws, clip, clip_laws, tampered, alarmed, calm, constant, files,
}
use d_ai_api_sec.Tests.Features.{tampered_vector, tampered-IsValid, tampered-IsSized}

lowest_reach :
    (m : EnsembleThreatModel)
    → m.iso_score_min ≡ minus (dec 5 1)
    → m.iso_score_max ≡ dec 5 1
    → IsInReach m (minus (dec 5 1))
unfolding arithmetic
lowest_reach m e f = record {
  min = rw e refl;
  max = rw f refl;
  raw_score = refl;
  distance = rw f refl;
}

pub alarmed-Reads : (v : List Float) → Reads alarmed v (minus (dec 5 1)) (dec 95 2)
unfolding arithmetic
alarmed-Reads v = record {
  forest = refl;
  xgb = refl;
  reach = lowest_reach alarmed refl refl;
  probability = (refl, refl);
}

calm-Reads : (v : List Float) → Reads calm v (minus (dec 5 1)) (dec 5 2)
unfolding arithmetic
calm-Reads v = record {
  forest = refl;
  xgb = refl;
  reach = lowest_reach calm refl refl;
  probability = (refl, refl);
}

lowest_normal : normalize_iso clip alarmed (minus (dec 5 1)) ≡ ok (dec 10 1)
unfolding normalize_iso arithmetic
lowest_normal = refl

abbrev pub alarm : ScoreResult
alarm = result_of (dec 10 1) (dec 95 2)

pub alarmed-score : (v : List Float) → Model.score clip alarmed v ≡ ok alarm
unfolding Model.score
alarmed-score v = rw lowest_normal refl

calm-score : (v : List Float) → Model.score clip calm v ≡ ok (result_of (dec 10 1) (dec 5 2))
unfolding Model.score normalize_iso arithmetic
calm-score v = refl

pub blocked : alarm.decision ≡ "BLOCK"
unfolding combine verdict arithmetic
blocked = refl

score_bounds_example :
    (r : ScoreResult) × (Model.score clip alarmed tampered_vector ≡ ok r)
    × InUnit r.isolation_score
    × InUnit r.xgboost_score
    × InUnit r.final_score
score_bounds_example =
    score_bounds clip clip_laws alarmed tampered_vector (minus (dec 5 1)) (dec 95 2)
      (alarmed-Reads tampered_vector)

score-Agrees_example : Agrees alarm
score-Agrees_example =
    score-Agrees clip clip_laws alarmed tampered_vector (minus (dec 5 1)) (dec 95 2) alarm
      (alarmed-Reads tampered_vector) (alarmed-score tampered_vector)

score-severity_mono_example : severity alarm.decision ≤ severity alarm.decision
unfolding arithmetic
score-severity_mono_example =
    score-severity_mono clip clip_laws alarmed tampered_vector (nought ∷ []) (minus (dec 5 1))
      (minus (dec 5 1)) (dec 95 2) (dec 95 2) alarm alarm (alarmed-Reads tampered_vector)
      (alarmed-Reads (nought ∷ [])) refl refl (alarmed-score tampered_vector)
      (alarmed-score (nought ∷ []))

calm_low : dec 5 2 ≼ dec 76 2
unfolding arithmetic
calm_low = refl

score_needs_both_example : (result_of (dec 10 1) (dec 5 2)).decision ≢ "BLOCK"
unfolding normalize_iso
score_needs_both_example =
    score_needs_both clip clip_laws calm tampered_vector (minus (dec 5 1)) (dec 5 2) (dec 10 1)
      (result_of (dec 10 1) (dec 5 2)) (calm-Reads tampered_vector) lowest_normal
      (calm-score tampered_vector) (inl calm_low)

loaded : load files (init "models") ≡ (ok tt, alarmed)
unfolding load init
loaded = refl

started : startup files imported ≡ ok (record { model = alarmed; consumer_running = true })
unfolding startup imported
started = rw loaded refl

startup-serves_example :
    ((health alarmed).model_loaded ≡ true)
    × (true ≡ true)
    × IsLoaded files alarmed
    × (score clip log2 alarmed tampered ≡ (
        extract_features log2 tampered >>= λ v.
        Model.score clip alarmed v >>= λ r. ok (response_of r)))
startup-serves_example =
    startup-serves clip log2 files imported (record { model = alarmed; consumer_running = true })
      tampered started

score_answers_example :
    (a : ScoreResponse) × (score clip log2 alarmed tampered ≡ ok a)
    × InUnit a.isolation_score
    × InUnit a.xgboost_score
    × InUnit a.final_score
    × Agrees (result_in a)
score_answers_example =
    score_answers clip clip_laws log2 log2_laws alarmed (constant (minus (dec 5 1))) tampered refl
      (λ v e. (minus (dec 5 1), dec 95 2, alarmed-Reads v)) tampered-IsValid tampered-IsSized
      (refl, tt)
