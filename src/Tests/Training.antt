-- ===== src/Tests/Training.antt =====
-- Runs of the training script.
use d_ai_api_sec.Prelude.{
  ◌≡◌, refl, none, List, [], ◌∷◌, ◌++◌, replicate, replicate-All, length-replicate, arith,
}
use d_ai_api_sec.Prelude.Int.{pos}
use d_ai_api_sec.Errors.{Result, ok}
use d_ai_api_sec.Float.{Float, dec, nought}
use d_ai_api_sec.ThreatEngine.Features.{feature_order}
use d_ai_api_sec.ThreatEngine.Model.{Predictor}
use d_ai_api_sec.ThreatEngine.Training.{Rng, benign, credential_stuffing, business_logic_abuse}
use d_ai_api_sec.ThreatEngine.Training.Frames.{IsRng, Fits, traffic, names}
use d_ai_api_sec.ThreatEngine.Training.Ranges.{generators-Fits}
use d_ai_api_sec.ThreatEngine.Training.Fit.{Row, Models, main}
use d_ai_api_sec.Tests.Instances.{clip, clip_laws, constant}

-- Draws that are all 0.
abbrev rng : Rng
rng = record {
  gamma = λ k a b n. replicate n nought;
  normal = λ k a b n. replicate n nought;
  exponential = λ k a n. replicate n nought;
  poisson = λ k a n. replicate n (pos 0);
  binomial = λ k trials a n. replicate n (pos 0);
}

rng_laws : IsRng rng
rng_laws = record {
  gamma = λ k a b n. (replicate-All _ n nought (refl, refl), length-replicate n nought);
  normal = λ k a b n. (replicate-All _ n nought refl, length-replicate n nought);
  exponential = λ k a n. (replicate-All _ n nought (refl, refl), length-replicate n nought);
  poisson = λ k a n. (replicate-All _ n (pos 0) (omega arith), length-replicate n (pos 0));
  binomial = λ k trials a n.
      (replicate-All _ n (pos 0) (omega arith, omega arith), length-replicate n (pos 0));
}

generators-Fits_example :
    (Fits 2 (benign clip rng 0 2) (traffic nought nought (pos 0) (pos 0) nought (pos 0))
      × (names (benign clip rng 0 2) ≡ feature_order ++ "label" ∷ []))
    × ((Fits 2
            (credential_stuffing clip rng 0 2)
            (traffic (dec 3 0) (dec 10 0) (pos 2) (pos 0) nought (pos 1))
          × (names (credential_stuffing clip rng 0 2) ≡ feature_order ++ "label" ∷ []))
        × (Fits 2
              (business_logic_abuse clip rng 0 2)
              (traffic nought nought (pos 0) (pos 1) (dec 15 1) (pos 1))
            × (names (business_logic_abuse clip rng 0 2) ≡ feature_order ++ "label" ∷ [])))
generators-Fits_example = generators-Fits clip clip_laws rng rng_laws 0 2

abbrev quiet : Row
quiet = record { features = nought ∷ []; label = nought }

abbrev hostile : Row
hostile = record { features = dec 1 0 ∷ []; label = dec 1 0 }

-- No shuffling, and a split that keeps two rows for training.
abbrev sample : List Row → List Row
sample df = df

abbrev train_test_split : List Row → Result (List Row × List Row)
train_test_split df = ok (quiet ∷ hostile ∷ [], [])

abbrev fit_forest : List (List Float) → Result Predictor
fit_forest vectors = ok (constant nought)

abbrev fit_xgb : Float → List Row → Result Predictor
fit_xgb weight training = ok (constant nought)

abbrev evaluate : Predictor → List Row → Result (Unit {0})
evaluate xgb test = ok tt

abbrev empty_directory : Models
empty_directory = record { isolation_forest = none; xgboost_model = none; metadata = none }

abbrev outcome : Result (Unit {0}) × Models
outcome = main clip rng sample train_test_split fit_forest fit_xgb evaluate empty_directory
