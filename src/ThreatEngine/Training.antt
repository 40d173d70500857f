-- ===== src/ThreatEngine/Training.antt =====
-- threat-engine/train/train_model.py: the synthetic dataset, the fitting of the two models and the
-- artifacts. The generator's draws, scikit-learn's and xgboost's functions and the shuffling of the
-- rows are parameters.
pub mod Frames
pub mod Ranges
pub mod Fit
pub mod Persist
use d_ai_api_sec.Prelude.{
  ℕ, zero, suc, ◌+◌, ◌*◌, ◌≡◌, refl, Bool, true, false, String, str_eq, Option, none, some, List,
  [], ◌∷◌, ◌++◌, map, length, replicate, if◌then◌else◌,
}
use d_ai_api_sec.Prelude.Int.{ℤ, pos, negsuc, ◌+ℤ◌, ◌*ℤ◌, ◌≤ℤ◌}
use d_ai_api_sec.Prelude.Dict.{Dict, lookup}
use d_ai_api_sec.Errors.{Result, ok, err, key_error, value_error, ◌>>=◌, or_raise}
use d_ai_api_sec.Float.{
  Float, unit, of_ratio, dec, lt, le, nought, minus, add, min, max, true_div, ◌≼◌, IsFinite,
}

-- The draws of `RNG`, in the order of the calls: the first argument counts them, the last is the
-- number of values.
pub record Rng : Type 0 where
  pub gamma : ℕ → Float → Float → ℕ → List Float
  pub normal : ℕ → Float → Float → ℕ → List Float
  pub exponential : ℕ → Float → ℕ → List Float
  pub poisson : ℕ → Float → ℕ → List ℤ
  pub binomial : ℕ → ℕ → Float → ℕ → List ℤ

-- A column of a data frame, of float64 or int64.
pub data Column : Type 0 where
  floats : List Float → Column
  ints : List ℤ → Column

abbrev pub Frame : Type 0
Frame = Dict Column

-- `np.abs`
abbrev pub fabs : Float → Float
fabs x = if lt x nought then minus x else x

abbrev pub absolute : List Float → List Float
absolute xs = map fabs xs

-- `xs + c`
abbrev pub plus : Float → List Float → List Float
plus c xs = map (λ x. add x c) xs

abbrev pub plus_int : ℤ → List ℤ → List ℤ
plus_int c ns = map (λ n. n +ℤ c) ns

module _ (clip : Float → Float → Float → Float) (rng : Rng) where
  -- `xs.clip(low, high)`
  abbrev pub clipped : Float → Float → List Float → List Float
  clipped low high xs = map (λ x. clip x low high) xs

  -- Each generator starts at the draw k; the scalar label fills its column.
  unfoldable pub benign : ℕ → ℕ → Frame
  benign k n =
      ("req_rate_10s", floats (rng.gamma k (dec 12 1) (dec 4 1) n))
      ∷ ("req_rate_60s", floats (rng.gamma (k + 1) (dec 20 1) (dec 15 1) n))
      ∷ ("distinct_endpoints_60s", ints (rng.poisson (k + 2) (dec 3 0) n))
      ∷ ("failed_auth_streak", ints (rng.poisson (k + 3) (dec 5 2) n))
      ∷ (
        "payload_entropy",
        floats (clipped nought (dec 8 0) (rng.normal (k + 4) (dec 34 1) (dec 4 1) n)),
      )
      ∷ ("param_count_deviation", ints (rng.poisson (k + 5) (dec 3 1) n))
      ∷ ("price_or_qty_anomaly", floats (absolute (rng.normal (k + 6) nought (dec 15 2) n)))
      ∷ ("session_age_seconds", floats (rng.exponential (k + 7) (dec 1800 0) n))
      ∷ ("geo_velocity_kmph", floats (absolute (rng.normal (k + 8) (dec 5 0) (dec 15 0) n)))
      ∷ ("known_bad_ua_flag", ints (rng.binomial (k + 9) 1 (dec 1 2) n))
      ∷ (
        "response_error_rate_5m",
        floats (clipped nought (dec 1 0) (absolute (rng.normal (k + 10) (dec 2 2) (dec 3 2) n))),
      )
      ∷ ("off_hours_flag", ints (rng.binomial (k + 11) 1 (dec 12 2) n))
      ∷ ("label", ints (replicate n (pos 0)))
      ∷ []

  unfoldable pub credential_stuffing : ℕ → ℕ → Frame
  credential_stuffing k n =
      ("req_rate_10s", floats (plus (dec 3 0) (rng.gamma k (dec 60 1) (dec 12 1) n)))
      ∷ ("req_rate_60s", floats (plus (dec 10 0) (rng.gamma (k + 1) (dec 80 1) (dec 30 1) n)))
      ∷ ("distinct_endpoints_60s", ints (rng.poisson (k + 2) (dec 11 1) n))
      ∷ ("failed_auth_streak", ints (plus_int (pos 2) (rng.poisson (k + 3) (dec 9 0) n)))
      ∷ (
        "payload_entropy",
        floats (clipped nought (dec 8 0) (rng.normal (k + 4) (dec 42 1) (dec 6 1) n)),
      )
      ∷ ("param_count_deviation", ints (rng.poisson (k + 5) (dec 4 1) n))
      ∷ ("price_or_qty_anomaly", floats (absolute (rng.normal (k + 6) nought (dec 2 1) n)))
      ∷ ("session_age_seconds", floats (rng.exponential (k + 7) (dec 15 0) n))
      ∷ ("geo_velocity_kmph", floats (absolute (rng.normal (k + 8) (dec 650 0) (dec 500 0) n)))
      ∷ ("known_bad_ua_flag", ints (rng.binomial (k + 9) 1 (dec 55 2) n))
      ∷ (
        "response_error_rate_5m",
        floats (clipped nought (dec 1 0) (absolute (rng.normal (k + 10) (dec 6 1) (dec 2 1) n))),
      )
      ∷ ("off_hours_flag", ints (rng.binomial (k + 11) 1 (dec 4 1) n))
      ∷ ("label", ints (replicate n (pos 1)))
      ∷ []

  unfoldable pub business_logic_abuse : ℕ → ℕ → Frame
  business_logic_abuse k n =
      ("req_rate_10s", floats (rng.gamma k (dec 13 1) (dec 5 1) n))
      ∷ ("req_rate_60s", floats (rng.gamma (k + 1) (dec 22 1) (dec 16 1) n))
      ∷ ("distinct_endpoints_60s", ints (rng.poisson (k + 2) (dec 25 1) n))
      ∷ ("failed_auth_streak", ints (rng.poisson (k + 3) (dec 5 2) n))
      ∷ (
        "payload_entropy",
        floats (clipped nought (dec 8 0) (rng.normal (k + 4) (dec 36 1) (dec 5 1) n)),
      )
      ∷ ("param_count_deviation", ints (plus_int (pos 1) (rng.poisson (k + 5) (dec 45 1) n)))
      ∷ (
        "price_or_qty_anomaly",
        floats (plus (dec 15 1) (absolute (rng.normal (k + 6) (dec 45 1) (dec 20 1) n))),
      )
      ∷ ("session_age_seconds", floats (rng.exponential (k + 7) (dec 2200 0) n))
      ∷ ("geo_velocity_kmph", floats (absolute (rng.normal (k + 8) (dec 6 0) (dec 12 0) n)))
      ∷ ("known_bad_ua_flag", ints (rng.binomial (k + 9) 1 (dec 3 2) n))
      ∷ (
        "response_error_rate_5m",
        floats (clipped nought (dec 1 0) (absolute (rng.normal (k + 10) (dec 5 2) (dec 5 2) n))),
      )
      ∷ ("off_hours_flag", ints (rng.binomial (k + 11) 1 (dec 2 1) n))
      ∷ ("label", ints (replicate n (pos 1)))
      ∷ []
