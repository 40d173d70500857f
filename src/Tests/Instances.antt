-- ===== src/Tests/Instances.antt =====
-- Concrete parameters: a logarithm, numpy's clip, a model and its files, signals and messages.
use d_ai_api_sec.Prelude.{◌≡◌, refl, some, [], ◌∷◌, if◌then◌else◌, arith, Bool-cases, inl, inr}
use d_ai_api_sec.Prelude.Int.{pos}
use d_ai_api_sec.Prelude.Dict.{Dict}
use d_ai_api_sec.Errors.{ok}
use d_ai_api_sec.Float.{Float, arithmetic, dec, lt, minus, nought, ◌≼◌, ◌≺◌, IsFinite}
use d_ai_api_sec.ThreatEngine.Signal.{RequestSignal}
use d_ai_api_sec.ThreatEngine.Entropy.{IsLog2}
use d_ai_api_sec.ThreatEngine.Model.{EnsembleThreatModel, Artifacts, Predictor, IsClip}

-- The floor of the logarithm between a half and two.
abbrev pub log2 : Float → Float
log2 x = if lt x (dec 1 0) then minus (dec 1 0) else nought

minus_one : (minus (dec 1 0) ≼ nought) × IsFinite (minus (dec 1 0))
unfolding arithmetic
minus_one = (refl, refl)

log2_below : (x : Float) → (log2 x ≼ nought) × IsFinite (log2 x)
log2_below x = elim (Bool-cases (lt x (dec 1 0))) [
  | inl below ↦ rw below minus_one
  | inr not_below ↦ rw not_below (refl, refl)
]

log2_at_one : log2 (dec 1 0) ≡ nought
unfolding arithmetic
log2_at_one = refl

pub log2_laws : IsLog2 log2
log2_laws = record { at_one = log2_at_one; below_one = λ x p q. log2_below x }

abbrev pub clip : Float → Float → Float → Float
clip x low high = if lt x low then low else if lt high x then high else x

clip_inside : (x low high : Float) → low ≼ x → x ≼ high → clip x low high ≡ x
clip_inside x low high p q = ground arith

clip_above : (x low high : Float) → low ≼ high → high ≺ x → clip x low high ≡ high
clip_above x low high p q = ground arith

pub clip_laws : IsClip clip
clip_laws = record { below = λ x low high p q. rw q refl; inside = clip_inside; above = clip_above }

-- The body's characters are "aab".
abbrev pub tampered : RequestSignal
tampered = record {
  req_rate_10s = dec 5 1;
  req_rate_60s = dec 18 1;
  distinct_endpoints_60s = pos 2;
  failed_auth_streak = pos 0;
  session_age_seconds = dec 1000 0;
  geo_velocity_kmph = dec 30 1;
  known_bad_ua_flag = pos 0;
  response_error_rate_5m = dec 2 2;
  off_hours_flag = pos 0;
  raw_body = 97 ∷ 97 ∷ 98 ∷ [];
  param_count = pos 14;
  baseline_param_count = pos 8;
  numeric_fields = ("qty", minus (dec 5 0)) ∷ [];
  baseline_numeric_ranges = ("qty", dec 1 0 ∷ dec 3 0 ∷ []) ∷ [];
}

-- The same without a deviation of its numeric field.
abbrev pub ordinary : RequestSignal
ordinary = record tampered { numeric_fields = ("qty", dec 2 0) ∷ [] }

-- A field whose range is a single number.
abbrev pub malformed : RequestSignal
malformed = record tampered { baseline_numeric_ranges = ("qty", dec 1 0 ∷ []) ∷ [] }

-- An artifact that answers the same for every vector.
abbrev pub constant : Float → Predictor
constant x vector = ok x

abbrev pub alarmed : EnsembleThreatModel
alarmed = record {
  model_dir = "models";
  isolation_forest = some (constant (minus (dec 5 1)));
  xgb_model = some (constant (dec 95 2));
  iso_score_min = minus (dec 5 1);
  iso_score_max = dec 5 1;
}

-- The same with a lower probability.
abbrev pub calm : EnsembleThreatModel
calm = record alarmed { xgb_model = some (constant (dec 5 2)) }

abbrev pub ranges : Dict Float
ranges = ("iso_score_min", minus (dec 5 1)) ∷ ("iso_score_max", dec 5 1) ∷ []

abbrev pub files : Artifacts
files = record {
  isolation_forest = ok (constant (minus (dec 5 1)));
  xgboost_model = ok (constant (dec 95 2));
  metadata = ok ranges;
}
