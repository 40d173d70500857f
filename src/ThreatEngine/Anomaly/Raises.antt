-- ===== src/ThreatEngine/Anomaly/Raises.antt =====
-- When `_numeric_field_anomaly` raises.
use native.Mathlib.Decide.{ℕ_discrete}
use d_ai_api_sec.Prelude.{
  ◌≡◌, refl, String, List, [], ◌∷◌, length, All, Any, arith, inl, inr, ◌∙◌, ◌⊎◌,
}
use d_ai_api_sec.Prelude.Dict.{Dict, get}
use d_ai_api_sec.Errors.{ok, err, value_error}
use d_ai_api_sec.Float.{Float, nought, dec, max, min}
use d_ai_api_sec.ThreatEngine.Signal.{RequestSignal}
use d_ai_api_sec.ThreatEngine.Anomaly.{
  unpack, default_range, field_deviation, worst_deviation, numeric_field_anomaly,
}
use d_ai_api_sec.ThreatEngine.Anomaly.Bounds.{deviation_value, deviation-eq-ok, anomaly_of-eq}
use d_ai_api_sec.ThreatEngine.Anomaly.Exact.{HasPair}

unpack_pair :
    (xs : List Float) → length xs ≡ 2 → (lo : Float) × (hi : Float) × (unpack xs ≡ ok (lo, hi))
unpack_pair [] e = absurd (omega arith)
unpack_pair (x ∷ []) e = absurd (omega arith)
unpack_pair (x ∷ y ∷ []) e = (x, y, refl)
unpack_pair (x ∷ y ∷ z ∷ zs) e = absurd (omega arith)

unpack_other : (xs : List Float) → ¬ (length xs ≡ 2) → unpack xs ≡ err value_error
unpack_other [] h = refl
unpack_other (x ∷ []) h = refl
unpack_other (x ∷ y ∷ []) h = absurd (h refl)
unpack_other (x ∷ y ∷ z ∷ zs) h = refl

module _ (ranges : Dict (List Float)) where
  field_deviation_total :
      (f : String) (v : Float)
      → HasPair ranges (f, v)
      → (d : Float) × (field_deviation ranges f v ≡ ok d)
  unfolding field_deviation
  field_deviation_total f v h =
      let (lo, hi, e) = unpack_pair (get ranges f default_range) h in
      (deviation_value lo hi v, rw e (deviation-eq-ok lo hi v))

  field_deviation_error :
      (f : String) (v : Float)
      → ¬ HasPair ranges (f, v)
      → field_deviation ranges f v ≡ err value_error
  unfolding field_deviation
  field_deviation_error f v h = rw (unpack_other (get ranges f default_range) h)

  worst_deviation_total :
      (fields : Dict Float) (w : Float)
      → All (HasPair ranges) fields
      → (r : Float) × (worst_deviation ranges fields w ≡ ok r)
  unfolding worst_deviation
  worst_deviation_total [] w h = (w, refl)
  worst_deviation_total ((f, v) ∷ fields) w (h, hs) =
      let (d, e) = field_deviation_total f v h in
      let (r, run) = worst_deviation_total fields (max w d) hs in (r, rw e run)

  -- The loop's first failure is that of the first malformed range, and all are alike.
  worst_deviation_error :
      (fields : Dict Float) (w : Float)
      → Any (λ f. ¬ HasPair ranges f) fields
      → worst_deviation ranges fields w ≡ err value_error
  unfolding worst_deviation
  worst_deviation_error [] w h = elim h [ ]
  worst_deviation_error ((f, v) ∷ fields) w (inl bad) = rw (field_deviation_error f v bad)
  worst_deviation_error ((f, v) ∷ fields) w (inr later) =
      elim (ℕ_discrete (length (get ranges f default_range)) 2) [
        | yes pair ↦
            let (d, e) = field_deviation_total f v pair in
            rw e (worst_deviation_error fields (max w d) later)
        | no bad ↦ rw (field_deviation_error f v bad)
      ]

-- With well-formed ranges there is a value.
pub anomaly_total :
    (signal : RequestSignal)
    → All (HasPair signal.baseline_numeric_ranges) signal.numeric_fields
    → (a : Float) × (numeric_field_anomaly signal ≡ ok a)
unfolding numeric_field_anomaly
anomaly_total signal pairs =
    let (w, run) =
      worst_deviation_total signal.baseline_numeric_ranges signal.numeric_fields nought pairs in
    (
      min w (dec 100 1),
      anomaly_of-eq signal.baseline_numeric_ranges signal.numeric_fields ∙ rw run refl,
    )

pairs_or_not :
    (ranges : Dict (List Float)) (fields : Dict Float)
    → All (HasPair ranges) fields ⊎ Any (λ f. ¬ HasPair ranges f) fields
pairs_or_not ranges [] = inl tt
pairs_or_not ranges (f ∷ fields) = elim (ℕ_discrete (length (get ranges f.0 default_range)) 2) [
  | no bad ↦ inr (inl bad)
  | yes pair ↦ elim (pairs_or_not ranges fields) [
    | inl pairs ↦ inl (pair, pairs)
    | inr later ↦ inr (inr later)
  ]
]

-- `_numeric_field_anomaly` of any signal either returns a value, and then the range of each numeric
-- field, given or default, is a list of two numbers, or raises `ValueError`, and then that of some
-- field is not: no division is by zero.
pub anomaly_raises :
    (signal : RequestSignal)
    → All (HasPair signal.baseline_numeric_ranges) signal.numeric_fields
        × ((a : Float) × (numeric_field_anomaly signal ≡ ok a))
      ⊎ Any (λ f. ¬ HasPair signal.baseline_numeric_ranges f) signal.numeric_fields
        × (numeric_field_anomaly signal ≡ err value_error)
unfolding numeric_field_anomaly
anomaly_raises signal =
    let ranges = signal.baseline_numeric_ranges in
    let fields = signal.numeric_fields in
    elim (pairs_or_not ranges fields) [
      | inl pairs ↦ inl (pairs, anomaly_total signal pairs)
      | inr bad ↦ inr (
        bad,
        anomaly_of-eq ranges fields ∙ rw (worst_deviation_error ranges fields nought bad) refl,
      )
    ]
