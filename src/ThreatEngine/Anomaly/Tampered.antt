-- ===== src/ThreatEngine/Anomaly/Tampered.antt =====
-- A field that clearly leaves its range is seen.
use d_ai_api_sec.Prelude.{
  ◌^◌, ◌≡◌, refl, sym, ◌∙◌, ◌⊎◌, false, String, List, [], ◌∷◌, All, Any, arith, inl, inr,
}
use d_ai_api_sec.Prelude.Dict.{Dict, get}
use d_ai_api_sec.Errors.{ok, ok-injective}
use d_ai_api_sec.Float.{
  Float, pos_inf, nought, dec, lt, ◌≼◌, ◌≺◌, IsFinite, max, min, sub, quotient,
}
use d_ai_api_sec.Float.Order.{lt_of_lt_of_le, le_of_lt, IsNumber-of_le, le_trans}
use d_ai_api_sec.Float.Arith.{quotient_mono, quotient_anti}
use d_ai_api_sec.Float.Literals.{
  epsilon_pos, ten_pos, tiny_pos, tiny_ratio_pos, tiny-IsFinite, huge-IsFinite,
}
use d_ai_api_sec.ThreatEngine.Signal.{RequestSignal}
use d_ai_api_sec.ThreatEngine.Anomaly.{default_range, field_deviation, numeric_field_anomaly, span}
use d_ai_api_sec.ThreatEngine.Anomaly.Bounds.{deviation_value, deviation-eq-ok}
use d_ai_api_sec.ThreatEngine.Anomaly.Exact.{Covers, anomaly_greatest}

finite_cases :
    (e x c t : Float)
    → IsFinite e
    → IsFinite t
    → e ≼ x
    → nought ≺ c
    → c ≼ t
    → IsFinite c × (IsFinite x ⊎ (quotient x c ≡ pos_inf))
unfolding quotient
finite_cases e x c t h k p q r = ground arith

-- The quotient of 10 ^ -100 and 10 ^ 100 is still a positive value.
quotient_pos :
    (x c : Float) → dec 1 100 ≼ x → nought ≺ c → c ≼ dec (10 ^ 100) 0 → nought ≺ quotient x c
quotient_pos x c p q r =
    let cases = finite_cases (dec 1 100) x c (dec (10 ^ 100) 0) tiny-IsFinite huge-IsFinite p q r in
    elim cases.1 [
      | inl finite ↦
          lt_of_lt_of_le nought (quotient (dec 1 100) (dec (10 ^ 100) 0)) (quotient x c)
            tiny_ratio_pos
            (le_trans (quotient (dec 1 100) (dec (10 ^ 100) 0)) (quotient (dec 1 100) c)
              (quotient x c)
              (quotient_anti (dec 1 100) c (dec (10 ^ 100) 0) (le_of_lt nought (dec 1 100) tiny_pos)
                tiny-IsFinite huge-IsFinite q r)
              (quotient_mono (dec 1 100) x c p tiny-IsFinite finite q))
      | inr infinite ↦ rw infinite refl
    ]

span_pos : (lo hi t : Float) → span lo hi ≼ t → nought ≺ span lo hi
unfolding span
span_pos lo hi t p = above (sub hi lo) (dec 1 6) epsilon_pos p
  where
    above : (x e : Float) → nought ≺ e → max x e ≼ t → nought ≺ max x e
    above x e p q = ground arith

module _ (ranges : Dict (List Float)) where
  -- The value is 10 ^ -100 or more outside the field's range, whose span is at most 10 ^ 100.
  abbrev pub Outside : String × Float → Type 0
  Outside (field, value) =
      (lo : Float) × (hi : Float) × (get ranges field default_range ≡ lo ∷ hi ∷ [])
      × (span lo hi ≼ dec (10 ^ 100) 0)
      × ((value ≺ lo) × (dec 1 100 ≼ sub lo value)
          ⊎ (lt value lo ≡ false) × (hi ≺ value) × (dec 1 100 ≼ sub value hi))

  field_deviation-Outside :
      (f : String) (v : Float)
      → Outside (f, v)
      → (d : Float) × (field_deviation ranges f v ≡ ok d) × (nought ≺ d)
  unfolding field_deviation
  field_deviation-Outside f v (lo, hi, e, fits, inl (below, far)) = (
    deviation_value lo hi v,
    rw e (deviation-eq-ok lo hi v),
    rw (below, deviation_value) (quotient_pos _ _ far (span_pos lo hi _ fits) fits),
  )
  field_deviation-Outside f v (lo, hi, e, fits, inr (not_below, above, far)) = (
    deviation_value lo hi v,
    rw e (deviation-eq-ok lo hi v),
    rw (not_below, above, deviation_value) (quotient_pos _ _ far (span_pos lo hi _ fits) fits),
  )

  covers_pos : (a d : Float) → nought ≺ d → min d (dec 100 1) ≼ a → nought ≺ a
  covers_pos a d p q = clip (dec 100 1) ten_pos q
    where
      clip : (t : Float) → nought ≺ t → min d t ≼ a → nought ≺ a
      clip t p' q' = ground arith

  Outside-pos :
      (fields : Dict Float) (a : Float)
      → Any Outside fields
      → All (Covers ranges a) fields
      → nought ≺ a
  Outside-pos [] a h c = elim h [ ]
  Outside-pos ((f, v) ∷ fields) a (inl out) (c, cs) =
      let (d, e, p) = field_deviation-Outside f v out in
      let (_, number) = IsNumber-of_le nought d (le_of_lt nought d p) in
      let (d', e', h) = c in
      let same : d' ≡ d = ok-injective (sym e' ∙ e) in
      elim h [ inl not_number ↦ absurd (cc) | inr low ↦ covers_pos a d p (rw same at low) ]
  Outside-pos (f ∷ fields) a (inr later) (c, cs) = Outside-pos fields a later cs

-- If some numeric field lies 10 ^ -100 or more outside its range, and that range's span is at most
-- 10 ^ 100, then an anomaly that is returned is positive.
pub anomaly-Outside :
    (signal : RequestSignal) (a : Float)
    → Any (Outside signal.baseline_numeric_ranges) signal.numeric_fields
    → numeric_field_anomaly signal ≡ ok a
    → nought ≺ a
anomaly-Outside signal a out e =
    Outside-pos signal.baseline_numeric_ranges signal.numeric_fields a out
      (anomaly_greatest signal a e).0
