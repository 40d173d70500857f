-- ===== src/ThreatEngine/Training/Ranges.antt =====
-- The three generators of threat-engine/train/train_model.py fit the layout and ranges of traffic.
use d_ai_api_sec.Prelude.{
  ℕ, ◌+◌, ◌≡◌, refl, none, some, List, [], ◌∷◌, ◌++◌, length, length-map, All-map, All, ◌∙◌,
  Bool-cases, inl, inr, ◌&◌,
}
use d_ai_api_sec.Prelude.Int.{pos}
use d_ai_api_sec.Float.{Float, dec, le, nought, ◌≼◌, IsFinite, IsNumber}
use d_ai_api_sec.Float.Order.{finite-IsNumber, IsNumber-of_le, lt_of_not-le, le_of_lt}
use d_ai_api_sec.Float.Literals.{one_pos}
use d_ai_api_sec.ThreatEngine.Features.{feature_order}
use d_ai_api_sec.ThreatEngine.Model.{IsClip}
use d_ai_api_sec.ThreatEngine.Training.{
  Rng, floats, ints, absolute, clipped, benign, credential_stuffing, business_logic_abuse,
}
use d_ai_api_sec.ThreatEngine.Training.Frames.{
  IsRng, real, whole, Holds, Fits, traffic, names, plus-Holds, plus_int-Holds, absolute_all,
  nonneg-Holds, finite_part, label-Holds, three, ten, one_half, literals_finite, eight_pos,
}

module _ (clip : Float → Float → Float → Float) (clip_laws : IsClip clip) (rng : Rng)
    (rng_laws : IsRng rng) where
  clip_between :
      (x low high : Float)
      → low ≼ high
      → IsNumber x
      → (low ≼ clip x low high) × (clip x low high ≼ high)
  clip_between x low high p q =
      let (number_low, number_high) = IsNumber-of_le low high p in
      elim (Bool-cases (le low x)) [
        | inr under ↦
            rw (clip_laws.below x low high p (lt_of_not-le low x number_low q under))
              (number_low, p)
        | inl above ↦ elim (Bool-cases (le x high)) [
          | inl within ↦ rw (clip_laws.inside x low high above within) (above, within)
          | inr over ↦
              rw (clip_laws.above x low high p (lt_of_not-le x high q number_high over))
                (p, number_high)
        ]
      ]

  clipped-Holds :
      (n : ℕ) (low high : Float) (xs : List Float)
      → low ≼ high
      → All IsFinite xs × (length xs ≡ n)
      → Holds n (floats (clipped clip rng low high xs)) (real low (some high))
  clipped-Holds n low high xs p (h, l) = (
    All-map IsFinite (λ x. (low ≼ x) × (x ≼ high)) (λ x. clip x low high) xs
        (λ x q. clip_between x low high p (finite-IsNumber x q)) h,
    length-map xs (λ x. clip x low high) ∙ l,
  )

  -- Columns that all three classes of traffic draw alike.
  rate-Holds : (k n : ℕ) (a b : Float) → Holds n (floats (rng.gamma k a b n)) (real nought none)
  rate-Holds k n a b = nonneg-Holds n (rng.gamma k a b n) (rng_laws.gamma k a b n)

  count-Holds : (k n : ℕ) (a : Float) → Holds n (ints (rng.poisson k a n)) (whole (pos 0) none)
  count-Holds k n a = rng_laws.poisson k a n

  entropy-Holds :
      (k n : ℕ) (a b : Float)
      → Holds n
          (floats (clipped clip rng nought (dec 8 0) (rng.normal k a b n)))
          (real nought (some (dec 8 0)))
  entropy-Holds k n a b =
      clipped-Holds n nought (dec 8 0) (rng.normal k a b n) eight_pos (rng_laws.normal k a b n)

  size-Holds :
      (k n : ℕ) (a b : Float) → Holds n (floats (absolute (rng.normal k a b n))) (real nought none)
  size-Holds k n a b =
      nonneg-Holds n (absolute (rng.normal k a b n))
        (absolute_all n (rng.normal k a b n) (rng_laws.normal k a b n))

  age-Holds : (k n : ℕ) (a : Float) → Holds n (floats (rng.exponential k a n)) (real nought none)
  age-Holds k n a = nonneg-Holds n (rng.exponential k a n) (rng_laws.exponential k a n)

  flag-Holds :
      (k n : ℕ) (a : Float) → Holds n (ints (rng.binomial k 1 a n)) (whole (pos 0) (some (pos 1)))
  flag-Holds k n a = rng_laws.binomial k 1 a n

  errors-Holds :
      (k n : ℕ) (a b : Float)
      → Holds n
          (floats (clipped clip rng nought (dec 1 0) (absolute (rng.normal k a b n))))
          (real nought (some (dec 1 0)))
  errors-Holds k n a b =
      let (h, l) = absolute_all n (rng.normal k a b n) (rng_laws.normal k a b n) in
      clipped-Holds n nought (dec 1 0) (absolute (rng.normal k a b n))
        (le_of_lt nought (dec 1 0) one_pos) (finite_part (absolute (rng.normal k a b n)) h, l)

  benign-Fits :
      (k n : ℕ)
      → Fits n (benign clip rng k n) (traffic nought nought (pos 0) (pos 0) nought (pos 0))
  unfolding benign
  benign-Fits k n =
      refl
      & rate-Holds k n _ _
      & refl
      & rate-Holds (k + 1) n _ _
      & refl
      & count-Holds (k + 2) n _
      & refl
      & count-Holds (k + 3) n _
      & refl
      & entropy-Holds (k + 4) n _ _
      & refl
      & count-Holds (k + 5) n _
      & refl
      & size-Holds (k + 6) n _ _
      & refl
      & age-Holds (k + 7) n _
      & refl
      & size-Holds (k + 8) n _ _
      & refl
      & flag-Holds (k + 9) n _
      & refl
      & errors-Holds (k + 10) n _ _
      & refl
      & flag-Holds (k + 11) n _
      & refl
      & label-Holds n (pos 0)
      & tt

  credential_stuffing-Fits :
      (k n : ℕ)
      → Fits n
          (credential_stuffing clip rng k n)
          (traffic (dec 3 0) (dec 10 0) (pos 2) (pos 0) nought (pos 1))
  unfolding credential_stuffing
  credential_stuffing-Fits k n =
      refl
      & plus-Holds n (dec 3 0) _ three literals_finite.0 (rng_laws.gamma k _ _ n)
      & refl
      & plus-Holds n (dec 10 0) _ ten literals_finite.1.0 (rng_laws.gamma (k + 1) _ _ n)
      & refl
      & count-Holds (k + 2) n _
      & refl
      & plus_int-Holds n (pos 2) _ (rng_laws.poisson (k + 3) _ n)
      & refl
      & entropy-Holds (k + 4) n _ _
      & refl
      & count-Holds (k + 5) n _
      & refl
      & size-Holds (k + 6) n _ _
      & refl
      & age-Holds (k + 7) n _
      & refl
      & size-Holds (k + 8) n _ _
      & refl
      & flag-Holds (k + 9) n _
      & refl
      & errors-Holds (k + 10) n _ _
      & refl
      & flag-Holds (k + 11) n _
      & refl
      & label-Holds n (pos 1)
      & tt

  business_logic_abuse-Fits :
      (k n : ℕ)
      → Fits n
          (business_logic_abuse clip rng k n)
          (traffic nought nought (pos 0) (pos 1) (dec 15 1) (pos 1))
  unfolding business_logic_abuse
  business_logic_abuse-Fits k n =
      refl
      & rate-Holds k n _ _
      & refl
      & rate-Holds (k + 1) n _ _
      & refl
      & count-Holds (k + 2) n _
      & refl
      & count-Holds (k + 3) n _
      & refl
      & entropy-Holds (k + 4) n _ _
      & refl
      & plus_int-Holds n (pos 1) _ (rng_laws.poisson (k + 5) _ n)
      & refl
      & plus-Holds n (dec 15 1) _ one_half literals_finite.1.1
          (absolute_all n _ (rng_laws.normal (k + 6) _ _ n))
      & refl
      & age-Holds (k + 7) n _
      & refl
      & size-Holds (k + 8) n _ _
      & refl
      & flag-Holds (k + 9) n _
      & refl
      & errors-Holds (k + 10) n _ _
      & refl
      & flag-Holds (k + 11) n _
      & refl
      & label-Holds n (pos 1)
      & tt

  -- Each generator yields the twelve features in the order of `FEATURE_ORDER`, followed by the label,
  -- with as many rows as asked for, all in the ranges of a live vector: nothing negative, an entropy
  -- up to 8, an error rate up to 1 and flags of 0 or 1. Credential stuffing differs from benign
  -- traffic by rates from 3 and 10 on and streaks of at least 2, business logic abuse by an
  -- additional parameter and an anomaly from 1.5 on. The draws are taken to be in the supports of
  -- their distributions.
  pub generators-Fits :
      (k n : ℕ)
      → (Fits n (benign clip rng k n) (traffic nought nought (pos 0) (pos 0) nought (pos 0))
          × (names (benign clip rng k n) ≡ feature_order ++ "label" ∷ []))
        × ((Fits n
                (credential_stuffing clip rng k n)
                (traffic (dec 3 0) (dec 10 0) (pos 2) (pos 0) nought (pos 1))
              × (names (credential_stuffing clip rng k n) ≡ feature_order ++ "label" ∷ []))
            × (Fits n
                  (business_logic_abuse clip rng k n)
                  (traffic nought nought (pos 0) (pos 1) (dec 15 1) (pos 1))
                × (names (business_logic_abuse clip rng k n) ≡ feature_order ++ "label" ∷ [])))
  unfolding benign credential_stuffing business_logic_abuse
  generators-Fits k n = (
    (benign-Fits k n, refl),
    ((credential_stuffing-Fits k n, refl), (business_logic_abuse-Fits k n, refl)),
  )
