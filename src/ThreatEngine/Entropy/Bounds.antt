-- ===== src/ThreatEngine/Entropy/Bounds.antt =====
-- The entropy's sign, its value for a repeated character, and that `_shannon_entropy` returns.
use native.Mathlib.Nat.{mul-le-mul_right}
use d_ai_api_sec.Prelude.{
  ℕ, zero, suc, ◌*◌, ◌^◌, ◌≤◌, ◌<◌, ◌≡◌, refl, false, List, [], ◌∷◌, length, All, arith, sym, ◌∙◌,
  Bool-cases, inl, inr,
}
use d_ai_api_sec.Prelude.Int.{pos}
use d_ai_api_sec.Errors.{Result, ok, ◌>>=◌, >>=-eq-ok, ok-injective}
use d_ai_api_sec.Float.{
  Float, add, mul, minus, nought, dec, le, ◌≼◌, ◌≺◌, IsNumber, true_div, of_ratio, unit,
}
use d_ai_api_sec.Float.Order.{finite_between, lt_of_lt_of_le, IsNumber-of_le, not-le_of_lt}
use d_ai_api_sec.Float.Arith.{of_ratio_mono, of_ratio-zero, mul_nonpos, add_nonpos}
use d_ai_api_sec.Float.Literals.{one-of_ratio, one-IsFinite, least_share_pos}
use d_ai_api_sec.ThreatEngine.Entropy.{
  Counter, counter, IsLog2, math_log2, term, sum_terms, shannon_entropy,
}
use d_ai_api_sec.ThreatEngine.Entropy.Counting.{IsCount, counter-IsCount}

-- The share c / n as a value.
abbrev pub share : ℕ → ℕ → Float
share c n = of_ratio (pos (c * unit)) n

share_le_one : (c n : ℕ) → 0 < c → c ≤ n → share c n ≼ dec 1 0
share_le_one c n p h = rw one-of_ratio (
    of_ratio_mono (pos (c * unit)) (pos unit) n 1 (omega arith) (omega arith)
      (omega (arith, mul-le-mul_right unit h)))

share_nonneg : (c n : ℕ) → 0 < n → nought ≼ share c n
share_nonneg c n p =
    rw (← of_ratio-zero 1)
      (of_ratio_mono (pos 0) (pos (c * unit)) 1 n (omega arith) p (omega arith))

pub share_pos : (c n : ℕ) → 0 < c → 0 < n → n ≤ 2 ^ 63 → nought ≺ share c n
share_pos c n p q h =
    lt_of_lt_of_le nought (of_ratio (pos unit) (2 ^ 63)) (share c n) least_share_pos (
      of_ratio_mono (pos unit) (pos (c * unit)) (2 ^ 63) n (omega arith) q
        (omega (arith, mul-le-mul_right unit h, mul-le-mul_right (unit * 2 ^ 63) p)))

pos_of_not-le : (x : Float) → IsNumber x → le x nought ≡ false → nought ≺ x
pos_of_not-le x p q = ground arith

module _ (log2 : Float → Float) (laws : IsLog2 log2) where
  -- The part of a term behind its first line.
  abbrev pub weigh : Float → Result Float
  weigh p = math_log2 log2 p >>= λ l. ok (mul p l)

  pub weigh-eq-ok : (p : Float) → nought ≺ p → weigh p ≡ ok (mul p (log2 p))
  unfolding math_log2
  weigh-eq-ok p h = rw (not-le_of_lt nought p h)

  weigh_nonpos : (p t : Float) → nought ≼ p → p ≼ dec 1 0 → weigh p ≡ ok t → t ≼ nought
  unfolding math_log2
  weigh_nonpos p t low high e = elim (Bool-cases (le p nought)) [
    | inl out ↦ let raised = rw out at e in cc
    | inr more ↦
        let positive = pos_of_not-le p (IsNumber-of_le nought p low).1 more in
        let (l_nonpos, l_finite) = laws.below_one p positive high in
        let same : mul p (log2 p) ≡ t = ok-injective (sym (weigh-eq-ok p positive) ∙ e) in
        rw (← same) (
          mul_nonpos p (log2 p) low l_nonpos
            (finite_between nought p (dec 1 0) refl one-IsFinite low high) l_finite)
  ]

  term_nonpos : (n c : ℕ) (t : Float) → IsCount n (0, c) → term log2 n c ≡ ok t → t ≼ nought
  unfolding term true_div
  term_nonpos zero c t (p, q) e = absurd (omega arith)
  term_nonpos (suc n) c t (p, q) e =
      weigh_nonpos (share c (suc n)) t (share_nonneg c (suc n) (omega arith))
        (share_le_one c (suc n) p q) e

  term_total : (n c : ℕ) → IsCount n (0, c) → n ≤ 2 ^ 63 → (t : Float) × (term log2 n c ≡ ok t)
  unfolding term true_div
  term_total zero c (p, q) h = absurd (omega arith)
  term_total (suc n) c (p, q) h =
      let s = share c (suc n) in
      (mul s (log2 s), weigh-eq-ok s (share_pos c (suc n) p (omega arith) h))

  sum_terms_nonpos :
      (n : ℕ) (counts : Counter) (total r : Float)
      → All (IsCount n) counts
      → total ≼ nought
      → sum_terms log2 n counts total ≡ ok r
      → r ≼ nought
  unfolding sum_terms
  sum_terms_nonpos n [] total r h p e = rw (sym (ok-injective e)) p
  sum_terms_nonpos n ((d, c) ∷ counts) total r (h, hs) p e =
      let (t, run, rest) = >>=-eq-ok (term log2 n c) _ e in
      sum_terms_nonpos n counts (add total t) r hs (add_nonpos total t p (term_nonpos n c t h run))
        rest

  sum_terms_total :
      (n : ℕ) (counts : Counter) (total : Float)
      → All (IsCount n) counts
      → n ≤ 2 ^ 63
      → (r : Float) × (sum_terms log2 n counts total ≡ ok r)
  unfolding sum_terms
  sum_terms_total n [] total h le = (total, refl)
  sum_terms_total n ((d, c) ∷ counts) total (h, hs) le =
      let (t, e) = term_total n c h le in
      let (r, run) = sum_terms_total n counts (add total t) hs le in (r, rw e run)

  minus_nonneg : (x : Float) → x ≼ nought → nought ≼ minus x
  minus_nonneg x p = ground arith

  -- Of a text of at most 2 ^ 63 characters the entropy is returned, and it is not negative.
  pub shannon_entropy_total :
      (s : List ℕ)
      → length s ≤ 2 ^ 63
      → (h : Float) × (shannon_entropy log2 s ≡ ok h) × (nought ≼ h)
  unfolding shannon_entropy
  shannon_entropy_total [] le = (nought, refl, refl)
  shannon_entropy_total (c ∷ s) le =
      let counts = counter-IsCount (c ∷ s) in
      let (r, run) = sum_terms_total (length (c ∷ s)) (counter (c ∷ s)) nought counts le in
      (
        minus r,
        rw run refl,
        minus_nonneg r
            (sum_terms_nonpos (length (c ∷ s)) (counter (c ∷ s)) nought r counts refl run),
      )
