-- ===== src/ThreatEngine/Entropy.antt =====
-- `_shannon_entropy` of threat-engine/app/features.py. `math.log2` is a parameter, the value that
-- the C library returns at a positive number.
pub mod Counting
pub mod Bounds
pub mod Uniform
use d_ai_api_sec.Prelude.{ℕ, zero, suc, ◌+◌, ◌≡◌, refl, ◌==◌, List, [], ◌∷◌, length, if◌then◌else◌}
use mathlib.Core.List.{foldl}
use d_ai_api_sec.Errors.{Result, ok, err, value_error, ◌>>=◌}
use d_ai_api_sec.Float.{Float, add, mul, minus, nought, dec, le, ◌≼◌, ◌≺◌, IsFinite, true_div}

-- `collections.Counter`: the counts, in the order of first occurrence.
abbrev pub Counter : Type 0
Counter = List (ℕ × ℕ)

unfoldable pub increment : ℕ → Counter → Counter
increment c [] = (c, 1) ∷ []
increment c ((d, n) ∷ counts) = if d == c then (d, n + 1) ∷ counts else (d, n) ∷ increment c counts

unfoldable pub counter : List ℕ → Counter
counter s = foldl (λ counts c. increment c counts) [] s

-- The documented behaviour of `math.log2` that is used.
pub record IsLog2 (log2 : Float → Float) : Type 0 where
  pub at_one : log2 (dec 1 0) ≡ nought
  pub below_one : (x : Float) → nought ≺ x → x ≼ dec 1 0 → (log2 x ≼ nought) × IsFinite (log2 x)

module _ (log2 : Float → Float) where
  -- `math.log2(x)`
  unfoldable pub math_log2 : Float → Result Float
  math_log2 x = if le x nought then err value_error else ok (log2 x)

  -- `(c / length) * math.log2(c / length)`
  unfoldable pub term : ℕ → ℕ → Result Float
  term n c = do p ← true_div c n; l ← math_log2 p; ok (mul p l)

  -- `sum(...)` over the counts, from the left
  unfoldable pub sum_terms : ℕ → Counter → Float → Result Float
  sum_terms n [] total = ok total
  sum_terms n ((_, c) ∷ counts) total = do t ← term n c; sum_terms n counts (add total t)

  unfoldable pub shannon_entropy : List ℕ → Result Float
  shannon_entropy [] = ok nought
  shannon_entropy (c ∷ s) = do
    total ← sum_terms (length (c ∷ s)) (counter (c ∷ s)) nought
    ok (minus total)
