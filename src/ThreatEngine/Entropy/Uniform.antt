-- ===== src/ThreatEngine/Entropy/Uniform.antt =====
-- A text that repeats one character carries no entropy.
use mathlib.Core.List.{foldl}
use d_ai_api_sec.Prelude.{
  ℕ, zero, suc, ◌+◌, ◌*◌, ◌^◌, ◌≤◌, ◌<◌, ◌≡◌, refl, List, [], ◌∷◌, length, All, arith, ap, ◌∙◌,
  ==_iff,
}
use d_ai_api_sec.Prelude.Int.{pos}
use d_ai_api_sec.Errors.{ok}
use d_ai_api_sec.Float.{Float, minus, nought, dec, true_div, unit}
use d_ai_api_sec.Float.Order.{le_antisymm}
use d_ai_api_sec.Float.Arith.{of_ratio_mono}
use d_ai_api_sec.Float.Literals.{one-of_ratio, one-mul-nought, nought-add-nought}
use d_ai_api_sec.ThreatEngine.Entropy.{increment, counter, IsLog2, term, sum_terms, shannon_entropy}
use d_ai_api_sec.ThreatEngine.Entropy.Bounds.{share, share_pos, weigh-eq-ok}

foldl_uniform :
    (c k : ℕ) (s : List ℕ)
    → All (λ d. d ≡ c) s
    → foldl (λ counts d. increment d counts) ((c, k) ∷ []) s ≡ (c, k + length s) ∷ []
unfolding increment
foldl_uniform c k [] h = ap (λ n. (c, n) ∷ []) (omega arith)
foldl_uniform c k (d ∷ s) (e, h) =
    rw (e, (==_iff c c).1 refl) (foldl_uniform c (k + 1) s h ∙ ap (λ n. (c, n) ∷ []) (omega arith))

counter_uniform :
    (c : ℕ) (s : List ℕ) → All (λ d. d ≡ c) s → counter (c ∷ s) ≡ (c, length (c ∷ s)) ∷ []
unfolding counter increment
counter_uniform c s h = foldl_uniform c 1 s h ∙ ap (λ n. (c, n) ∷ []) (omega arith)

share_all : (n : ℕ) → 0 < n → share n n ≡ dec 1 0
share_all n p = rw one-of_ratio (
    le_antisymm _ _ (of_ratio_mono (pos (n * unit)) (pos unit) n 1 p (omega arith) (omega arith))
      (of_ratio_mono (pos unit) (pos (n * unit)) 1 n (omega arith) p (omega arith)))

module _ (log2 : Float → Float) (laws : IsLog2 log2) where
  term_all : (n : ℕ) → 0 < n → n ≤ 2 ^ 63 → term log2 n n ≡ ok nought
  unfolding term true_div
  term_all zero p h = absurd (omega arith)
  term_all (suc n) p h =
      weigh-eq-ok log2 laws (share (suc n) (suc n)) (share_pos (suc n) (suc n) p p h)
      ∙ ap ok (rw (share_all (suc n) p, laws.at_one) one-mul-nought)

  -- A text of at most 2 ^ 63 characters that are all the same has entropy 0.0.
  shannon_entropy_uniform :
      (c : ℕ) (s : List ℕ)
      → All (λ d. d ≡ c) s
      → length s ≤ 2 ^ 63
      → shannon_entropy log2 s ≡ ok nought
  unfolding shannon_entropy sum_terms
  shannon_entropy_uniform c [] h le = refl
  shannon_entropy_uniform c (d ∷ s) (e, h) le =
      rw (e, counter_uniform c s h, term_all (suc (length s)) (omega arith) le)
        (ap (λ x. ok (minus x)) nought-add-nought)
