-- ===== src/ThreatEngine/Entropy/Counting.antt =====
-- The counter of a text counts.
use mathlib.Core.List.{foldl}
use d_ai_api_sec.Prelude.{
  ℕ, ◌+◌, ◌≤◌, ◌<◌, ◌≡◌, ◌==◌, List, [], ◌∷◌, length, All, arith, if◌then◌else◌,
}
use d_ai_api_sec.ThreatEngine.Entropy.{Counter, increment, counter}

-- How often c occurs in the text.
abbrev pub occurrences : ℕ → List ℕ → ℕ
occurrences c [] = 0
occurrences c (d ∷ s) = (if d == c then 1 else 0) + occurrences c s

-- What the counter holds for c.
abbrev pub held : ℕ → Counter → ℕ
held c [] = 0
held c ((d, n) ∷ counts) = if d == c then n else held c counts

abbrev pub total : Counter → ℕ
total [] = 0
total ((_, n) ∷ counts) = n + total counts

total-increment : (c : ℕ) (counts : Counter) → total (increment c counts) ≡ total counts + 1
unfolding increment
total-increment c [] = omega arith
total-increment c ((d, n) ∷ counts) = ground (arith, total-increment c counts)

held-increment :
    (c d : ℕ) (counts : Counter)
    → held c (increment d counts) ≡ held c counts + (if d == c then 1 else 0)
unfolding increment
held-increment c d [] = ground arith
held-increment c d ((e, n) ∷ counts) = ground (arith, held-increment c d counts)

total-foldl :
    (s : List ℕ) (counts : Counter)
    → total (foldl (λ k c. increment c k) counts s) ≡ total counts + length s
total-foldl [] counts = omega arith
total-foldl (c ∷ s) counts =
    omega (arith, total-foldl s (increment c counts), total-increment c counts)

held-foldl :
    (c : ℕ) (s : List ℕ) (counts : Counter)
    → held c (foldl (λ k d. increment d k) counts s) ≡ held c counts + occurrences c s
held-foldl c [] counts = omega arith
held-foldl c (d ∷ s) counts =
    omega (arith, held-foldl c s (increment d counts), held-increment c d counts)

-- For every character the counter holds the number of its occurrences, and all its counts add up
-- to the length of the text.
counter_exact :
    (s : List ℕ) (c : ℕ) → (held c (counter s) ≡ occurrences c s) × (total (counter s) ≡ length s)
unfolding counter
counter_exact s c = (omega (arith, held-foldl c s []), omega (arith, total-foldl s []))

abbrev pub IsCount : ℕ → ℕ × ℕ → Type 0
IsCount n (_, c) = (0 < c) × (c ≤ n)

increment_pos :
    (c : ℕ) (counts : Counter) → All (λ e. 0 < e.1) counts → All (λ e. 0 < e.1) (increment c counts)
unfolding increment
increment_pos c [] h = (omega arith, tt)
increment_pos c ((d, n) ∷ counts) (h, hs) = ground (arith, increment_pos c counts hs)

foldl_pos :
    (s : List ℕ) (counts : Counter)
    → All (λ e. 0 < e.1) counts
    → All (λ e. 0 < e.1) (foldl (λ k d. increment d k) counts s)
foldl_pos [] counts h = h
foldl_pos (c ∷ s) counts h = foldl_pos s (increment c counts) (increment_pos c counts h)

total-IsCount :
    (n : ℕ) (counts : Counter)
    → All (λ e. 0 < e.1) counts
    → total counts ≤ n
    → All (IsCount n) counts
total-IsCount n [] h le = tt
total-IsCount n ((d, c) ∷ counts) (h, hs) le =
    ((h, omega arith), total-IsCount n counts hs (omega arith))

pub counter-IsCount : (s : List ℕ) → All (IsCount (length s)) (counter s)
unfolding counter
counter-IsCount s =
    total-IsCount (length s) (counter s) (foldl_pos s [] tt) (omega (arith, (counter_exact s 0).1))
