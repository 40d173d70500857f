-- ===== src/Float/Round.antt =====
-- Rounding of a quotient of naturals to 53 significant bits, to nearest with ties to even, and
-- its monotonicity.
use native.Mathlib.Nat.{
  mul-le-mul_right, zero-div, zero-mod, le_refl, le-div_iff_mul-le, div-lt_iff_lt-mul,
  div-mul-le_self, div-add-mod', le_of_mul-le-mul_right, lt_of_mul-lt-mul_right,
  mul-lt-mul_of_pos_right,
}
use native.Mathlib.Decide.{dec_lt}
use native.Mathlib.Numerals.{towards_suc}
use d_ai_api_sec.Prelude.{
  ℕ, zero, suc, ◌+◌, ◌*◌, ◌/◌, ◌%◌, ◌^◌, ◌≤◌, ◌<◌, ◌≡◌, refl, arith, ltb, ◌⊎◌, inl, inr, ltb→lt,
  Bool-cases, ap, ◌-◌, if◌then◌else◌,
}

-- The integer nearest to n / d; of two, the even one.
unfoldable pub half_even : ℕ → ℕ → ℕ
half_even n d =
    let q = n / d in
    let r = n % d in if ltb (2 * r) d then q else if ltb d (2 * r) then q + 1 else q + q % 2

-- How often q must be halved to lie below 2 ^ 53.
unfoldable pub exponent : ℕ → ℕ → ℕ
exponent zero q = 0
exponent (suc f) q = let more = exponent f (q / 2) + 1 in if ltb q (2 ^ 53) then 0 else more

-- n / d rounded to 53 significant bits; what lies below 2 ^ 53 is rounded to an integer.
unfoldable pub round : ℕ → ℕ → ℕ
round n d = let u = 2 ^ exponent (n / d) (n / d) in half_even n (d * u) * u

one_third : round (2 ^ 54) 3 ≡ 6004799503160661
unfolding round half_even exponent
one_third = refl

big_tie : round (2 ^ 60 + 2 ^ 7 + 2 ^ 6) 1 ≡ 2 ^ 60 + 2 ^ 8
unfolding round half_even exponent
big_tie = refl

half_even_bounds : (n d : ℕ) → (n / d ≤ half_even n d) × (half_even n d ≤ n / d + 1)
unfolding half_even
half_even_bounds n d = ground arith

div_mono : (m a n b : ℕ) → 0 < a → 0 < b → m * b ≤ n * a → m / a ≤ n / b
div_mono m a n b ha hb h =
    let low : m / a * b * a ≤ n * a = omega (arith, mul-le-mul_right b (div-mul-le_self m a)) in
    (le-div_iff_mul-le hb).1 (le_of_mul-le-mul_right low ha)

-- With equal integer parts the remainders are in the same order.
remainder_mono : (m a n b : ℕ) → m / a ≡ n / b → m * b ≤ n * a → m % a * b ≤ n % b * a
remainder_mono m a n b e h =
    let m_parts : m / a * a * b + m % a * b ≡ m * b =
      omega (arith, ap (λ (t : ℕ). t * b) (div-add-mod' m a)) in
    let n_parts : n / b * b * a + n % b * a ≡ n * a =
      omega (arith, ap (λ (t : ℕ). t * a) (div-add-mod' n b)) in
    let same : m / a * a * b ≡ n / b * b * a = rw e (omega arith) in omega arith

twice_lt : (r a s b : ℕ) → 0 < a → r * b ≤ s * a → 2 * s < b → 2 * r < a
twice_lt r a s b ha h k =
    let scaled : 2 * s * a < b * a = mul-lt-mul_of_pos_right k ha in
    lt_of_mul-lt-mul_right b (omega arith)

twice_le : (r a s b : ℕ) → 0 < b → r * b ≤ s * a → 2 * s ≤ b → 2 * r ≤ a
twice_le r a s b hb h k =
    let scaled : 2 * s * a ≤ b * a = mul-le-mul_right a k in
    le_of_mul-le-mul_right {k = b} (omega arith) hb

pub half_even_mono : (m a n b : ℕ) → 0 < a → 0 < b → m * b ≤ n * a → half_even m a ≤ half_even n b
half_even_mono m a n b ha hb h = elim (dec_lt (m / a) (n / b)) [
  | yes p ↦ omega (arith, half_even_bounds m a, half_even_bounds n b)
  | no p ↦
      let e : m / a ≡ n / b = omega (arith, div_mono m a n b ha hb h) in
      unfold half_even in
      ground (
        arith,
        e,
        twice_lt (m % a) a (n % b) b ha (remainder_mono m a n b e h),
        twice_le (m % a) a (n % b) b hb (remainder_mono m a n b e h),
      )
]

-- e is the exponent of q.
abbrev Fits : ℕ → ℕ → Type 0
Fits q e = (q < 2 ^ 53 * 2 ^ e) × ((e ≡ 0) ⊎ (2 ^ 52 * 2 ^ e ≤ q))

pow_next : (e : ℕ) → 2 ^ (e + 1) ≡ 2 * 2 ^ e
pow_next e = simp towards_suc (omega arith)

Fits-double : (q e : ℕ) → ¬ (q < 2 ^ 53) → Fits (q / 2) e → Fits q (e + 1)
Fits-double q e big (above, inl nil) = (omega (arith, pow_next e), inr (rw nil (omega arith)))
Fits-double q e big (above, inr below) =
    (omega (arith, pow_next e), inr (omega (arith, pow_next e)))

-- With enough fuel the halvings reach the exponent.
exponent-Fits : (f q : ℕ) → q ≤ f → Fits q (exponent f q)
unfolding exponent
exponent-Fits zero q h = (omega arith, inl refl)
exponent-Fits (suc f) q h = elim (Bool-cases (ltb q (2 ^ 53))) [
  | inl small ↦ rw small (omega (arith, ltb→lt q (2 ^ 53) small), inl refl)
  | inr large ↦ rw large (Fits-double q _ (ground arith) (exponent-Fits f (q / 2) (omega arith)))
]

pow_gap : (k e : ℕ) → 2 * 2 ^ e ≤ 2 ^ (e + 1 + k)
pow_gap zero e = let same : e + 1 + 0 ≡ e + 1 = omega arith in rw (same, pow_next e) (omega arith)
pow_gap (suc k) e =
    let next : e + 1 + suc k ≡ e + 1 + k + 1 = omega arith in
    rw (next, pow_next (e + 1 + k)) (omega (arith, pow_gap k e))

pow_lt : (d e : ℕ) → d < e → 2 * 2 ^ d ≤ 2 ^ e
pow_lt d e h =
    let split : e ≡ d + 1 + (e - (d + 1)) = omega arith in rw split (pow_gap (e - (d + 1)) d)

-- Larger numbers have larger exponents.
Fits-mono : (p q d e : ℕ) → Fits p d → Fits q e → p ≤ q → d ≤ e
Fits-mono p q d e fp fq h = elim (dec_lt e d) [
  | yes less ↦ ground (arith, pow_lt e d less)
  | no more ↦ omega arith
]

pow_pos : (e : ℕ) → 0 < 2 ^ e
pow_pos zero = omega arith
pow_pos (suc e) =
    let next : suc e ≡ e + 1 = omega arith in rw (next, pow_next e) (omega (arith, pow_pos e))

product_pos : (a b : ℕ) → 0 < a → 0 < b → 0 < a * b
product_pos a b ha hb = grind arith

half_even_below : (n d u k : ℕ) → 0 < d → 0 < u → n / d < k * u → half_even n (d * u) ≤ k
half_even_below n d u k hd hu h =
    let product : n < k * u * d = (div-lt_iff_lt-mul hd).0 h in
    let small : n / (d * u) < k = (div-lt_iff_lt-mul (product_pos d u hd hu)).1 (omega arith) in
    omega (arith, half_even_bounds n (d * u))

half_even_above : (n d u k : ℕ) → 0 < d → 0 < u → k * u ≤ n / d → k ≤ half_even n (d * u)
half_even_above n d u k hd hu h =
    let product : k * u * d ≤ n = (le-div_iff_mul-le hd).0 h in
    let large : k ≤ n / (d * u) = (le-div_iff_mul-le (product_pos d u hd hu)).1 (omega arith) in
    omega (arith, half_even_bounds n (d * u))

-- The rounding at a given exponent.
abbrev round_at : ℕ → ℕ → ℕ → ℕ
round_at n d e = half_even n (d * 2 ^ e) * 2 ^ e

round_at_mono :
    (m a n b d e : ℕ)
    → 0 < a
    → 0 < b
    → m * b ≤ n * a
    → Fits (m / a) d
    → Fits (n / b) e
    → d ≤ e
    → round_at m a d ≤ round_at n b e
round_at_mono m a n b d e ha hb h (below, _) (_, least) le = elim (dec_lt d e) [
  | yes less ↦
      let least' : 2 ^ 52 * 2 ^ e ≤ n / b = ground arith in
      omega (
        arith,
        pow_lt d e less,
        mul-le-mul_right (2 ^ d) (half_even_below m a (2 ^ d) (2 ^ 53) ha (pow_pos d) below),
        mul-le-mul_right (2 ^ e) (half_even_above n b (2 ^ e) (2 ^ 52) hb (pow_pos e) least'),
      )
  | no same ↦
      let e' : d ≡ e = omega arith in
      let scaled : m * (b * 2 ^ e) ≤ n * (a * 2 ^ e) = omega (arith, mul-le-mul_right (2 ^ e) h) in
      rw e' (
        mul-le-mul_right (2 ^ e) (
          half_even_mono m (a * 2 ^ e) n (b * 2 ^ e) (product_pos a _ ha (pow_pos e))
            (product_pos b _ hb (pow_pos e)) scaled))
]

-- Rounding respects the order of the quotients.
pub round_mono : (m a n b : ℕ) → 0 < a → 0 < b → m * b ≤ n * a → round m a ≤ round n b
unfolding round
round_mono m a n b ha hb h =
    let fm = exponent-Fits (m / a) (m / a) (le_refl _) in
    let fn = exponent-Fits (n / b) (n / b) (le_refl _) in
    let le = Fits-mono (m / a) (n / b) _ _ fm fn (div_mono m a n b ha hb h) in
    round_at_mono m a n b _ _ ha hb h fm fn le

pub round_congr : (m a n b : ℕ) → 0 < a → 0 < b → m * b ≡ n * a → round m a ≡ round n b
round_congr m a n b ha hb h =
    omega (arith, round_mono m a n b ha hb (omega arith), round_mono n b m a hb ha (omega arith))

half_even-zero : (d : ℕ) → half_even 0 d ≡ 0
unfolding half_even
half_even-zero d = ground (arith, zero-div d, zero-mod d)

pub round-zero : (d : ℕ) → round 0 d ≡ 0
unfolding round
round-zero d = unfolded
  where
    unfolded : half_even 0 (d * 2 ^ exponent (0 / d) (0 / d)) * 2 ^ exponent (0 / d) (0 / d) ≡ 0
    unfolded = ground (arith, half_even-zero (d * 2 ^ exponent (0 / d) (0 / d)))
