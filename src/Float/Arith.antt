-- ===== src/Float/Arith.antt =====
-- Rounded arithmetic respects the order.
use native.Mathlib.Nat.{mul-le-mul, mul-le-mul_right}
use d_ai_api_sec.Prelude.{ℕ, zero, suc, ◌+◌, ◌*◌, ◌≤◌, ◌<◌, ◌≡◌, refl, arith}
use d_ai_api_sec.Prelude.Int.{ℤ, pos, negsuc, pos_part, neg_part, ◌+ℤ◌, ◌*ℤ◌, +ℤ_parts}
use d_ai_api_sec.Float.Round.{round_mono, round-zero}
use d_ai_api_sec.Float.{
  Float, fin, unit, max_finite, positive, negative, of_ratio, ◌≼◌, ◌≺◌, IsNumber, add, sub, mul,
  quotient, minus, nought, IsFinite,
}

pub unit_pos : 0 < unit
unfolding unit
unit_pos = omega arith

positive_mono : (m n : ℕ) → m ≤ n → positive m ≼ positive n
unfolding positive
positive_mono m n h = ground arith

negative_mono : (m n : ℕ) → m ≤ n → negative n ≼ negative m
unfolding negative
negative_mono zero zero h = ground arith
negative_mono zero (suc n) h = ground arith
negative_mono (suc m) zero h = elim h [ ]
negative_mono (suc m) (suc n) h = ground arith

negative-le-positive : (m n : ℕ) → negative m ≼ positive n
unfolding negative positive
negative-le-positive zero n = ground arith
negative-le-positive (suc m) n = ground arith

-- Rounding a quotient of integers respects the order of the quotients.
pub of_ratio_mono :
    (y z : ℤ) (d e : ℕ)
    → 0 < d
    → 0 < e
    → pos_part y * e + neg_part z * d ≤ pos_part z * d + neg_part y * e
    → of_ratio y d ≼ of_ratio z e
unfolding of_ratio
of_ratio_mono (pos m) (pos n) d e hd he h =
    positive_mono _ _ (round_mono m d n e hd he (omega arith))
of_ratio_mono (pos m) (negsuc n) d e hd he h = absurd (grind arith)
of_ratio_mono (negsuc m) (pos n) d e hd he h = negative-le-positive _ _
of_ratio_mono (negsuc m) (negsuc n) d e hd he h =
    negative_mono _ _ (round_mono (suc n) e (suc m) d he hd (omega arith))

pub of_ratio-IsNumber : (z : ℤ) (d : ℕ) → 0 < d → IsNumber (of_ratio z d)
of_ratio-IsNumber z d h = of_ratio_mono z z d d h h (omega arith)

pub add_mono :
    (a b c d : Float) → a ≼ b → c ≼ d → IsNumber (add a c) → IsNumber (add b d) → add a c ≼ add b d
unfolding add
add_mono (fin a) (fin b) (fin c) (fin d) p q r s =
    of_ratio_mono (a +ℤ c) (b +ℤ d) 1 1 (omega arith) (omega arith)
      (ground (arith, +ℤ_parts a c, +ℤ_parts b d))
add_mono a b c d p q r s = ground arith

minus_mono : (a b : Float) → a ≼ b → minus b ≼ minus a
minus_mono a b p = ground arith

pub sub_mono :
    (a b c d : Float) → a ≼ b → d ≼ c → IsNumber (sub a c) → IsNumber (sub b d) → sub a c ≼ sub b d
unfolding sub
sub_mono a b c d p q r s = add_mono a b (minus c) (minus d) p (minus_mono d c q) r s

pub add-IsNumber : (a b : Float) → IsFinite a → IsFinite b → IsNumber (add a b)
unfolding add
add-IsNumber (fin a) (fin b) p q = of_ratio-IsNumber _ 1 (omega arith)
add-IsNumber a b p q = ground arith

pub sub-IsNumber : (a b : Float) → IsFinite a → IsFinite b → IsNumber (sub a b)
unfolding sub
sub-IsNumber a b p q = add-IsNumber a (minus b) p (ground arith)

-- Scaling an integer by a natural number scales its parts.
pub scale_parts :
    (a : ℤ) (u : ℕ)
    → (pos_part (a *ℤ pos u) ≡ pos_part a * u) × (neg_part (a *ℤ pos u) ≡ neg_part a * u)
unfolding ◌*ℤ◌
scale_parts (pos a) u = ground arith
scale_parts (negsuc a) u = ground arith

scale_negative : (a b : ℕ) → pos_part (pos a *ℤ negsuc b) ≡ 0
unfolding ◌*ℤ◌
scale_negative a b = ground arith

pub of_ratio-zero : (d : ℕ) → of_ratio (pos 0) d ≡ nought
unfolding of_ratio positive max_finite
of_ratio-zero d = rw (round-zero d) refl

pub mul_mono :
    (a b c d : Float)
    → nought ≼ a
    → a ≼ b
    → nought ≼ c
    → c ≼ d
    → IsFinite b
    → IsFinite d
    → mul a c ≼ mul b d
unfolding mul
mul_mono (fin (pos a)) (fin (pos b)) (fin (pos c)) (fin (pos d)) o p n q r s =
    let a-le-b : a ≤ b = ground arith in
    let c-le-d : c ≤ d = ground arith in
    of_ratio_mono (pos a *ℤ pos c) (pos b *ℤ pos d) unit unit unit_pos unit_pos (
      rw (scale_parts (pos a) c).0 (
        rw (scale_parts (pos a) c).1 (
          rw (scale_parts (pos b) d).0 (
            rw (scale_parts (pos b) d).1
              (omega (arith, mul-le-mul_right unit (mul-le-mul a-le-b c-le-d)))))))
mul_mono a b c d o p n q r s = ground arith

pub mul-IsNumber : (a b : Float) → IsFinite a → IsFinite b → IsNumber (mul a b)
unfolding mul
mul-IsNumber (fin a) (fin b) p q = of_ratio-IsNumber _ unit unit_pos
mul-IsNumber a b p q = ground arith

pub mul_nonpos :
    (a b : Float) → nought ≼ a → b ≼ nought → IsFinite a → IsFinite b → mul a b ≼ nought
unfolding mul
mul_nonpos (fin (pos a)) (fin (pos zero)) p q r s = rw (← of_ratio-zero 1) (
    of_ratio_mono (pos a *ℤ pos 0) (pos 0) unit 1 unit_pos (omega arith)
      (rw (scale_parts (pos a) 0).0 (omega arith)))
mul_nonpos (fin (pos a)) (fin (negsuc b)) p q r s = rw (← of_ratio-zero 1) (
    of_ratio_mono (pos a *ℤ negsuc b) (pos 0) unit 1 unit_pos (omega arith)
      (rw (scale_negative a b) (omega arith)))
mul_nonpos a b p q r s = ground arith

pub quotient-IsNumber : (a b : Float) → IsFinite a → nought ≺ b → IsNumber (quotient a b)
unfolding quotient
quotient-IsNumber (fin a) (fin (pos b)) p q = of_ratio-IsNumber _ b (ground arith)
quotient-IsNumber a b p q = ground arith

pub quotient_mono :
    (a b c : Float) → a ≼ b → IsFinite a → IsFinite b → nought ≺ c → quotient a c ≼ quotient b c
unfolding quotient
quotient_mono (fin a) (fin b) (fin (pos c)) p q r s =
    let c_pos : 0 < c = ground arith in
    of_ratio_mono (a *ℤ pos unit) (b *ℤ pos unit) c c c_pos c_pos (
      rw (scale_parts a unit).0 (
        rw (scale_parts a unit).1 (
          rw (scale_parts b unit).0 (
            rw (scale_parts b unit).1
              (omega (arith, mul-le-mul_right c (mul-le-mul_right unit p')))))))
  where
    p' : pos_part a + neg_part b ≤ pos_part b + neg_part a
    p' = ground arith
quotient_mono a b c p q r s = ground arith

-- A larger positive divisor makes the quotient of a nonnegative value no larger.
pub quotient_anti :
    (a c d : Float)
    → nought ≼ a
    → IsFinite a
    → IsFinite d
    → nought ≺ c
    → c ≼ d
    → quotient a d ≼ quotient a c
unfolding quotient
quotient_anti (fin (pos a)) (fin (pos c)) (fin (pos d)) p q r s t =
    let c-le-d : c ≤ d = ground arith in
    of_ratio_mono (pos a *ℤ pos unit) (pos a *ℤ pos unit) d c (ground arith) (ground arith) (
      rw (scale_parts (pos a) unit).0
        (rw (scale_parts (pos a) unit).1 (omega (arith, mul-le-mul_right (a * unit) c-le-d))))
quotient_anti a c d p q r s t = ground arith

pub add_nonpos : (a b : Float) → a ≼ nought → b ≼ nought → add a b ≼ nought
unfolding add
add_nonpos (fin a) (fin b) p q =
    rw (← of_ratio-zero 1) (
      of_ratio_mono (a +ℤ b) (pos 0) 1 1 (omega arith) (omega arith) (ground (arith, +ℤ_parts a b)))
add_nonpos a b p q = ground arith
