-- ===== src/Float.antt =====
-- Python's `float`: an IEEE 754 binary64 value, with round to nearest and ties to even. A finite
-- value is a whole number of units of 2 ^ -1074, the least positive one, so that subnormal and
-- normal values are treated alike. The sign of a zero is not kept: no branch here
-- depends on it.
mod Round
pub mod Order
pub mod Arith
pub mod Literals
pub mod Convert
pub mod Decimal
mod Tests
use Round.{half_even, exponent, round}
use d_ai_api_sec.Prelude.{
  ℕ, zero, suc, ◌+◌, ◌-◌, ◌*◌, ◌^◌, ◌≡◌, refl, Bool, true, false, leb, Option, none, some, List, [],
  ◌∷◌, if◌then◌else◌,
}
use d_ai_api_sec.Prelude.Int.{ℤ, pos, negsuc, neg, ◌+ℤ◌, ◌*ℤ◌, leb_ℤ, ltb_ℤ}
use d_ai_api_sec.Errors.{Result, ok, err, zero_division, overflow_error}

pub data Float : Type 0 where
  nan neg_inf pos_inf : Float
  fin : ℤ → Float

-- 1.0, in units
unfoldable pub unit : ℕ
unit = 2 ^ 1074

unfoldable pub max_finite : ℕ
max_finite = (2 ^ 53 - 1) * 2 ^ 2045

unfoldable pub positive : ℕ → Float
positive m = if leb m max_finite then fin (pos m) else pos_inf

unfoldable pub negative : ℕ → Float
negative m = if leb m max_finite then fin (neg (pos m)) else neg_inf

-- The value nearest to z / d units; past the greatest finite one, an infinity.
unfoldable pub of_ratio : ℤ → ℕ → Float
of_ratio (pos n) d = positive (round n d)
of_ratio (negsuc n) d = negative (round (suc n) d)

-- The literal m * 10 ^ -k.
unfoldable pub dec : ℕ → ℕ → Float
dec m k = of_ratio (pos (m * unit)) (10 ^ k)

-- `x <= y`, which is false at NaN.
abbrev pub le : Float → Float → Bool
le (fin a) (fin b) = leb_ℤ a b
le neg_inf (fin b) = true
le neg_inf neg_inf = true
le neg_inf pos_inf = true
le (fin a) pos_inf = true
le pos_inf pos_inf = true
le _ _ = false

-- `x < y`, which is false at NaN.
abbrev pub lt : Float → Float → Bool
lt (fin a) (fin b) = ltb_ℤ a b
lt neg_inf (fin b) = true
lt neg_inf pos_inf = true
lt (fin a) pos_inf = true
lt _ _ = false

infix 4 ◌≼◌ ◌≺◌
abbrev pub ◌≼◌ : Float → Float → Type 0
x ≼ y = le x y ≡ true

abbrev pub ◌≺◌ : Float → Float → Type 0
x ≺ y = lt x y ≡ true

-- A value is no NaN if it is at most itself.
abbrev pub IsNumber : Float → Type 0
IsNumber x = x ≼ x

abbrev pub nought : Float
nought = fin (pos 0)

abbrev pub is_finite : Float → Bool
is_finite (fin a) = true
is_finite _ = false

abbrev pub IsFinite : Float → Type 0
IsFinite x = is_finite x ≡ true

abbrev pub minus : Float → Float
minus nan = nan
minus neg_inf = pos_inf
minus pos_inf = neg_inf
minus (fin a) = fin (neg a)

unfoldable pub add : Float → Float → Float
add (fin a) (fin b) = of_ratio (a +ℤ b) 1
add nan y = nan
add x nan = nan
add neg_inf pos_inf = nan
add pos_inf neg_inf = nan
add (fin a) y = y
add x y = x

unfoldable pub sub : Float → Float → Float
sub x y = add x (minus y)

pub data Sign : Type 0 where
  down flat up : Sign

abbrev pub sign : Float → Sign
sign nan = Sign.flat
sign neg_inf = Sign.down
sign pos_inf = Sign.up
sign (fin (pos zero)) = Sign.flat
sign (fin (pos (suc n))) = Sign.up
sign (fin (negsuc n)) = Sign.down

abbrev pub times : Sign → Sign → Sign
times Sign.down Sign.down = Sign.up
times Sign.down Sign.up = Sign.down
times Sign.up Sign.down = Sign.down
times Sign.up Sign.up = Sign.up
times _ _ = Sign.flat

-- The infinite product of that sign; of a zero and an infinity, NaN.
abbrev pub infinite : Sign → Float
infinite Sign.down = neg_inf
infinite Sign.up = pos_inf
infinite Sign.flat = nan

unfoldable pub mul : Float → Float → Float
mul nan y = nan
mul x nan = nan
mul (fin a) (fin b) = of_ratio (a *ℤ b) unit
mul x y = infinite (times (sign x) (sign y))

-- The quotient by a divisor that is not zero.
unfoldable pub quotient : Float → Float → Float
quotient nan y = nan
quotient x nan = nan
quotient (fin a) (fin (pos d)) = of_ratio (a *ℤ pos unit) d
quotient (fin a) (fin (negsuc d)) = of_ratio (neg a *ℤ pos unit) (suc d)
quotient (fin a) y = fin (pos 0)
quotient x (fin b) = infinite (times (sign x) (sign (fin b)))
quotient x y = nan

abbrev pub is_zero : Float → Bool
is_zero (fin (pos zero)) = true
is_zero _ = false

-- `x / y`: Python raises where the divisor is zero.
unfoldable pub div : Float → Float → Result Float
div x y = if is_zero y then err zero_division else ok (quotient x y)

-- The builtin `max`: the first argument, unless the second is greater.
abbrev pub max : Float → Float → Float
max x y = if lt x y then y else x

-- The builtin `min`: the first argument, unless the second is less.
abbrev pub min : Float → Float → Float
min x y = if lt y x then y else x

-- `float(n)`: an integer past the range raises.
abbrev pub finite_or_raise : Float → Result Float
finite_or_raise (fin a) = ok (fin a)
finite_or_raise _ = err overflow_error

unfoldable pub float : ℤ → Result Float
float n = finite_or_raise (of_ratio (n *ℤ pos unit) 1)

-- `m / n` of two natural numbers, rounded once.
unfoldable pub true_div : ℕ → ℕ → Result Float
true_div m zero = err zero_division
true_div m (suc n) = ok (of_ratio (pos (m * unit)) (suc n))

-- `round(x, 4)`: the nearest multiple of 1e-4, ties to even, and the value nearest to that.
unfoldable pub round_4 : Float → Float
round_4 (fin (pos n)) = of_ratio (pos (half_even (n * 10 ^ 4) unit * unit)) (10 ^ 4)
round_4 (fin (negsuc n)) = minus (of_ratio (pos (half_even (suc n * 10 ^ 4) unit * unit)) (10 ^ 4))
round_4 x = x

-- For runs: named on an `unfolding` line, it opens all of the arithmetic.
unfoldable pub arithmetic : Unit {0}
unfolding unit max_finite positive negative half_even exponent round of_ratio dec add sub mul
    quotient div float true_div round_4 ◌+ℤ◌ ◌*ℤ◌
arithmetic = tt
