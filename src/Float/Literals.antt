-- ===== src/Float/Literals.antt =====
-- Facts about the literals of the sources, by evaluation.
use d_ai_api_sec.Prelude.{◌≡◌, refl, ◌^◌}
use d_ai_api_sec.Prelude.Int.{pos}
use d_ai_api_sec.Float.{dec, nought, ◌≺◌, arithmetic, IsFinite, quotient, of_ratio, unit, mul, add}

pub dec-zero : dec 0 1 ≡ nought
unfolding arithmetic
dec-zero = refl

pub epsilon_pos : nought ≺ dec 1 6
unfolding arithmetic
epsilon_pos = refl

pub ten_pos : nought ≺ dec 100 1
unfolding arithmetic
ten_pos = refl

pub tiny_ratio_pos : nought ≺ quotient (dec 1 100) (dec (10 ^ 100) 0)
unfolding arithmetic
tiny_ratio_pos = refl

pub tiny_pos : nought ≺ dec 1 100
unfolding arithmetic
tiny_pos = refl

pub tiny-IsFinite : IsFinite (dec 1 100)
unfolding arithmetic
tiny-IsFinite = refl

pub huge-IsFinite : IsFinite (dec (10 ^ 100) 0)
unfolding arithmetic
huge-IsFinite = refl

pub one-of_ratio : dec 1 0 ≡ of_ratio (pos unit) 1
unfolding arithmetic
one-of_ratio = refl

pub one-IsFinite : IsFinite (dec 1 0)
unfolding arithmetic
one-IsFinite = refl

-- one part in 2 ^ 63
pub least_share_pos : nought ≺ of_ratio (pos unit) (2 ^ 63)
unfolding arithmetic
least_share_pos = refl

pub one-mul-nought : mul (dec 1 0) nought ≡ nought
unfolding arithmetic
one-mul-nought = refl

pub nought-add-nought : add nought nought ≡ nought
unfolding arithmetic
nought-add-nought = refl

pub one_literal : dec 10 1 ≡ dec 1 0
unfolding arithmetic
one_literal = refl

pub one_pos : nought ≺ dec 1 0
unfolding arithmetic
one_pos = refl
