-- ===== src/Float/Tests.antt =====
-- Runs of the arithmetic.
use d_ai_api_sec.Prelude.{◌≡◌, refl, true}
use d_ai_api_sec.Float.{dec, add, mul, div, true_div, round_4, arithmetic, lt}

-- 0.1 + 0.2 is not 0.3
tenths : lt (dec 3 1) (add (dec 1 1) (dec 2 1)) ≡ true
unfolding arithmetic
tenths = refl

weights : add (mul (dec 35 2) (dec 1 0)) (mul (dec 65 2) (dec 1 0)) ≡ dec 1 0
unfolding arithmetic
weights = refl

thirds : true_div 1 3 ≡ div (dec 1 0) (dec 3 0)
unfolding arithmetic
thirds = refl

rounded : round_4 (dec 123456789 9) ≡ dec 1235 4
unfolding arithmetic
rounded = refl
