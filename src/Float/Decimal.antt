-- ===== src/Float/Decimal.antt =====
-- `round(x, 4)` respects the order and keeps the decimals of the sources.
use native.Mathlib.Nat.{mul-le-mul_right}
use d_ai_api_sec.Prelude.{◌*◌, ◌^◌, ◌≤◌, ◌≡◌, refl, arith}
use d_ai_api_sec.Prelude.Int.{pos}
use d_ai_api_sec.Float.{Float, fin, round_4, unit, nought, dec, ◌≼◌, IsFinite, arithmetic}
use d_ai_api_sec.Float.Round.{half_even_mono}
use d_ai_api_sec.Float.Arith.{of_ratio_mono, unit_pos}

pub round_4_mono : (x y : Float) → nought ≼ x → x ≼ y → IsFinite y → round_4 x ≼ round_4 y
unfolding round_4
round_4_mono (fin (pos m)) (fin (pos n)) p q r =
    let m-le-n : m ≤ n = ground arith in
    let rounded =
      half_even_mono (m * 10 ^ 4) unit (n * 10 ^ 4) unit unit_pos unit_pos
        (mul-le-mul_right unit (mul-le-mul_right (10 ^ 4) m-le-n)) in
    of_ratio_mono _ _ (10 ^ 4) (10 ^ 4) (omega arith) (omega arith)
      (omega (arith, mul-le-mul_right (10 ^ 4) (mul-le-mul_right unit rounded)))
round_4_mono x y p q r = ground arith

pub round_4-nought : round_4 nought ≡ nought
unfolding arithmetic
round_4-nought = refl

pub round_4-one : round_4 (dec 1 0) ≡ dec 1 0
unfolding arithmetic
round_4-one = refl

pub round_4-block : round_4 (dec 85 2) ≡ dec 85 2
unfolding arithmetic
round_4-block = refl

pub round_4-challenge : round_4 (dec 60 2) ≡ dec 60 2
unfolding arithmetic
round_4-challenge = refl
