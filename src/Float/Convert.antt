-- ===== src/Float/Convert.antt =====
-- `float(n)` of an integer.
use native.Mathlib.Nat.{mul-le-mul_right}
use d_ai_api_sec.Prelude.{◌*◌, ◌^◌, ◌≤◌, ◌≡◌, refl, arith, ◌-◌}
use d_ai_api_sec.Prelude.Int.{ℤ, pos, negsuc, abs, ◌*ℤ◌, ◌≤ℤ◌}
use d_ai_api_sec.Errors.{ok}
use d_ai_api_sec.Float.{
  Float, float, finite_or_raise, of_ratio, unit, nought, dec, ◌≼◌, IsFinite, arithmetic,
}
use d_ai_api_sec.Float.Order.{finite_between}
use d_ai_api_sec.Float.Arith.{of_ratio_mono, scale_parts, unit_pos}

finite_or_raise_lem : (y x : Float) → finite_or_raise y ≡ ok x → (y ≡ x) × IsFinite y
finite_or_raise_lem y x e = ground arith

-- A conversion that returns keeps the order between integers that convert.
pub float_mono : (m n : ℤ) (x y : Float) → m ≤ℤ n → float m ≡ ok x → float n ≡ ok y → x ≼ y
unfolding float
float_mono m n x y h e k =
    let (same_x, _) = finite_or_raise_lem (of_ratio (m *ℤ pos unit) 1) x e in
    let (same_y, _) = finite_or_raise_lem (of_ratio (n *ℤ pos unit) 1) y k in
    rw (← same_x) (
      rw (← same_y) (
        of_ratio_mono (m *ℤ pos unit) (n *ℤ pos unit) 1 1 (omega arith) (omega arith) (
          rw (scale_parts m unit).0 (
            rw (scale_parts m unit).1 (
              rw (scale_parts n unit).0
                (rw (scale_parts n unit).1 (omega (arith, mul-le-mul_right unit h))))))))

float-zero : float (pos 0) ≡ ok nought
unfolding arithmetic
float-zero = refl

float-one : float (pos 1) ≡ ok (dec 1 0)
unfolding arithmetic
float-one = refl

pub float_nonneg : (n : ℤ) (x : Float) → pos 0 ≤ℤ n → float n ≡ ok x → nought ≼ x
float_nonneg n x h e = float_mono (pos 0) n nought x h float-zero e

pub float_le_one : (n : ℤ) (x : Float) → n ≤ℤ pos 1 → float n ≡ ok x → x ≼ dec 1 0
float_le_one n x h e = float_mono n (pos 1) x (dec 1 0) h e float-one

-- 2 ^ 53, to which every integer is exact
largest : Float
largest = of_ratio (pos (2 ^ 53 * unit)) 1

least : Float
least = of_ratio (negsuc (2 ^ 53 * unit - 1)) 1

largest-IsFinite : IsFinite largest
unfolding arithmetic largest
largest-IsFinite = refl

least-IsFinite : IsFinite least
unfolding arithmetic least
least-IsFinite = refl

finite_or_raise-finite : (y : Float) → IsFinite y → finite_or_raise y ≡ ok y
finite_or_raise-finite y h = ground arith

-- An integer of magnitude 2 ^ 53 or less converts.
pub float_total : (n : ℤ) → abs n ≤ 2 ^ 53 → (x : Float) × (float n ≡ ok x)
unfolding float largest least
float_total n h =
    let y = of_ratio (n *ℤ pos unit) 1 in
    let scaled = mul-le-mul_right unit h in
    let high : y ≼ largest =
      of_ratio_mono (n *ℤ pos unit) (pos (2 ^ 53 * unit)) 1 1 (omega arith) (omega arith)
        (rw (scale_parts n unit).0 (rw (scale_parts n unit).1 (omega arith))) in
    let low : least ≼ y =
      of_ratio_mono (negsuc (2 ^ 53 * unit - 1)) (n *ℤ pos unit) 1 1 (omega arith) (omega arith)
        (rw (scale_parts n unit).0 (rw (scale_parts n unit).1 (omega (arith, unit_pos)))) in
    (
      y,
      finite_or_raise-finite y
          (finite_between least y largest least-IsFinite largest-IsFinite low high),
    )
