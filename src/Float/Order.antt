-- ===== src/Float/Order.antt =====
-- The order of the values.
use d_ai_api_sec.Prelude.{◌≡◌, false, not, ◌⊎◌, arith}
use d_ai_api_sec.Float.{Float, le, lt, ◌≼◌, ◌≺◌, IsNumber, IsFinite}

pub le_trans : (x y z : Float) → x ≼ y → y ≼ z → x ≼ z
le_trans x y z p q = ground arith

pub IsNumber-of_le : (x y : Float) → x ≼ y → IsNumber x × IsNumber y
IsNumber-of_le x y p = ground arith

pub le_total : (x y : Float) → IsNumber x → IsNumber y → (x ≼ y) ⊎ (y ≼ x)
le_total x y p q = ground arith

pub lt-eq-not-le : (x y : Float) → IsNumber x → IsNumber y → lt x y ≡ not (le y x)
lt-eq-not-le x y p q = ground arith

pub le_of_lt : (x y : Float) → x ≺ y → x ≼ y
le_of_lt x y p = ground arith

pub not-lt_of_le : (x y : Float) → x ≼ y → lt y x ≡ false
not-lt_of_le x y p = ground arith

pub le_of_not-lt : (x y : Float) → IsNumber x → IsNumber y → lt x y ≡ false → y ≼ x
le_of_not-lt x y p q r = ground arith

pub lt_of_lt_of_le : (x y z : Float) → x ≺ y → y ≼ z → x ≺ z
lt_of_lt_of_le x y z p q = ground arith

pub lt_of_le_of_lt : (x y z : Float) → x ≼ y → y ≺ z → x ≺ z
lt_of_le_of_lt x y z p q = ground arith

pub le_antisymm : (x y : Float) → x ≼ y → y ≼ x → x ≡ y
le_antisymm x y p q = ground arith

pub finite_between : (a x b : Float) → IsFinite a → IsFinite b → a ≼ x → x ≼ b → IsFinite x
finite_between a x b p q r s = ground arith

pub finite-IsNumber : (x : Float) → IsFinite x → IsNumber x
finite-IsNumber x p = ground arith

pub not-le_of_lt : (x y : Float) → x ≺ y → le y x ≡ false
not-le_of_lt x y p = ground arith

pub not-le-lt : (x y : Float) → x ≼ y → ¬ (y ≺ x)
not-le-lt x y p q = ground arith

pub lt_trans : (x y z : Float) → x ≺ y → y ≺ z → x ≺ z
lt_trans x y z p q = ground arith

pub le_of_not-le : (x y : Float) → IsNumber x → IsNumber y → le x y ≡ false → y ≼ x
le_of_not-le x y p q r = ground arith

pub lt_of_not-le : (x y : Float) → IsNumber x → IsNumber y → le x y ≡ false → y ≺ x
lt_of_not-le x y p q r = ground arith
