-- ===== src/Errors.antt =====
-- The exceptions that the services raise or meet, as values, and the monad of code that may raise.
use d_ai_api_sec.Prelude.{Bool, true, false, Option, none, some, ◌≡◌, refl, ℕ}

pub data Error : Type 0 where
  value_error zero_division overflow_error type_error key_error attribute_error : Error
  validation_error file_error connection_error timeout_error cancelled assertion_error : Error
  http_error : ℕ → Error

pub data Result {ℓ} (A : Type ℓ) : Type ℓ where
  ok : A → Result A
  err : Error → Result A

abbrev pub or_raise {ℓ} : {A : Type ℓ} → Option A → Error → Result A
or_raise none e = err e
or_raise (some a) e = ok a

abbrev pub raise_if : Bool → Error → Result (Unit {0})
raise_if true e = err e
raise_if false e = ok tt

module _ {ℓ κ} {A : Type ℓ} {B : Type κ} where
  infixl 5 ◌>>=◌
  -- What follows a computation runs on its value, if there is one.
  abbrev pub ◌>>=◌ : Result A → (A → Result B) → Result B
  ok value >>= rest = rest value
  err e >>= rest = err e

  -- A value at the end was computed from one in the middle.
  pub >>=-eq-ok :
      (first : Result A) (rest : A → Result B) {value : B}
      → (first >>= rest) ≡ ok value
      → (a : A) × (first ≡ ok a) × (rest a ≡ ok value)
  >>=-eq-ok (ok a) rest h = (a, refl, h)
  >>=-eq-ok (err q) rest h = cc

module _ {ℓ} {B : Type ℓ} where
  infixl 5 ◌>>◌
  abbrev pub ◌>>◌ : Result (Unit {0}) → Result B → Result B
  check >> rest = check >>= λ _. rest

pub ok-injective {ℓ} : {A : Type ℓ} {a b : A} → ok a ≡ ok b → a ≡ b
ok-injective e = cc
