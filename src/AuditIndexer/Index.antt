-- ===== src/AuditIndexer/Index.antt =====
-- The daily index of audit-indexer/indexer.py: `_index_name`.
use Prim.Native.Char.{Char, code}
use Prim.Native.String.{[], ◌∷◌, ◌++◌, char_at}
use package.text.Mathlib.TextLemmas.{append_cancel_left, head-eq_of_cons-eq, tail-eq_of_cons-eq}
use d_ai_api_sec.Prelude.{
  ℕ, zero, suc, ◌+◌, ◌/◌, ◌%◌, ◌≤◌, ◌<◌, ◌≡◌, refl, ap, sym, ◌∙◌, String, arith,
}

-- A day of the proleptic Gregorian calendar as `datetime` has it.
pub record Date : Type 0 where
  pub year : ℕ
  pub month : ℕ
  pub day : ℕ

abbrev digit : ℕ → Char
digit n = char_at "0123456789" n

-- `f"api-audit-events-{now:%Y.%m.%d}"`, for years of four digits
unfoldable pub index_name : Date → String
index_name d =
    "api-audit-events-"
    ++ (digit (d.year / 1000 % 10)
        ∷ digit (d.year / 100 % 10)
        ∷ digit (d.year / 10 % 10)
        ∷ digit (d.year % 10)
        ∷ "."
        ∷ digit (d.month / 10 % 10)
        ∷ digit (d.month % 10)
        ∷ "."
        ∷ digit (d.day / 10 % 10)
        ∷ digit (d.day % 10)
        ∷ [])

-- The ranges of a `datetime` from the year 1000 on.
pub record IsDate (d : Date) : Type 0 where
  pub year_low : 1000 ≤ d.year
  pub year_high : d.year < 10000
  pub month : d.month ≤ 12
  pub day : d.day ≤ 31

code-digit : (n : ℕ) → n < 10 → code (digit n) ≡ 48 + n
code-digit zero h = refl
code-digit (suc zero) h = refl
code-digit (suc (suc zero)) h = refl
code-digit (suc (suc (suc zero))) h = refl
code-digit (suc (suc (suc (suc zero)))) h = refl
code-digit (suc (suc (suc (suc (suc zero))))) h = refl
code-digit (suc (suc (suc (suc (suc (suc zero)))))) h = refl
code-digit (suc (suc (suc (suc (suc (suc (suc zero))))))) h = refl
code-digit (suc (suc (suc (suc (suc (suc (suc (suc zero)))))))) h = refl
code-digit (suc (suc (suc (suc (suc (suc (suc (suc (suc zero))))))))) h = refl
code-digit (suc (suc (suc (suc (suc (suc (suc (suc (suc (suc n)))))))))) h = absurd (omega arith)

digit_injective : (m n : ℕ) → m < 10 → n < 10 → digit m ≡ digit n → m ≡ n
digit_injective m n hm hn e = omega (arith, sym (code-digit m hm) ∙ ap code e ∙ code-digit n hn)

digit_eq : (m n : ℕ) → digit (m % 10) ≡ digit (n % 10) → m % 10 ≡ n % 10
digit_eq m n e = digit_injective (m % 10) (n % 10) (omega arith) (omega arith) e

two_digits : (m n : ℕ) → m < 100 → n < 100 → m / 10 % 10 ≡ n / 10 % 10 → m % 10 ≡ n % 10 → m ≡ n
two_digits m n hm hn a b = omega arith

four_digits :
    (m n : ℕ)
    → m < 10000
    → n < 10000
    → m / 1000 % 10 ≡ n / 1000 % 10
    → m / 100 % 10 ≡ n / 100 % 10
    → m / 10 % 10 ≡ n / 10 % 10
    → m % 10 ≡ n % 10
    → m ≡ n
four_digits m n hm hn a b c d = omega arith

date_eq : (c d : Date) → c.year ≡ d.year → c.month ≡ d.month → c.day ≡ d.day → c ≡ d
date_eq c d y m k = λ i. record { year = y i; month = m i; day = k i }

-- Two days of the years 1000 to 9999 whose indices have the same name are the same: every day has an
-- index of its own.
index_name_injective : (c d : Date) → IsDate c → IsDate d → index_name c ≡ index_name d → c ≡ d
unfolding index_name
index_name_injective c d hc hd e =
    let e0 = append_cancel_left "api-audit-events-" _ _ e in
    let e1 = tail-eq_of_cons-eq e0 in
    let e2 = tail-eq_of_cons-eq e1 in
    let e3 = tail-eq_of_cons-eq e2 in
    let e4 = tail-eq_of_cons-eq (tail-eq_of_cons-eq e3) in
    let e5 = tail-eq_of_cons-eq e4 in
    let e6 = tail-eq_of_cons-eq (tail-eq_of_cons-eq e5) in
    let e7 = tail-eq_of_cons-eq e6 in
    let y3 = digit_eq (c.year / 1000) (d.year / 1000) (head-eq_of_cons-eq e0) in
    let y2 = digit_eq (c.year / 100) (d.year / 100) (head-eq_of_cons-eq e1) in
    let y1 = digit_eq (c.year / 10) (d.year / 10) (head-eq_of_cons-eq e2) in
    let y0 = digit_eq c.year d.year (head-eq_of_cons-eq e3) in
    let m1 = digit_eq (c.month / 10) (d.month / 10) (head-eq_of_cons-eq e4) in
    let m0 = digit_eq c.month d.month (head-eq_of_cons-eq e5) in
    let d1 = digit_eq (c.day / 10) (d.day / 10) (head-eq_of_cons-eq e6) in
    let d0 = digit_eq c.day d.day (head-eq_of_cons-eq e7) in
    date_eq c d (four_digits c.year d.year hc.year_high hd.year_high y3 y2 y1 y0)
      (two_digits c.month d.month (omega (arith, hc.month)) (omega (arith, hd.month)) m1 m0)
      (two_digits c.day d.day (omega (arith, hc.day)) (omega (arith, hd.day)) d1 d0)
