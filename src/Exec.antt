-- ===== src/Exec.antt =====
-- Code that changes a state and may raise; what was written before a raise stays written.
use d_ai_api_sec.Prelude.{◌≡◌, refl, ap, ◌∙◌}
use d_ai_api_sec.Errors.{Error, Result, ok, err}

abbrev pub Exec : Type 0 → Type 0 → Type 0
Exec S A = S → Result A × S

infixl 5 ◌>>=◌ ◌>>◌
abbrev pub ◌>>=◌ : {S A B : Type 0} → Exec S A → (A → Exec S B) → Exec S B
◌>>=◌ m f s = let (r, s') = m s in elim r [ ok a ↦ f a s' | err e ↦ (err e, s') ]

abbrev pub ◌>>◌ : {S A B : Type 0} → Exec S A → Exec S B → Exec S B
m >> k = m >>= λ _. k

module _ {S A : Type 0} where
  abbrev pub pure : A → Exec S A
  pure a s = (ok a, s)

  abbrev pub raise : Error → Exec S A
  raise e s = (err e, s)

  abbrev pub lift : Result A → Exec S A
  lift r s = (r, s)

  abbrev pub gets : (S → A) → Exec S A
  gets f s = (ok (f s), s)

abbrev pub modify : {S : Type 0} → (S → S) → Exec S Unit
modify f s = (ok tt, f s)

-- A run that raised did not return.
pub err-ne-ok :
    {S A : Type 0} (q : Error) (a : A) (s s' : S) → ¬ (◌≡◌ {A = Result A × S} (err q, s) (ok a, s'))
err-ne-ok {S} {A} q a s s' e = let h = ap {B = Result A} (λ (p : Result A × S). p.0) e in cc

-- A step that returned is followed by the rest.
pub bind-ok :
    {S A B : Type 0} (m : Exec S A) (f : A → Exec S B) (s : S) {a : A} {s' : S}
    → m s ≡ (ok a, s')
    → (m >>= f) s ≡ f a s'
bind-ok {S} {A} {B} m f s e =
    ap {B = Result B × S} (λ (p : Result A × S). elim p.0 [ ok x ↦ f x p.1 | err q ↦ (err q, p.1) ])
      e

-- A step that raised ends the run.
pub bind-err :
    {S A B : Type 0} (m : Exec S A) (f : A → Exec S B) (s : S) {q : Error} {s' : S}
    → m s ≡ (err q, s')
    → (m >>= f) s ≡ (err q, s')
bind-err {S} {A} {B} m f s e =
    ap {B = Result B × S} (λ (p : Result A × S). elim p.0 [ ok x ↦ f x p.1 | err q ↦ (err q, p.1) ])
      e

-- What a step leaves and the rest keeps, the whole keeps, whether it raises or not.
pub then-keeps :
    {S : Type 0} (P : S → Type 0) (m k : Exec S (Unit {0})) (s : S)
    → P (m s).1
    → ((t : S) → P t → P (k t).1)
    → P ((m >> k) s).1
then-keeps {S} P m k s h rest = by_result (m s) h
  where
    by_result :
        (r : Result (Unit {0}) × S)
        → P r.1
        → P (elim r.0 as (λ q. Result (Unit {0}) × S) [ ok x ↦ k r.1 | err e ↦ (err e, r.1) ]).1
    by_result (ok x, t) p = rest t p
    by_result (err e, t) p = p

-- A run that returned has got a value from a step that only computes.
pub lift-eq-ok :
    {S A B : Type 0} (r : Result A) (f : A → Exec S B) (s : S) {b : B} {t : S}
    → (lift r >>= f) s ≡ (ok b, t)
    → (a : A) × (r ≡ ok a) × (f a s ≡ (ok b, t))
lift-eq-ok (ok a) f s e = (a, refl, e)
lift-eq-ok {S} {A} {B} (err q) f s {b} {t} e = absurd (err-ne-ok q b s t e)

-- A run that returned has got a value and a state from its first step.
pub bind-eq-ok :
    {S A B : Type 0} (m : Exec S A) (f : A → Exec S B) (s : S) {b : B} {t : S}
    → (m >>= f) s ≡ (ok b, t)
    → (a : A) × (s' : S) × (m s ≡ (ok a, s')) × (f a s' ≡ (ok b, t))
bind-eq-ok {S} {A} {B} m f s {b} {t} e = by_result (m s) refl e
  where
    by_result :
        (r : Result A × S)
        → m s ≡ r
        → elim r.0 as (λ q. Result B × S) [ ok x ↦ f x r.1 | err q ↦ (err q, r.1) ] ≡ (ok b, t)
        → (a : A) × (s' : S) × (m s ≡ (ok a, s')) × (f a s' ≡ (ok b, t))
    by_result (ok a, s') h k = (a, s', h, k)
    by_result (err q, s') h k = absurd (err-ne-ok q b s' t k)

-- The code returns, and what holds of the state before it holds behind it.
abbrev pub Returns : {S A : Type 0} → (S → Type 0) → Exec S A → S → Type 0
Returns {S} {A} P m s = (a : A) × (s' : S) × (m s ≡ (ok a, s')) × P s'

pub pure-Returns : {S A : Type 0} (P : S → Type 0) (a : A) (s : S) → P s → Returns P (pure a) s
pure-Returns P a s h = (a, s, refl, h)

pub then-Returns :
    {S A B : Type 0} (P : S → Type 0) (m : Exec S A) (f : A → Exec S B) (s : S)
    → Returns P m s
    → ((a : A) (t : S) → P t → Returns P (f a) t)
    → Returns P (m >>= f) s
then-Returns P m f s (a, t, e, h) rest =
    let (b, u, k, c) = rest a t h in (b, u, bind-ok m f s e ∙ k, c)

-- What holds however the first step ends, holds of the whole.
pub bind-ends :
    {S A B : Type 0} (P : Result B × S → Type 0) (m : Exec S A) (f : A → Exec S B) (s : S)
    → ((q : Error) (t : S) → m s ≡ (err q, t) → P (err q, t))
    → ((a : A) (t : S) → m s ≡ (ok a, t) → P (f a t))
    → P ((m >>= f) s)
bind-ends {S} {A} {B} P m f s raised returned = by_result (m s) refl
  where
    by_result :
        (r : Result A × S)
        → m s ≡ r
        → P (elim r.0 as (λ q. Result B × S) [ ok x ↦ f x r.1 | err q ↦ (err q, r.1) ])
    by_result (ok a, t) e = returned a t e
    by_result (err q, t) e = raised q t e
