-- ===== src/Gateway/Keys.antt =====
-- The keys of gateway/src/main/java/com/aisecfirewall/gateway/service/RedisStateService.java by their purposes,
-- and what each may hold.
use Prim.Native.Char.{code}
use Prim.Native.String.{◌++◌ as append}
use package.text.Mathlib.TextLemmas.{head-eq_of_cons-eq, cons-append}
use d_ai_api_sec.Prelude.{
  str_eq, eq_iff, ℕ, ◌≡◌, false, String, Option, none, some, ap, sym, ◌∙◌, ◌⊎◌, inl, inr,
  Bool-cases, arith,
}
use d_ai_api_sec.Gateway.Redis.{
  Value, count, text, Entry, is_live, if_live, blocklist_key, count_key, streak_key,
}

abbrev pub IsCount : Value → Type 0
IsCount (count n) = Unit
IsCount (text t) = ⊥

-- Only the blocklist holds texts.
abbrev pub IsKept : String → Entry → Type 0
IsKept key e = IsCount e.value ⊎ ((ip : String) × (key ≡ blocklist_key ip))

-- A key of another purpose.
abbrev pub Apart : String → Type 0
Apart key = (ip : String) → ¬ (key ≡ blocklist_key ip)

pub count_key-Apart : (ip endpoint : String) → Apart (count_key ip endpoint)
count_key-Apart ip endpoint other e =
    let h = ap code (
      head-eq_of_cons-eq (
        sym (cons-append _ "ount:" (append ip (append ":" endpoint)))
        ∙ e
        ∙ cons-append _ "locklist:" other)) in
    omega arith

pub streak_key-Apart : (identity : String) → Apart (streak_key identity)
streak_key-Apart identity other e =
    let h = ap code (
      head-eq_of_cons-eq
        (sym (cons-append _ "ailstreak:" identity) ∙ e ∙ cons-append _ "locklist:" other)) in
    omega arith

pub if_live-some : (now : ℕ) (o : Option Entry) (v : Entry) → if_live now o ≡ some v → o ≡ some v
if_live-some now none v e = cc
if_live-some now (some w) v e = elim (Bool-cases (is_live now w.expires)) [
  | inl live ↦ rw live at e
  | inr gone ↦ let never : none ≡ some v = rw gone at e in cc
]

pub IsKept-IsCount : (key : String) (v : Entry) → Apart key → IsKept key v → IsCount v.value
IsKept-IsCount key v apart (inl h) = h
IsKept-IsCount key v apart (inr (ip, e)) = absurd (apart ip e)

-- Entries of the blocklist, by the client, that are to stay.
abbrev pub Holding : Type 0
Holding = String → Option Entry

abbrev pub nothing : Holding
nothing ip = none

-- A key that none of them has.
abbrev pub IsFree : Holding → String → Type 0
IsFree holding key =
    (ip : String) (e : Entry) → holding ip ≡ some e → str_eq key (blocklist_key ip) ≡ false

pub Apart-IsFree : (holding : Holding) (key : String) → Apart key → IsFree holding key
Apart-IsFree holding key apart ip e h = elim (Bool-cases (str_eq key (blocklist_key ip))) [
  | inl same ↦ absurd (apart ip ((eq_iff key (blocklist_key ip)).0 same))
  | inr other ↦ other
]
