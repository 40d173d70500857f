-- ===== src/Prelude/Dict.antt =====
-- A Python dict keyed by texts, in insertion order.
pub mod Lookup
use d_ai_api_sec.Prelude.{String, str_eq, Option, none, some, List, [], ◌∷◌, if◌then◌else◌}

abbrev pub Dict {ℓ} : Type ℓ → Type ℓ
Dict V = List (String × V)

module _ {ℓ} {V : Type ℓ} where
  -- `d.get(key)`
  abbrev pub lookup : String → Dict V → Option V
  lookup k [] = none
  lookup k ((j, v) ∷ d) = if str_eq j k then some v else lookup k d

  -- `d.get(key, default)`
  abbrev pub get : Dict V → String → V → V
  get [] k default = default
  get ((j, v) ∷ d) k default = if str_eq j k then v else get d k default

  -- `d[key] = value`
  abbrev pub insert : String → V → Dict V → Dict V
  insert k v [] = (k, v) ∷ []
  insert k v ((j, w) ∷ d) = if str_eq j k then (k, v) ∷ d else (j, w) ∷ insert k v d

  -- `d.pop(key, None)`, the value aside
  abbrev pub remove : String → Dict V → Dict V
  remove k [] = []
  remove k ((j, v) ∷ d) = let rest = remove k d in if str_eq j k then rest else (j, v) ∷ rest
