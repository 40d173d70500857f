-- ===== src/Prelude/Dict/Lookup.antt =====
-- What a Python dict holds behind a write or a removal.
use d_ai_api_sec.Prelude.{
  ◌≡◌, refl, String, str_eq, eq_iff, false, none, some, [], ◌∷◌, inl, inr, Bool-cases,
}
use d_ai_api_sec.Prelude.Dict.{Dict, lookup, insert, remove}

module _ {ℓ} {V : Type ℓ} where
  pub lookup-insert : (k : String) (v : V) (d : Dict V) → lookup k (insert k v d) ≡ some v
  lookup-insert k v [] = rw ((eq_iff k k).1 refl) refl
  lookup-insert k v ((j, w) ∷ d) = elim (Bool-cases (str_eq j k)) [
    | inl same ↦ rw same (rw ((eq_iff k k).1 refl) refl)
    | inr other ↦ rw other (rw other (lookup-insert k v d))
  ]

  pub lookup-insert_other :
      (k j : String) (v : V) (d : Dict V)
      → str_eq j k ≡ false
      → lookup k (insert j v d) ≡ lookup k d
  lookup-insert_other k j v [] h = rw h refl
  lookup-insert_other k j v ((i, w) ∷ d) h = elim (Bool-cases (str_eq i j)) [
    | inl same ↦
        let apart : str_eq i k ≡ false = rw ((eq_iff i j).0 same) h in rw (same, h, apart) refl
    | inr other ↦ rw other (elim (Bool-cases (str_eq i k)) [
      | inl found ↦ rw found refl
      | inr further ↦ rw further (lookup-insert_other k j v d h)
    ])
  ]

  pub lookup-remove : (k : String) (d : Dict V) → lookup k (remove k d) ≡ none
  lookup-remove k [] = refl
  lookup-remove k ((j, w) ∷ d) = elim (Bool-cases (str_eq j k)) [
    | inl same ↦ rw same (lookup-remove k d)
    | inr other ↦ rw other (rw other (lookup-remove k d))
  ]

  pub lookup-remove_other :
      (k j : String) (d : Dict V) → str_eq j k ≡ false → lookup k (remove j d) ≡ lookup k d
  lookup-remove_other k j [] h = refl
  lookup-remove_other k j ((i, w) ∷ d) h = elim (Bool-cases (str_eq i j)) [
    | inl same ↦
        let apart : str_eq i k ≡ false = rw ((eq_iff i j).0 same) h in
        rw (same, apart) (lookup-remove_other k j d h)
    | inr other ↦ rw other (elim (Bool-cases (str_eq i k)) [
      | inl found ↦ rw found refl
      | inr further ↦ rw further (lookup-remove_other k j d h)
    ])
  ]
