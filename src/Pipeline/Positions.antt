-- ===== src/Pipeline/Positions.antt =====
-- What a Kafka consumer with `auto_offset_reset="latest"`, as in threat-engine/app/kafka_consumer.py and
-- audit-indexer/indexer.py, has taken of a topic.
use mathlib.Core.List.{append-nil, append_assoc}
use mathlib.Core.Path.{subst}
use d_ai_api_sec.Prelude.{◌≡◌, Option, none, some, List, [], ◌∷◌, ◌++◌, ap, sym, ◌∙◌}

module _ {A : Type 0} where
  -- Nothing before it has started, and then the messages behind those that were there at its start,
  -- without a gap.
  abbrev pub IsTaken : Option (List A) → List A → List A → Type 0
  IsTaken none topic taken = taken ≡ []
  IsTaken (some missed) topic taken = (rest : List A) × (topic ≡ missed ++ (taken ++ rest))

  pub IsTaken-append :
      (from : Option (List A)) (topic taken more : List A)
      → IsTaken from topic taken
      → IsTaken from (topic ++ more) taken
  IsTaken-append none topic taken more h = h
  IsTaken-append (some missed) topic taken more (rest, h) = (
    rest ++ more,
    ap (λ l. l ++ more) h
        ∙ append_assoc missed (taken ++ rest) more
        ∙ ap (λ l. missed ++ l) (append_assoc taken rest more),
  )

  pub IsTaken-start :
      (from : Option (List A)) (topic taken : List A)
      → from ≡ none
      → IsTaken from topic taken
      → IsTaken (some topic) topic taken
  IsTaken-start from topic taken e h =
      let empty : taken ≡ [] = subst (λ o. IsTaken o topic taken) e h in
      ([], sym (append-nil topic) ∙ ap (λ l. topic ++ (l ++ [])) (sym empty))

  pub IsTaken-next :
      (from : Option (List A)) (topic taken missed : List A) (a : A) (rest : List A)
      → from ≡ some missed
      → topic ≡ missed ++ (taken ++ a ∷ rest)
      → IsTaken from topic (taken ++ a ∷ [])
  IsTaken-next from topic taken missed a rest e h =
      subst (λ o. IsTaken o topic (taken ++ a ∷ [])) (sym e)
        (rest, h ∙ ap (λ l. missed ++ l) (sym (append_assoc taken (a ∷ []) rest)))
