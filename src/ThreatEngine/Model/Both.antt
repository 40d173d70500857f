-- ===== src/ThreatEngine/Model/Both.antt =====
-- Both parts of the ensemble of threat-engine/app/model.py are needed for a BLOCK.
use mathlib.Core.Path.{subst}
use d_ai_api_sec.Prelude.{◌≡◌, ◌≢◌, refl, ◌⊎◌, String, eq_iff, List, arith, sym, ◌∙◌, inl, inr}
use d_ai_api_sec.Errors.{ok, ok-injective}
use d_ai_api_sec.Float.{Float, dec, ◌≼◌, ◌≺◌, IsNumber, arithmetic}
use d_ai_api_sec.Float.Order.{finite-IsNumber, lt_of_le_of_lt, not-le-lt}
use d_ai_api_sec.ThreatEngine.Model.{
  EnsembleThreatModel, ScoreResult, combine, verdict, result_of, block_threshold, IsClip,
  normalize_iso, score,
}
use d_ai_api_sec.ThreatEngine.Model.Decisions.{verdict_cases}
use d_ai_api_sec.ThreatEngine.Model.Scores.{
  InUnit, InUnit-IsFinite, one-InUnit, combine_mono, combine-InUnit, Reads, score-eq-ok,
}

block-ne-challenge : ◌≢◌ {A = String} "BLOCK" "CHALLENGE"
block-ne-challenge = ground (arith, eq_iff "BLOCK" "CHALLENGE")

block-ne-allow : ◌≢◌ {A = String} "BLOCK" "ALLOW"
block-ne-allow = ground (arith, eq_iff "BLOCK" "ALLOW")

-- A probability of 0.76 or less cannot block, whatever the forest says.
prob_needed : combine (dec 1 0) (dec 76 2) ≺ block_threshold
unfolding combine arithmetic
prob_needed = refl

-- A normalized isolation score of 0.57 or less cannot block, whatever the classifier says.
iso_needed : combine (dec 57 2) (dec 1 0) ≺ block_threshold
unfolding combine arithmetic
iso_needed = refl

seventy_six : InUnit (dec 76 2)
unfolding arithmetic
seventy_six = (refl, refl)

fifty_seven : InUnit (dec 57 2)
unfolding arithmetic
fifty_seven = (refl, refl)

not-block-below : (f : Float) → IsNumber f → f ≺ block_threshold → (verdict f).0 ≢ "BLOCK"
not-block-below f number low d = elim (verdict_cases f number) [
  | inl (above, _) ↦ not-le-lt block_threshold f above low
  | inr (inl (_, _, c)) ↦ block-ne-challenge (sym d ∙ c)
  | inr (inr (_, a)) ↦ block-ne-allow (sym d ∙ a)
]

not-block-combine :
    (n p n' p' : Float)
    → InUnit n
    → InUnit p
    → InUnit n'
    → InUnit p'
    → n ≼ n'
    → p ≼ p'
    → combine n' p' ≺ block_threshold
    → (verdict (combine n p)).0 ≢ "BLOCK"
not-block-combine n p n' p' hn hp hn' hp' le_n le_p low =
    not-block-below (combine n p) (finite-IsNumber _ (InUnit-IsFinite _ (combine-InUnit n p hn hp)))
      (lt_of_le_of_lt (combine n p) (combine n' p') block_threshold
        (combine_mono n p n' p' hn hp hn' hp' le_n le_p) low)

module _ (clip : Float → Float → Float → Float) (laws : IsClip clip) where
  -- Neither part of the ensemble blocks alone: if the artifacts return a raw score in reach of the
  -- score range and a probability, and the probability is at most 0.76 or the normalized isolation
  -- score at most 0.57, the decision is not BLOCK.
  pub score_needs_both :
      (m : EnsembleThreatModel) (x : List Float) (raw prob n : Float) (r : ScoreResult)
      → Reads m x raw prob
      → normalize_iso clip m raw ≡ ok n
      → score clip m x ≡ ok r
      → (prob ≼ dec 76 2) ⊎ (n ≼ dec 57 2)
      → r.decision ≢ "BLOCK"
  score_needs_both m x raw prob n r h run e low =
      let (n', run', unit', s) = score-eq-ok clip laws m x raw prob h in
      let unit = subst InUnit (ok-injective (sym run' ∙ run)) unit' in
      let s' =
        subst (λ k. score clip m x ≡ ok (result_of k prob)) (ok-injective (sym run' ∙ run)) s in
      subst (λ q. q.decision ≢ "BLOCK") (ok-injective (sym s' ∙ e))
        (elim low [
          | inl p ↦
              not-block-combine n prob (dec 1 0) (dec 76 2) unit h.probability one-InUnit
                seventy_six unit.1 p prob_needed
          | inr q ↦
              not-block-combine n prob (dec 57 2) (dec 1 0) unit h.probability fifty_seven
                one-InUnit q h.probability.1 iso_needed
        ])
