-- ===== src/ThreatEngine/Model/Decisions.antt =====
-- The decision against the scores.
use mathlib.Core.Path.{subst}
use d_ai_api_sec.Prelude.{
  ℕ, ◌≤◌, ◌≡◌, refl, ◌⊎◌, String, str_eq, List, arith, sym, ◌∙◌, Bool-cases, inl, inr, Bool, true,
  if◌then◌else◌,
}
use d_ai_api_sec.Errors.{ok, ok-injective}
use d_ai_api_sec.Float.{Float, nought, le, ◌≼◌, IsNumber, IsFinite, round_4, arithmetic}
use d_ai_api_sec.Float.Order.{le_trans, finite-IsNumber, le_of_not-le}
use d_ai_api_sec.Float.Decimal.{round_4_mono, round_4-block, round_4-challenge}
use d_ai_api_sec.ThreatEngine.Model.{
  EnsembleThreatModel, ScoreResult, combine, verdict, result_of, block_threshold,
  challenge_threshold, IsClip, score,
}
use d_ai_api_sec.ThreatEngine.Model.Normalize.{normalize_iso_anti}
use d_ai_api_sec.ThreatEngine.Model.Scores.{
  InUnit, InUnit-IsFinite, combine_mono, combine-InUnit, Reads, score-eq-ok,
}

-- How severe a decision is.
abbrev pub severity : String → ℕ
severity d = if str_eq d "BLOCK" then 2 else if str_eq d "CHALLENGE" then 1 else 0

block-IsFinite : IsFinite block_threshold
unfolding arithmetic
block-IsFinite = refl

challenge-IsFinite : IsFinite challenge_threshold
unfolding arithmetic
challenge-IsFinite = refl

thresholds : (nought ≼ challenge_threshold) × (challenge_threshold ≼ block_threshold)
unfolding arithmetic
thresholds = (refl, refl)

-- The three outcomes, with what each says of the weighted sum.
pub verdict_cases :
    (f : Float)
    → IsNumber f
    → (block_threshold ≼ f) × ((verdict f).0 ≡ "BLOCK")
      ⊎ ((challenge_threshold ≼ f) × (f ≼ block_threshold) × ((verdict f).0 ≡ "CHALLENGE")
          ⊎ (f ≼ challenge_threshold) × ((verdict f).0 ≡ "ALLOW"))
unfolding verdict
verdict_cases f p = elim (Bool-cases (le block_threshold f)) [
  | inl block ↦ inl (block, rw block refl)
  | inr below ↦
      let under = le_of_not-le block_threshold f (finite-IsNumber _ block-IsFinite) p below in
      elim (Bool-cases (le challenge_threshold f)) [
        | inl challenge ↦ inr (inl (challenge, under, rw (below, challenge) refl))
        | inr low ↦ inr (
            inr (
              le_of_not-le challenge_threshold f (finite-IsNumber _ challenge-IsFinite) p low,
              rw (below, low) refl,
            ))
      ]
]

severity-verdict :
    (f : Float)
    → severity (verdict f).0
      ≡ (if le block_threshold f then 2 else if le challenge_threshold f then 1 else 0)
unfolding verdict
severity-verdict f = elim (Bool-cases (le block_threshold f)) [
  | inl block ↦ rw block refl
  | inr below ↦ elim (Bool-cases (le challenge_threshold f)) [
    | inl challenge ↦ rw (below, challenge) refl
    | inr low ↦ rw (below, low) refl
  ]
]

pub verdict_mono : (f g : Float) → f ≼ g → severity (verdict f).0 ≤ severity (verdict g).0
verdict_mono f g h =
    rw (severity-verdict f, severity-verdict g)
      (ranks (le block_threshold f) (le block_threshold g) (le challenge_threshold f)
        (le challenge_threshold g) (λ p. le_trans block_threshold f g p h)
        (λ p. le_trans challenge_threshold f g p h)
        (λ p. le_trans challenge_threshold block_threshold g thresholds.1 p))
  where
    ranks :
        (b b' c c' : Bool)
        → (b ≡ true → b' ≡ true)
        → (c ≡ true → c' ≡ true)
        → (b' ≡ true → c' ≡ true)
        → (if b then 2 else if c then 1 else 0) ≤ (if b' then 2 else if c' then 1 else 0)
    ranks b b' c c' p q r = ground arith

-- The decisions there are, each with the range of the reported score that it goes with.
abbrev pub Agrees : ScoreResult → Type 0
Agrees r =
    (r.decision ≡ "BLOCK") × (block_threshold ≼ r.final_score)
    ⊎ ((r.decision ≡ "CHALLENGE")
          × ((challenge_threshold ≼ r.final_score) × (r.final_score ≼ block_threshold))
        ⊎ (r.decision ≡ "ALLOW") × (r.final_score ≼ challenge_threshold))

-- Rounding does not carry a value across a threshold of two decimals.
round-above : (t f : Float) → round_4 t ≡ t → nought ≼ t → InUnit f → t ≼ f → t ≼ round_4 f
round-above t f e p unit h = rw e at (round_4_mono t f p h (InUnit-IsFinite f unit))

round-below : (t f : Float) → round_4 t ≡ t → IsFinite t → InUnit f → f ≼ t → round_4 f ≼ t
round-below t f e p unit h = rw e at (round_4_mono f t unit.0 h p)

result_of-Agrees : (n p : Float) → InUnit (combine n p) → Agrees (result_of n p)
result_of-Agrees n p unit =
    let f = combine n p in
    elim (verdict_cases f (finite-IsNumber f (InUnit-IsFinite f unit))) [
      | inl (above, d) ↦ inl (
        d,
        round-above block_threshold f round_4-block
            (le_trans nought challenge_threshold block_threshold thresholds.0 thresholds.1) unit
            above,
      )
      | inr (inl (above, below, d)) ↦ inr (
          inl (
            d,
            (
              round-above challenge_threshold f round_4-challenge thresholds.0 unit above,
              round-below block_threshold f round_4-block block-IsFinite unit below,
            ),
          ))
      | inr (inr (below, d)) ↦ inr (
          inr
            (d, round-below challenge_threshold f round_4-challenge challenge-IsFinite unit below))
    ]

module _ (clip : Float → Float → Float → Float) (laws : IsClip clip) where
  -- Of a result that `score` returns, where the artifacts return a raw score in reach of the score
  -- range and a probability, the decision is BLOCK, CHALLENGE or ALLOW; the reported final
  -- score is at least 0.85 under BLOCK, from 0.60 to 0.85 under CHALLENGE, and at most 0.60 under
  -- ALLOW, although the decision is taken before the score is rounded.
  pub score-Agrees :
      (m : EnsembleThreatModel) (x : List Float) (raw prob : Float) (r : ScoreResult)
      → Reads m x raw prob
      → score clip m x ≡ ok r
      → Agrees r
  score-Agrees m x raw prob r h e =
      let (n, _, unit, run) = score-eq-ok clip laws m x raw prob h in
      subst Agrees (ok-injective (sym run ∙ e))
        (result_of-Agrees n prob (combine-InUnit n prob unit h.probability))

  -- Under a model whose artifacts return for two vectors, a raw score that is no higher and a
  -- probability that is no lower never lead to a milder decision.
  pub score-severity_mono :
      (m : EnsembleThreatModel) (x y : List Float) (raw raw' prob prob' : Float)
      (r r' : ScoreResult)
      → Reads m x raw prob
      → Reads m y raw' prob'
      → raw' ≼ raw
      → prob ≼ prob'
      → score clip m x ≡ ok r
      → score clip m y ≡ ok r'
      → severity r.decision ≤ severity r'.decision
  score-severity_mono m x y raw raw' prob prob' r r' h h' lower higher e e' =
      let (n, run, unit, s) = score-eq-ok clip laws m x raw prob h in
      let (n', run', unit', s') = score-eq-ok clip laws m y raw' prob' h' in
      let up : n ≼ n' =
        normalize_iso_anti clip laws m raw' raw n' n h'.reach h.reach lower run' run in
      let sum_up = combine_mono n prob n' prob' unit h.probability unit' h'.probability up higher in
      subst (λ q. severity q.decision ≤ severity r'.decision) (ok-injective (sym s ∙ e))
        (subst (λ q. severity (verdict (combine n prob)).0 ≤ severity q.decision)
          (ok-injective (sym s' ∙ e')) (verdict_mono _ _ sum_up))
