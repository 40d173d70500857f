-- ===== src/Gateway/Scored.antt =====
-- The gateway and the threat engine together: ThreatEngineClient.score, of
-- gateway/src/main/java/com/aisecfirewall/gateway/client, calls the endpoint of
-- threat-engine/app/main.py.
use d_ai_api_sec.Prelude.{ℕ, ◌/◌, ◌≡◌, refl, String, Option, some, List, ap, ◌∙◌, arith}
use d_ai_api_sec.Prelude.Int.{ℤ, pos, negsuc, ◌-ℤ◌, ◌≤ℤ◌}
use d_ai_api_sec.Json.{Fields}
use d_ai_api_sec.Errors.{Result, ok, err, ◌>>=◌, validation_error}
use d_ai_api_sec.Float.{Float, nought}
use d_ai_api_sec.Float.Order.{not-lt_of_le}
use d_ai_api_sec.ThreatEngine.Signal.{RequestSignal, construct}
use d_ai_api_sec.ThreatEngine.Features.{extract_features}
use d_ai_api_sec.ThreatEngine.Entropy.{IsLog2}
use d_ai_api_sec.ThreatEngine.Model.{EnsembleThreatModel, Predictor, IsClip}
use d_ai_api_sec.ThreatEngine.Model.Scores.{InUnit, Reads}
use d_ai_api_sec.ThreatEngine.Model.Decisions.{Agrees}
use d_ai_api_sec.ThreatEngine.Api.{ScoreResponse, score}
use d_ai_api_sec.ThreatEngine.Api.Answers.{result_in, score_answers}
use d_ai_api_sec.Gateway.Signal.{
  SecurityProperties, Claims, RequestSignalDto, double_of, session_age, age_of, build_signal,
  arguments_of_dto,
}
use d_ai_api_sec.Gateway.Accepted.{
  IsOrdinary, build_signal-accepted, construct-negative_age, negative_age, double_nonneg,
}
use d_ai_api_sec.Gateway.Asked.{IsAsked, claims_in, signal_at, engine_down_forwards}
use d_ai_api_sec.Gateway.{Request, Gateway, Setting, forwarded, unscored, filter}
use d_ai_api_sec.Gateway.Redis.{IsRedis}

module _ (clip : Float → Float → Float → Float) (log2 : Float → Float)
    (m : EnsembleThreatModel) where
  -- The call without its time limit and its circuit breaker: the body is read as a signal, or refused
  -- with a 422, and scored.
  unfoldable pub ask : RequestSignalDto → Result ScoreResponse
  ask d = do s ← construct (arguments_of_dto d); score clip log2 m s

  -- A signal that the gateway builds is accepted by the engine and scored, if the streak is below 2
  -- ^ 31, the token is not issued ahead, the body has at most 2 ^ 63 characters and 2 ^ 52 fields,
  -- every configured range is a pair, the model is loaded, and for its vector both artifacts
  -- return a raw score in reach of the score range and a probability: the three scores lie between
  -- 0.0 and 1.0 and the decision agrees with the final one.
  pub ask_answers :
      IsClip clip
      → IsLog2 log2
      → (forest : Predictor) → m.isolation_forest ≡ some forest
      → (to_lower_case : String → String) (read_map : String → Option Fields)
        (properties : SecurityProperties) (rate_10s rate_60s streak : ℕ) (ua : Option String)
        (claims : Option Claims) (now : ℤ) (hour : ℕ) (path body : String)
      → IsOrdinary to_lower_case read_map properties streak claims now body
      → ((s : RequestSignal) (v : List Float)
          → construct (
              arguments_of_dto (
                build_signal to_lower_case read_map properties rate_10s rate_60s streak ua claims
                  now hour path body))
            ≡ ok s
          → extract_features log2 s ≡ ok v
          → (raw : Float) × (prob : Float) × Reads m v raw prob)
      → (a : ScoreResponse) × (ask (
            build_signal to_lower_case read_map properties rate_10s rate_60s streak ua claims now
              hour path body)
          ≡ ok a)
        × InUnit a.isolation_score
        × InUnit a.xgboost_score
        × InUnit a.final_score
        × Agrees (result_in a)
  unfolding ask
  ask_answers clip_laws log2_laws forest loaded lower read_map properties a b c ua claims now hour
        path body h reads =
      let (s, e, valid, sized, pairs) =
        build_signal-accepted lower read_map properties a b c ua claims now hour path body h in
      let (r, run, iso, xgb, final, agrees) =
        score_answers clip clip_laws log2 log2_laws m forest s loaded (λ v k. reads s v e k) valid
          sized pairs in
      (r, rw e run, iso, xgb, final, agrees)

  -- The second of a request.
  abbrev pub second_of : Request → ℤ
  second_of req = pos (req.now / 1000)

  ask-negative_age :
      {S : Type 0} (env : Setting S) (req : Request) (c : Claims) (i : ℤ) (rates : ℕ × (ℕ × ℕ))
      → claims_in env req ≡ some c
      → c.issued_at ≡ some i
      → (second_of req -ℤ i) ≤ℤ negsuc 0
      → ask (signal_at env req rates) ≡ err validation_error
  unfolding ask build_signal
  ask-negative_age env req c i rates e k h =
      let d = signal_at env req rates in
      let age : d.session_age_seconds ≡ double_of (second_of req -ℤ i) =
        ap (session_age (second_of req)) e ∙ ap (age_of (second_of req)) k in
      rw
        (construct-negative_age (arguments_of_dto d) d.req_rate_10s d.req_rate_60s
          d.session_age_seconds d.failed_auth_streak refl
          (not-lt_of_le nought d.req_rate_10s (double_nonneg (pos rates.0) (omega arith))) refl
          (not-lt_of_le nought d.req_rate_60s (double_nonneg (pos rates.1.0) (omega arith))) refl
          refl refl (rw age (negative_age (second_of req -ℤ i) h)))
        refl

  -- A request to a high-risk path, of a client that is not blocked, while Redis answers and holds
  -- no text under a counter's key: if its token, which the gateway has verified, is issued ahead of
  -- the gateway's clock by a second or more, the engine refuses the negative age and the gateway
  -- forwards the request as UNSCORED, whatever its body is.
  pub future_token_unscored :
      {S : Type 0} (env : Setting S) (laws : IsRedis env.redis) (req : Request) (ip : String)
      (g : Gateway S) (c : Claims) (i : ℤ)
      → ((d : RequestSignalDto) → env.engine d ≡ ask d)
      → IsAsked env laws req ip g
      → claims_in env req ≡ some c
      → c.issued_at ≡ some i
      → (second_of req -ℤ i) ≤ℤ negsuc 0
      → (g' : Gateway S) × (filter env req g ≡ (ok (forwarded (some unscored)), g'))
  future_token_unscored env laws req ip g c i engine h e k ahead =
      engine_down_forwards env laws req ip g h (λ rates. (
        validation_error,
        engine (signal_at env req rates) ∙ ask-negative_age env req c i rates e k ahead,
      ))
