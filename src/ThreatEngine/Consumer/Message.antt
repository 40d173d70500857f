-- ===== src/ThreatEngine/Consumer/Message.antt =====
-- One message: what its handling leaves behind.
use d_ai_api_sec.Prelude.{◌≡◌, refl, ◌≢◌, Bool, true, false, [], ◌∷◌, ◌++◌, if◌then◌else◌}
use d_ai_api_sec.Json.{Json}
use d_ai_api_sec.Errors.{Error, ok, err, cancelled}
use d_ai_api_sec.Exec.{◌>>◌}
use d_ai_api_sec.Float.{Float}
use d_ai_api_sec.ThreatEngine.Consumer.{
  Event, SetEx, World, Outcomes, Setting, Scored, blocks, event, block_if, skip_failure, command,
  scoring, process, handle, call_send,
}

-- A failure that the inner `except` catches.
pub skipped : (q : Error) (w : World) → q ≢ cancelled → skip_failure (err q, w) ≡ (ok tt, w)
skipped cancelled w h = absurd (h refl)
skipped q w h = refl

writes_accepted :
    (b : Bool) (c : SetEx) (e : Event) (w : World)
    → skip_failure ((block_if b (ok tt) c >> call_send (ok tt) e) w) ≡ (
      ok tt,
      record {
        blocklist = if b then w.blocklist ++ c ∷ [] else w.blocklist;
        audit = w.audit ++ e ∷ [];
      },
    )
writes_accepted true c e w = refl
writes_accepted false c e w = refl

writes_redis_down :
    (b : Bool) (c : SetEx) (e : Event) (w : World) (q : Error)
    → b ≡ true
    → q ≢ cancelled
    → skip_failure ((block_if b (err q) c >> call_send (ok tt) e) w) ≡ (ok tt, w)
writes_redis_down true c e w q b h = skipped q w h
writes_redis_down false c e w q b h = cc

module _ (clip : Float → Float → Float → Float) (log2 : Float → Float) (env : Setting) where
  -- A message whose scoring raises, a cancellation aside, changes nothing and is skipped.
  pub handle_unscored :
      (o : Outcomes) (payload : Json) (q : Error) (w : World)
      → scoring clip log2 env payload ≡ err q
      → q ≢ cancelled
      → handle clip log2 env o payload w ≡ (ok tt, w)
  unfolding handle process
  handle_unscored o payload q w e h = rw e (skipped q w h)

  -- If Redis and Kafka accept what is sent, a scored message adds its event to the audit topic, and
  -- its command to the blocklist exactly if the decision is BLOCK and the client is known.
  pub handle_accepted :
      (payload : Json) (s : Scored) (w : World)
      → scoring clip log2 env payload ≡ ok s
      → handle clip log2 env (record { setex = ok tt; send = ok tt }) payload w ≡ (
        ok tt,
        record {
          blocklist = if blocks s then w.blocklist ++ command clip log2 env s ∷ [] else w.blocklist;
          audit = w.audit ++ event s ∷ [];
        },
      )
  unfolding handle process
  handle_accepted payload s w e =
      rw e (writes_accepted (blocks s) (command clip log2 env s) (event s) w)

  -- If Redis fails on the command for a scored message that is to be blocked, and this is no
  -- cancellation, the message is skipped:
  -- neither the command nor the event is written, although the audit topic would have accepted it.
  pub handle_redis_down :
      (payload : Json) (s : Scored) (w : World) (q : Error)
      → scoring clip log2 env payload ≡ ok s
      → blocks s ≡ true
      → q ≢ cancelled
      → handle clip log2 env (record { setex = err q; send = ok tt }) payload w ≡ (ok tt, w)
  unfolding handle process
  handle_redis_down payload s w q e b h =
      rw e (writes_redis_down (blocks s) (command clip log2 env s) (event s) w q b h)
