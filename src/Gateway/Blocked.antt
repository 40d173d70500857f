-- ===== src/Gateway/Blocked.antt =====
-- The blocklist between the parts: what ZeroTrustFilter.filter, of
-- gateway/src/main/java/com/aisecfirewall/gateway/filter, answers a client that it or the consumer of
-- threat-engine/app/kafka_consumer.py has blocked.
use mathlib.Core.Path.{subst}
use Prim.Native.String.{◌++◌ as append}
use d_ai_api_sec.Prelude.{
  Bool, Option, if◌then◌else◌, ℕ, ◌*◌, ◌+◌, ◌<◌, ◌≡◌, refl, true, ltb, String, some, [], ◌∷◌, ◌++◌,
  ap, ◌∙◌, arith,
}
use d_ai_api_sec.Prelude.Int.{pos}
use d_ai_api_sec.Json.{Json}
use d_ai_api_sec.Errors.{Result, ok}
use d_ai_api_sec.Exec.{pure, bind-ok}
use d_ai_api_sec.Float.{Float}
use d_ai_api_sec.ThreatEngine.Api.{ScoreResponse}
use d_ai_api_sec.ThreatEngine.Consumer.{
  World, SetEx, Scored, scoring, blocks, client_of, handle, event, command, formatted,
}
use d_ai_api_sec.ThreatEngine.Consumer as Consumer
use d_ai_api_sec.ThreatEngine.Consumer.Message.{handle_accepted}
use d_ai_api_sec.Gateway.Redis.{
  IsRedis, Written, Entry, if_live, is_found, text, blocklist_key, block_immediately,
}
use d_ai_api_sec.Gateway.Address.{resolve_client_ip}
use d_ai_api_sec.Gateway.{
  Request, Gateway, blocked_by_engine, temporarily_blocked, Setting, on_redis, enforce, filter,
}
use d_ai_api_sec.Gateway.Asked.{HasAccess, blocked_refused}

-- A text that was written is found until it expires.
pub live_found :
    (now time : ℕ) (t : String) (o : Option Entry)
    → o ≡ some (record { value = text t; expires = some time })
    → now < time
    → is_found (if_live now o) ≡ true
live_found now time t o e h = let live : ltb now time ≡ true = ground arith in rw e (rw live refl)

module _ {S : Type 0} (env : Setting S) (laws : IsRedis env.redis) where
  pub Written-refused :
      (req : Request) (ip reason : String) (time : ℕ) (before : S) (g : Gateway S)
      → resolve_client_ip req.forwarded_for req.remote_address ≡ ok ip
      → HasAccess env req
      → Written laws.up laws.entry
          (blocklist_key ip)
          (record { value = text reason; expires = some time })
          before
          g.redis
      → req.now < time
      → filter env req g ≡ (ok temporarily_blocked, g)
  Written-refused req ip reason time before g e h (up, hit, _) soon =
      blocked_refused env req ip g e h (
        laws.has_key-answers req.now (blocklist_key ip) g.redis up
        ∙ ap {B = Result Bool × S} (λ b. (ok b, g.redis))
            (live_found req.now time reason (laws.entry (blocklist_key ip) g.redis) hit soon))

  pub enforce_blocks :
      (now : ℕ) (ip : String) (r : ScoreResponse) (g : Gateway S)
      → laws.up g.redis ≡ true
      → (s : S) × (enforce env true now ip r g
          ≡ (ok (blocked_by_engine r.reason), record g { redis = s }))
        × Written laws.up laws.entry
            (blocklist_key ip)
            (record {
              value = text r.reason;
              expires = some (now + env.properties.blocklist_ttl_seconds * 1000);
            })
            g.redis
            s
  unfolding block_immediately
  enforce_blocks now ip r g up =
      let ttl = env.properties.blocklist_ttl_seconds in
      let (s, run, w) = laws.set-writes now (blocklist_key ip) r.reason (ttl * 1000) g.redis up in
      (
        s,
        bind-ok (on_redis (block_immediately env.redis ttl now ip r.reason))
            (λ _. pure (blocked_by_engine r.reason)) g
            (ap {B = Result (Unit {0}) × Gateway S}
              (λ (p : Result (Unit {0}) × S). (p.0, record g { redis = p.1 })) run),
        w,
      )

  -- A message that the consumer scores and whose client, a text, it has to block: if the two calls
  -- are accepted, its command is sent with the consumer's time to live in seconds and its event as
  -- well; and once Redis has carried the command out, the gateway refuses each request of that
  -- client, with a valid token or on a public path, until that time is over.
  pub consumer_block_lasts :
      (clip : Float → Float → Float → Float) (log2 : Float → Float) (consumer : Consumer.Setting)
      (payload : Json) (s : Scored) (w : World) (ip : String) (seconds moment : ℕ) (req : Request)
      (g : Gateway S) (after : S)
      → scoring clip log2 consumer payload ≡ ok s
      → blocks s ≡ true
      → client_of s ≡ Json.text ip
      → consumer.ttl ≡ pos seconds
      → Written laws.up laws.entry
          (command clip log2 consumer s).key
          (record {
            value = text (command clip log2 consumer s).value;
            expires = some (moment + seconds * 1000);
          })
          g.redis
          after
      → resolve_client_ip req.forwarded_for req.remote_address ≡ ok ip
      → HasAccess env req
      → req.now < moment + seconds * 1000
      → (handle clip log2 consumer (record { setex = ok tt; send = ok tt }) payload w ≡ (
        ok tt,
        record {
          blocklist = w.blocklist ++ command clip log2 consumer s ∷ [];
          audit = w.audit ++ event s ∷ [];
        },
      ))
        × ((command clip log2 consumer s).ttl ≡ pos seconds)
        × (filter env req (record g { redis = after })
            ≡ (ok temporarily_blocked, record g { redis = after }))
  consumer_block_lasts clip log2 consumer payload s w ip seconds moment req g after e b who ttl done
        same access soon =
      let c = command clip log2 consumer s in
      let key : c.key ≡ blocklist_key ip =
        ap (λ j. append "blocklist:" (formatted consumer.text_of j)) who in
      (
        handle_accepted clip log2 consumer payload s w e
            ∙ ap
                (λ x. (
                  ok tt,
                  record {
                    blocklist = if x then w.blocklist ++ c ∷ [] else w.blocklist;
                    audit = w.audit ++ event s ∷ [];
                  },
                ))
                b,
        ttl,
        Written-refused req ip c.value (moment + seconds * 1000) g.redis
            (record g { redis = after }) same access
            (subst
              (λ k.
                Written laws.up laws.entry k
                  (record { value = text c.value; expires = some (moment + seconds * 1000) })
                  g.redis after)
              key done)
            soon,
      )
