-- ===== src/ThreatEngine/Consumer/Session.antt =====
-- The whole of `_consume_loop` in threat-engine/app/kafka_consumer.py: the connecting, the stream and
-- the closing of the clients.
use d_ai_api_sec.Prelude.{
  ◌≡◌, refl, Option, none, some, List, [], ◌∷◌, ◌++◌, ap, ◌∙◌, All, ◌≤◌, ◌+◌, length,
}
use d_ai_api_sec.Json.{Json}
use d_ai_api_sec.Errors.{Error, Result, ok, err}
use d_ai_api_sec.Exec.{lift, ◌>>◌, bind-ok}
use d_ai_api_sec.Retry.{
  Attempt, Progress, connected, waiting, raised, retry, close_all, finally, IsRefused,
  retry-connects,
}
use d_ai_api_sec.Float.{Float}
use d_ai_api_sec.ThreatEngine.Consumer.{World, Outcomes, Setting, consume}
use d_ai_api_sec.ThreatEngine.Consumer.Blocklist.{TextsDiffer, Survivable, IsOurs, consume_survives}

pub data Client : Type 0 where
  kafka_consumer kafka_producer redis_client : Client

-- How the awaited calls of a session end: the rounds of connecting, the two calls of each message,
-- the stream itself, and the closing of each client.
pub record Session : Type 0 where
  pub attempts : List Attempt
  pub messages : List (Outcomes × Json)
  pub ended : Result (Unit {0})
  pub consumer_stopped : Result (Unit {0})
  pub producer_stopped : Result (Unit {0})
  pub redis_closed : Result (Unit {0})

-- The `finally` of the session.
abbrev pub close_clients : Session → Result (Unit {0}) × List Client
close_clients s = close_all (
    (kafka_consumer, s.consumer_stopped)
    ∷ (kafka_producer, s.producer_stopped)
    ∷ (redis_client, s.redis_closed)
    ∷ [])

-- A coroutine's result, if it has one yet, what it wrote, and the clients it called to close.
abbrev pub Ending : Type 0
Ending = Option (Result (Unit {0})) × World × List Client

-- `_consume_loop` behind its first loop: nothing is closed unless the clients were connected.
module _ (clip : Float → Float → Float → Float) (log2 : Float → Float) (env : Setting) where
  abbrev pub listen : Progress → Session → World → Ending
  listen waiting s w = (none, w, [])
  listen (raised e) s w = (some (err e), w, [])
  listen connected s w =
      let (r, w') = (consume clip log2 env s.messages >> lift s.ended) w in
      let (c, closed) = close_clients s in (some (finally r c), w', closed)

  unfoldable pub consume_loop : Session → World → Ending
  consume_loop s w = listen (retry s.attempts).0 s w

  listen-ok :
      (s : Session) (w w' : World)
      → consume clip log2 env s.messages w ≡ (ok tt, w')
      → listen connected s w ≡ (some (finally s.ended (close_clients s).0), w', (close_clients s).1)
  listen-ok s w w' e =
      ap
        (λ (p : Result (Unit {0}) × World).
          (some (finally p.0 (close_clients s).0), p.1, (close_clients s).1))
        (bind-ok (consume clip log2 env s.messages) (λ _. lift s.ended) w e)

  close-ok :
      (s : Session)
      → s.consumer_stopped ≡ ok tt
      → s.producer_stopped ≡ ok tt
      → s.redis_closed ≡ ok tt
      → close_clients s ≡ (ok tt, kafka_consumer ∷ kafka_producer ∷ redis_client ∷ [])
  close-ok s a b c = rw (a, b, c) refl

  -- Once the brokers answer, behind any number of refusals, a session gets through all its messages
  -- whatever Redis and Kafka answer to its calls, ends as the stream ends, and closes its three
  -- clients, if they can be closed; every command of the blocklist is this service's, and there is at
  -- most one new event for each message. Cancellations of the calls are left out.
  pub consume_loop_ends :
      (s : Session) (w : World) (refusals rest : List Attempt) (last : Attempt)
      → s.attempts ≡ refusals ++ last ∷ rest
      → All IsRefused refusals
      → last.start ≡ ok tt
      → s.consumer_stopped ≡ ok tt
      → s.producer_stopped ≡ ok tt
      → s.redis_closed ≡ ok tt
      → TextsDiffer clip log2 env
      → All (Survivable clip log2 env) s.messages
      → All (IsOurs clip log2 env) w.blocklist
      → (w' : World) × (consume_loop s w
          ≡ (some s.ended, w', kafka_consumer ∷ kafka_producer ∷ redis_client ∷ []))
        × (All (IsOurs clip log2 env) w'.blocklist
            × (length w'.audit ≤ length w.audit + length s.messages))
  unfolding consume_loop
  consume_loop_ends s w refusals rest last e h ok_start a b c differ hs ours =
      let (w', k, x) = consume_survives clip log2 env s.messages w differ hs ours in
      (
        w',
        ap (λ p. listen p s w)
              (ap (λ l. (retry l).0) e
                ∙ ap (λ q. q.0) (retry-connects refusals rest last h ok_start))
            ∙ listen-ok s w w' k
            ∙ ap (λ q. (some (finally s.ended q.0), w', q.1)) (close-ok s a b c),
        x,
      )

  -- If the Kafka consumer cannot be stopped, the failure hides how the stream ended, and neither the
  -- producer nor the Redis client is closed.
  pub consume_loop_leaks :
      (s : Session) (w : World) (q : Error)
      → (retry s.attempts).0 ≡ connected
      → s.consumer_stopped ≡ err q
      → (w' : World) × (consume_loop s w ≡ (some (err q), w', kafka_consumer ∷ []))
  unfolding consume_loop
  consume_loop_leaks s w q e k = (
    ((consume clip log2 env s.messages >> lift s.ended) w).1,
    ap (λ p. listen p s w) e ∙ rw k refl,
  )
