-- ===== src/Pipeline/Audit.antt =====
-- The audit trail from the gateway to Elasticsearch, over threat-engine/app/kafka_consumer.py and
-- audit-indexer/indexer.py.
use mathlib.Core.List.{append-nil, append_assoc, map-append}
use mathlib.Core.Path.{subst}
use d_ai_api_sec.Prelude.{
  ℕ, suc, ◌≤◌, ◌≡◌, refl, none, some, length, length-append, arith, List, [], ◌∷◌, ◌++◌, map, All,
  All-append, ap, sym, ◌∙◌,
}
use d_ai_api_sec.Prelude.Int.{pos}
use d_ai_api_sec.Json.{Json}
use d_ai_api_sec.Errors.{Result, ok, err, timeout_error}
use d_ai_api_sec.ThreatEngine.Consumer.{Event, Outcomes}
use d_ai_api_sec.AuditIndexer.{Indexer, step}
use d_ai_api_sec.AuditIndexer.Buffer.{IsBounded, step-IsBounded}
use d_ai_api_sec.AuditIndexer.Delivery.{all_sources, step-handed, timeout-handed}
use d_ai_api_sec.AuditIndexer.Sent.{step-waiting, timeout-empties}
use d_ai_api_sec.Gateway.Published.{Published, unpublished, offered, filter-Published}
use d_ai_api_sec.Gateway.{Request, Envelope, Gateway, envelope_of, filter}
use d_ai_api_sec.Pipeline.{
  Setup, System, envelopes, take_message, take_event, time_out, Step, served, consumer_started,
  consumed, indexer_started, indexed, waited, Reach, at_start, further,
}
use d_ai_api_sec.Pipeline.Positions.{IsTaken, IsTaken-append, IsTaken-start, IsTaken-next}
use d_ai_api_sec.ThreatEngine.Consumer.Written.{event_added, command_added, handle-writes}
use d_ai_api_sec.Pipeline.Trail.{
  IsOffered, score_of, events_of, commands_of, envelopes-append, events_of-append,
  commands_of-append,
}

module _ {S : Type 0} (x : Setup S) where
  -- Of a run with batches of suc k: what has been published, what has become of the messages taken, and
  -- what of their events.
  pub record IsConsistent (k : ℕ) (s : System S) : Type 0 where
    pub offered : All (IsOffered x) s.gateway.published
    pub taken : IsTaken s.consumer_from s.gateway.published (envelopes s.consumed)
    pub blocked : s.world.blocklist ≡ commands_of x s.consumed
    pub audited : s.world.audit ≡ events_of x s.consumed
    pub forwarded : IsTaken s.indexer_from s.world.audit s.delivered
    pub sent : all_sources s.indexer.requests ++ s.indexer.buffer ≡ map x.document_of s.delivered
    pub bounded : IsBounded (suc k) s.indexer
    pub settled : (old : List Event) × (s.delivered ≡ old ++ s.recent)
    pub unsent : length s.indexer.buffer ≤ length s.recent

  IsConsistent-request :
      (k : ℕ) (s : System S) (req : Request) (g : Gateway S)
      → Published x.gateway req s.gateway g
      → IsConsistent k s
      → IsConsistent k (record s { gateway = g })
  IsConsistent-request k s req g (unpublished _ same) h = record {
    offered = subst (All (IsOffered x)) (sym same) h.offered;
    taken = subst (λ l. IsTaken s.consumer_from l (envelopes s.consumed)) (sym same) h.taken;
    blocked = h.blocked;
    audited = h.audited;
    forwarded = h.forwarded;
    sent = h.sent;
    bounded = h.bounded;
    settled = h.settled;
    unsent = h.unsent;
  }
  IsConsistent-request k s req g (offered _ ip signal e a free more) h =
      let made = envelope_of x.gateway req ip signal in
      record {
        offered = subst (All (IsOffered x)) (sym more) (
            All-append (IsOffered x) s.gateway.published (made ∷ []) h.offered (
              record {
                request = req;
                client_ip = ip;
                signal = signal;
                same = refl;
                resolved = e;
                access = a;
              },
              tt,
            ));
        taken =
            subst (λ l. IsTaken s.consumer_from l (envelopes s.consumed)) (sym more)
              (IsTaken-append s.consumer_from s.gateway.published (envelopes s.consumed) (made ∷ [])
                h.taken);
        blocked = h.blocked;
        audited = h.audited;
        forwarded = h.forwarded;
        sent = h.sent;
        bounded = h.bounded;
        settled = h.settled;
        unsent = h.unsent;
      }

  IsConsistent-message :
      (k : ℕ) (s : System S) (redis : S) (o : Outcomes) (e : Envelope) (missed rest : List Envelope)
      → s.consumer_from ≡ some missed
      → s.gateway.published ≡ missed ++ (envelopes s.consumed ++ e ∷ rest)
      → IsConsistent k s
      → IsConsistent k (take_message x redis o e s)
  IsConsistent-message k s redis o e missed rest at next h =
      let (commands, events) = handle-writes x.clip x.log2 x.consumer o (x.payload_of e) s.world in
      record {
        offered = h.offered;
        taken =
            subst (IsTaken s.consumer_from s.gateway.published)
              (sym (envelopes-append s.consumed e o))
              (IsTaken-next s.consumer_from s.gateway.published (envelopes s.consumed) missed e rest
                at next);
        blocked =
            commands
            ∙ ap (λ l. l ++ command_added x.clip x.log2 x.consumer o (score_of x e)) h.blocked
            ∙ sym (commands_of-append x s.consumed e o);
        audited =
            events
            ∙ ap (λ l. l ++ event_added o (score_of x e)) h.audited
            ∙ sym (events_of-append x s.consumed e o);
        forwarded =
            subst (λ l. IsTaken s.indexer_from l s.delivered) (sym events)
              (IsTaken-append s.indexer_from s.world.audit s.delivered
                (event_added o (score_of x e)) h.forwarded);
        sent = h.sent;
        bounded = h.bounded;
        settled = h.settled;
        unsent = h.unsent;
      }

  -- A round of the indexer keeps its bounds, at the configured batch size.
  round-IsBounded :
      (k : ℕ) (arrival : Result Json) (w : Indexer)
      → x.batch_size ≡ pos (suc k)
      → IsBounded (suc k) w
      → IsBounded (suc k) (step x.clock x.async_bulk x.batch_size arrival w).1
  round-IsBounded k arrival w e h =
      subst (λ n. IsBounded (suc k) (step x.clock x.async_bulk n arrival w).1) (sym e)
        (step-IsBounded x.clock x.async_bulk k arrival w h)

  IsConsistent-event :
      (k : ℕ) (s : System S) (v : Event) (missed rest : List Event)
      → x.batch_size ≡ pos (suc k)
      → s.indexer_from ≡ some missed
      → s.world.audit ≡ missed ++ (s.delivered ++ v ∷ rest)
      → IsConsistent k s
      → IsConsistent k (take_event x v s)
  IsConsistent-event k s v missed rest size at next h = record {
    offered = h.offered;
    taken = h.taken;
    blocked = h.blocked;
    audited = h.audited;
    forwarded = IsTaken-next s.indexer_from s.world.audit s.delivered missed v rest at next;
    sent =
        step-handed x.clock x.async_bulk x.batch_size (x.document_of v) s.indexer
        ∙ ap (λ l. l ++ x.document_of v ∷ []) h.sent
        ∙ sym (map-append x.document_of s.delivered (v ∷ []));
    bounded = round-IsBounded k (ok (x.document_of v)) s.indexer size h.bounded;
    settled = (
      h.settled.0,
      ap (λ l. l ++ v ∷ []) h.settled.1 ∙ append_assoc h.settled.0 s.recent (v ∷ []),
    );
    unsent = omega (
      arith,
      h.unsent,
      length-append s.recent (v ∷ []),
      step-waiting x.clock x.async_bulk x.batch_size (x.document_of v) s.indexer,
    );
  }

  IsConsistent-timeout :
      (k : ℕ) (s : System S)
      → x.batch_size ≡ pos (suc k)
      → IsConsistent k s
      → IsConsistent k (time_out x s)
  IsConsistent-timeout k s size h = record {
    offered = h.offered;
    taken = h.taken;
    blocked = h.blocked;
    audited = h.audited;
    forwarded = h.forwarded;
    sent = timeout-handed x.clock x.async_bulk x.batch_size s.indexer ∙ h.sent;
    bounded = round-IsBounded k (err timeout_error) s.indexer size h.bounded;
    settled = (s.delivered, sym (append-nil s.delivered));
    unsent = omega (
      arith,
      ap (λ (l : List Json). length l)
          (timeout-empties x.clock x.async_bulk x.batch_size s.indexer),
    );
  }

  Step-IsConsistent :
      (k : ℕ) (s t : System S)
      → x.batch_size ≡ pos (suc k)
      → Step x s t
      → IsConsistent k s
      → IsConsistent k t
  Step-IsConsistent k s t size (served _ req) h =
      IsConsistent-request k s req (filter x.gateway req s.gateway).1
        (filter-Published x.gateway req s.gateway) h
  Step-IsConsistent k s t size (consumed _ redis outcomes e missed rest at next) h =
      IsConsistent-message k s redis outcomes e missed rest at next h
  Step-IsConsistent k s t size (indexed _ v missed rest at next) h =
      IsConsistent-event k s v missed rest size at next h
  Step-IsConsistent k s t size (waited _ missed at) h = IsConsistent-timeout k s size h
  Step-IsConsistent k s t size (consumer_started _ fresh) h = record {
    offered = h.offered;
    taken = IsTaken-start s.consumer_from s.gateway.published (envelopes s.consumed) fresh h.taken;
    blocked = h.blocked;
    audited = h.audited;
    forwarded = h.forwarded;
    sent = h.sent;
    bounded = h.bounded;
    settled = h.settled;
    unsent = h.unsent;
  }
  Step-IsConsistent k s t size (indexer_started _ fresh) h = record {
    offered = h.offered;
    taken = h.taken;
    blocked = h.blocked;
    audited = h.audited;
    forwarded = IsTaken-start s.indexer_from s.world.audit s.delivered fresh h.forwarded;
    sent = h.sent;
    bounded = h.bounded;
    settled = h.settled;
    unsent = h.unsent;
  }

  -- Nothing has been published, taken or indexed yet, and neither reader has started.
  pub record IsEmpty (s : System S) : Type 0 where
    pub published : s.gateway.published ≡ []
    pub unread : s.consumer_from ≡ none
    pub consumed : s.consumed ≡ []
    pub blocklist : s.world.blocklist ≡ []
    pub audit : s.world.audit ≡ []
    pub unindexed : s.indexer_from ≡ none
    pub delivered : s.delivered ≡ []
    pub recent : s.recent ≡ []
    pub requests : s.indexer.requests ≡ []
    pub buffer : s.indexer.buffer ≡ []

  start-IsConsistent : (k : ℕ) (s : System S) → IsEmpty s → IsConsistent k s
  start-IsConsistent k s h = record {
    offered = subst (All (IsOffered x)) (sym h.published) tt;
    taken =
        subst (λ o. IsTaken o s.gateway.published (envelopes s.consumed)) (sym h.unread)
          (ap envelopes h.consumed);
    blocked = h.blocklist ∙ ap (commands_of x) (sym h.consumed);
    audited = h.audit ∙ ap (events_of x) (sym h.consumed);
    forwarded = subst (λ o. IsTaken o s.world.audit s.delivered) (sym h.unindexed) h.delivered;
    sent =
        ap (λ l. all_sources l ++ s.indexer.buffer) h.requests
        ∙ h.buffer
        ∙ ap (map x.document_of) (sym h.delivered);
    bounded = record { waiting = rw h.buffer (omega arith); requests = rw h.requests tt };
    settled = ([], h.delivered ∙ sym h.recent);
    unsent = rw h.buffer (omega arith);
  }

  -- Whatever the parts do and in whatever order, from an empty start on and with a positive batch size: each
  -- message of the raw topic is one that the gateway made for a request with access. Each reader takes its topic's
  -- messages from the topic's end at its start on, without a gap. For the messages that the consumer has taken, in
  -- their order, Redis has got the commands of the scored ones whose clients are to be blocked, if it
  -- accepted them, and the audit topic the events of the scored ones, if neither call on the message failed, and
  -- no more. The documents of the indexer's bulk requests, followed by those that wait, are the documents of the
  -- events that it has taken, each exactly once and in order; fewer than the batch size wait, and none that it
  -- had taken when its wait last ran out: all of these have been sent.
  pub Reach-IsConsistent :
      (k : ℕ) (start s : System S)
      → x.batch_size ≡ pos (suc k)
      → IsEmpty start
      → Reach x start s
      → IsConsistent k s
  Reach-IsConsistent k start s size h at_start = start-IsConsistent k start h
  Reach-IsConsistent k start s size h (further t _ r step) =
      Step-IsConsistent k t s size step (Reach-IsConsistent k start t size h r)
