-- ===== src/Queue/Dequeue.antt =====
-- What a dequeue takes from the queue (internal/queue/nats_queue.go).
use kraclaw.Prelude.{
  Bool, true, Text, List, Elem, Option, none, some, ◌≡◌, refl, ◌⊎◌, inl, inr, if_cases,
}
use kraclaw.Prelude.Trace.{pure}
use kraclaw.Orchestrator.World.{QueueMessage}
use kraclaw.Queue.{
  NatsError, iterator_closed, Fetch, fetch_failed, message, ended, JetStream, QueueCodec, NatsQueue,
  Q, sanitize_group_id, ensure_stream, ensure_consumer, is_fatal, is_fatal_end, is_empty_end,
  take_message, on_end, on_fetch, dequeue, end_result, forgetting,
}
use kraclaw.Queue.Laws.{
  Aged, Aged-trans, Dropped, Elem-Aged, IsBroker, fetched, acked, ensure_stream-Ensured,
  ensure_consumer-Aged,
}

module _ {S : Type 0} (codec : QueueCodec) (js : JetStream S) (group_jid : Text)
    (b : IsBroker codec js group_jid) where
  -- A payload of the queue was fetched; but for the oldest ones that reach their age, no other
  -- payload leaves.
  abbrev pub Taken : Text → List Text → S → Type 0
  Taken payload before s' =
      Elem payload before
      × ((here : List Text) × Aged before here × Dropped payload here (b.pending s'))

  -- Its acknowledgement is sent.
  abbrev pub Finished : List Text → Option QueueMessage → S → Type 0
  Finished before decoded s' =
      (payload : Text) × (codec.unmarshal payload ≡ decoded)
      × b.IsSent payload s'
      × Taken payload before s'

  abbrev pub Dequeued : List Text → Option (Option QueueMessage) → S → Type 0
  Dequeued before none s' =
      Aged before (b.pending s') ⊎ ((payload : Text) × Taken payload before s')
  Dequeued before (some none) s' = Aged before (b.pending s') ⊎ Finished before none s'
  Dequeued before (some (some m)) s' = Finished before (some m) s'

  abbrev sanitized : Text
  sanitized = sanitize_group_id codec js group_jid

  abbrev Outcome : List Text → NatsQueue × S → Q codec js (Option (Option QueueMessage)) → Type 0
  Outcome before w c = Dequeued before (c w).0 (c w).1.1

  on_end-Dequeued :
      (before : List Text) (e : Option NatsError) (w : NatsQueue × S)
      → Aged before (b.pending w.1)
      → Outcome before w (on_end codec js sanitized e)
  unfolding on_end
  on_end-Dequeued before none w aged = inl aged
  on_end-Dequeued before (some iterator_closed) w aged = inl aged
  on_end-Dequeued before (some e) w aged =
      if_cases (Outcome before w) (is_fatal_end codec js e)
        (forgetting codec js sanitized (end_result codec js e)) (pure (end_result codec js e))
        (λ _. ended_with) (λ _. ended_with)
    where
      ended_with : Dequeued before (end_result codec js e) w.1
      ended_with =
          if_cases (λ (o : Option (Option QueueMessage)). Dequeued before o w.1)
            (is_empty_end codec js e) (some none) none (λ _. inl aged) (λ _. inl aged)

  taken :
      (before : List Text) (s : S) (payload : Text)
      → Aged before (b.pending s)
      → (fetched codec js group_jid s).0 ≡ message payload
      → Taken payload before (acked codec js group_jid s).1
  taken before s payload aged e = (
    Elem-Aged payload before (b.pending s) aged (b.fetch-Elem payload s e),
    (
      b.pending (fetched codec js group_jid s).1,
      Aged-trans before (b.pending s) _ aged (b.fetch-Aged s),
      b.ack-Dropped payload s e,
    ),
  )

  take-Dequeued :
      (before : List Text) (q : NatsQueue) (s : S) (payload : Text) (o : Option QueueMessage)
      → Aged before (b.pending s)
      → (fetched codec js group_jid s).0 ≡ message payload
      → codec.unmarshal payload ≡ o
      → Outcome before (q, (fetched codec js group_jid s).1) (take_message codec js sanitized o)
  unfolding take_message
  take-Dequeued before q s payload o aged e decoded =
      if_cases
        (λ (r : Option (Option QueueMessage)). Dequeued before r (acked codec js group_jid s).1)
        (acked codec js group_jid s).0 (some o) none (λ ok. finished o decoded ok)
        (λ _. inr (payload, taken before s payload aged e))
    where
      finished :
          (m : Option QueueMessage)
          → codec.unmarshal payload ≡ m
          → (acked codec js group_jid s).0 ≡ true
          → Dequeued before (some m) (acked codec js group_jid s).1
      finished none h ok =
          inr (payload, h, b.ack-IsSent payload s e ok, taken before s payload aged e)
      finished (some m) h ok =
          (payload, h, b.ack-IsSent payload s e ok, taken before s payload aged e)

  on_fetch-Dequeued :
      (before : List Text) (q : NatsQueue) (s : S) (f : Fetch)
      → Aged before (b.pending s)
      → (fetched codec js group_jid s).0 ≡ f
      → Outcome before (q, (fetched codec js group_jid s).1) (on_fetch codec js sanitized f)
  unfolding on_fetch
  on_fetch-Dequeued before q s (fetch_failed e) aged h =
      let aged' = Aged-trans before (b.pending s) _ aged (b.fetch-Aged s) in
      if_cases (Outcome before (q, (fetched codec js group_jid s).1)) (is_fatal codec js e) _ _
        (λ _. inl aged') (λ _. inl aged')
  on_fetch-Dequeued before q s (message payload) aged h =
      take-Dequeued before q s payload (codec.unmarshal payload) aged h refl
  on_fetch-Dequeued before q s (ended e) aged h =
      on_end-Dequeued before e (q, (fetched codec js group_jid s).1)
        (Aged-trans before (b.pending s) _ aged (b.fetch-Aged s))

  -- A message that a `Dequeue` returns is the decoding of a payload that the queue held, and the
  -- acknowledgement of that payload has been sent. Where it returns no message, either none was
  -- taken, or one that cannot be decoded, and then its acknowledgement has been sent; behind an
  -- error, none was taken, or one. In every case no payload is added, and none leaves but the
  -- oldest that reach their age and, perhaps, the one that was taken.
  pub dequeue-Dequeued :
      (w : NatsQueue × S)
      → let r = dequeue codec js group_jid w in Dequeued (b.pending w.1) r.0 r.1.1
  unfolding dequeue
  dequeue-Dequeued w =
      if_cases (Outcome before ready.1) ready.0 _ (pure none)
        (λ _.
          if_cases (Outcome before consumer.1) consumer.0 _ (pure none)
            (λ _.
              on_fetch-Dequeued before consumer.1.0 consumer.1.1
                (fetched codec js group_jid consumer.1.1).0 aged refl)
            (λ _. inl aged))
        (λ _. inl (ensure_stream-Ensured codec js group_jid b w).0)
    where
      before : List Text
      before = b.pending w.1

      ready : Bool × (NatsQueue × S)
      ready = ensure_stream codec js sanitized w

      consumer : Bool × (NatsQueue × S)
      consumer = ensure_consumer codec js sanitized ready.1

      aged : Aged before (b.pending consumer.1.1)
      aged =
          Aged-trans before (b.pending ready.1.1) _ (ensure_stream-Ensured codec js group_jid b w).0
            (ensure_consumer-Aged codec js group_jid b ready.1)
