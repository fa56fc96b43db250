-- ===== src/Queue/Enqueue.antt =====
-- What an enqueue adds to the queue (internal/queue/nats_queue.go).
use kraclaw.Prelude.{Bool, true, false, Text, Option, some, if◌then◌else◌, ◌≡◌, sym, subst}
use kraclaw.Prelude.Trace.{pure}
use kraclaw.Orchestrator.World.{QueueMessage}
use kraclaw.Queue.{
  JetStream, QueueCodec, NatsQueue, sanitize_group_id, ensure_stream, publish_message, enqueue,
}
use kraclaw.Queue.Laws.{Aged-trans, Appended, IsBroker, IsUp, Ensured, ensure_stream-Ensured}

module _ {S : Type 0} (codec : QueueCodec) (js : JetStream S) (group_jid : Text)
    (b : IsBroker codec js group_jid) (up : IsUp codec js group_jid b) where
  abbrev pub Enqueued : Text → S → Bool × (NatsQueue × S) → Type 0
  Enqueued payload s r = (r.0 ≡ true) × Appended payload (b.pending s) (b.pending r.1.1)

  publish-Enqueued :
      (payload : Text) (s : S) (r : Bool × (NatsQueue × S))
      → Ensured codec js group_jid b s r
      → Enqueued payload s
          (publish_message codec js (sanitize_group_id codec js group_jid) (some payload) r.1)
  unfolding publish_message
  publish-Enqueued payload s r (aged, ready) =
      let works = up.publish-works payload r.1.1 (ready up).1 in
      let (kept, older, e) = b.publish-Appended payload r.1.1 works in
      (works, (kept, Aged-trans _ _ kept aged older, e))

  -- On a broker that can be reached, an `Enqueue` of a message that can be encoded succeeds, also
  -- where the queue takes a stream for known that has vanished: the encoded message stands behind
  -- the payloads that the stream held, of which the oldest may have reached their age.
  pub enqueue-Enqueued :
      (msg : QueueMessage) (payload : Text) (w : NatsQueue × S)
      → codec.marshal msg ≡ some payload
      → Enqueued payload w.1 (enqueue codec js group_jid msg w)
  unfolding enqueue
  enqueue-Enqueued msg payload w e =
      subst
        (λ (o : Option Text).
          Enqueued payload w.1
            ((if ready.0 then publish_message codec js sanitized o else pure false) ready.1))
        (sym e)
        (subst
          (λ (x : Bool).
            Enqueued payload w.1 (
              (if x then publish_message codec js sanitized (some payload) else pure false)
                ready.1))
          (sym (ensured.1 up).0) (publish-Enqueued payload w.1 ready ensured))
    where
      sanitized : Text
      sanitized = sanitize_group_id codec js group_jid

      ready : Bool × (NatsQueue × S)
      ready = ensure_stream codec js sanitized w

      ensured : Ensured codec js group_jid b w.1 ready
      ensured = ensure_stream-Ensured codec js group_jid b w
