-- ===== src/Queue.antt =====
-- The queue of messages of a group (internal/queue/nats_queue.go). The client of JetStream is a
-- parameter: a state of the broker and the operations that the queue calls. The result of an
-- operation is `none` for an error.

mod Broker
pub mod Laws
pub mod Enqueue
pub mod Dequeue
mod Samples
unfoldable pub use Broker.*
use kraclaw.Prelude.{
  ℕ, ◌*◌, eqb, Bool, true, false, ◌||◌, Text, codes, List, [], ◌∷◌, ◌++◌, map, Map, lookup, insert,
  remove, take, Option, none, some, if◌then◌else◌,
}
use kraclaw.Prelude.Int.{ℤ, signed64}
use kraclaw.Prelude.Trace.{Run, pure, ◌>>=◌, ◌>>◌}
use kraclaw.Orchestrator.World.{QueueMessage}

-- `crypto/sha256`, `encoding/hex`, `strings.ToUpper` and `encoding/json`.
pub record QueueCodec : Type 0 where
  pub sha256 : Text → List ℕ
  pub hex : List ℕ → Text
  pub to_upper_rune : ℕ → ℕ
  pub marshal : QueueMessage → Option Text
  pub unmarshal : Text → Option QueueMessage

-- The streams and the consumers that the queue knows of.
pub record NatsQueue : Type 0 where
  pub streams : Map (Unit {0})
  pub consumers : Map (Unit {0})

module _ {S : Type 0} (codec : QueueCodec) (js : JetStream S) where
  abbrev pub Q : Type 0 → Type 0
  Q A = Run (NatsQueue × S) A

  abbrev pub on_broker : {A : Type 0} → (S → A × S) → Q A
  on_broker f (q, s) = ((f s).0, (q, (f s).1))

  abbrev pub on_caches : (NatsQueue → NatsQueue) → Q (Unit {0})
  on_caches f (q, s) = (tt, (f q, s))

  abbrev pub caches : Q NatsQueue
  caches (q, s) = (q, (q, s))

  abbrev pub sanitize_group_id : Text → Text
  sanitize_group_id group_jid = codec.hex (take 16 (codec.sha256 group_jid))

  abbrev pub queue_stream_name : Text → Text
  queue_stream_name sanitized = codes "KRACLAW_QUEUE_" ++ map codec.to_upper_rune sanitized

  abbrev pub queue_subject : Text → Text
  queue_subject sanitized = codes "kraclaw.queue." ++ sanitized

  -- The payloads leave by their acknowledgement, or a day after they were published.
  abbrev pub stream_config : Text → StreamConfig
  stream_config sanitized = record {
    name = queue_stream_name sanitized;
    subjects = queue_subject sanitized ∷ [];
    retention = work_queue;
    storage = file_storage;
    max_age = 24 * 3_600_000_000_000;
    replicas = 1;
  }

  pub create_missing : Text → Q Bool
  create_missing sanitized = do
    created ← on_broker (js.create_stream (stream_config sanitized))
    if created
        then (do on_caches (λ q. record q { streams = insert sanitized tt q.streams }); pure true)
        else pure false

  -- `ensureStream`: a known stream is looked up, an unknown or vanished one is created.
  pub ensure_known : Text → Option (Unit {0}) → Q Bool
  ensure_known sanitized none = create_missing sanitized
  ensure_known sanitized (some known) = do
    here ← on_broker (js.stream (queue_stream_name sanitized))
    if here then pure true else (do
      on_caches (λ q. record q { streams = remove sanitized q.streams })
      create_missing sanitized)

  pub ensure_stream : Text → Q Bool
  ensure_stream sanitized = do q ← caches; ensure_known sanitized (lookup sanitized q.streams)

  -- `Enqueue` for the id that the group's id is sanitized to; the result says whether it succeeded.
  pub publish_message : Text → Option Text → Q Bool
  publish_message sanitized none = pure false
  publish_message sanitized (some payload) =
      on_broker (js.publish (queue_subject sanitized) payload)

  unfoldable pub enqueue : Text → QueueMessage → Q Bool
  enqueue group_jid msg = do
    ready ← ensure_stream (sanitize_group_id group_jid)
    if ready then publish_message (sanitize_group_id group_jid) (codec.marshal msg) else pure false

  -- The consumer of a group, created if it is not known.
  pub ensure_consumer : Text → Q Bool
  ensure_consumer sanitized = do
    q ← caches
    elim (lookup sanitized q.consumers) [
      | some known ↦ pure true
      | none ↦ do
        created ←
            on_broker
              (js.create_consumer (queue_stream_name sanitized) (codes "dequeue-" ++ sanitized))
        if created
            then (do
              on_caches (λ q'. record q' { consumers = insert sanitized tt q'.consumers })
              pure true)
            else pure false
    ]

  abbrev pub forget_consumer : Text → Q (Unit {0})
  forget_consumer sanitized = on_caches (λ q. record q { consumers = remove sanitized q.consumers })

  -- The errors that mean that the consumer is gone.
  abbrev pub is_fatal : NatsError → Bool
  is_fatal consumer_not_found = true
  is_fatal consumer_deleted = true
  is_fatal stream_not_found = true
  is_fatal e = false

  abbrev pub is_fatal_end : NatsError → Bool
  is_fatal_end no_responders = true
  is_fatal_end e = is_fatal e

  abbrev pub is_empty_end : NatsError → Bool
  is_empty_end timeout = true
  is_empty_end no_messages = true
  is_empty_end e = false

  abbrev pub end_result : NatsError → Option (Option QueueMessage)
  end_result e = if is_empty_end e then some none else none

  -- A result, with the consumer forgotten.
  abbrev pub forgetting : Text → Option (Option QueueMessage) → Q (Option (Option QueueMessage))
  forgetting sanitized r = do forget_consumer sanitized; pure r

  -- A message whose acknowledgement is sent, or none where it could not be decoded.
  pub take_message : Text → Option QueueMessage → Q (Option (Option QueueMessage))
  take_message sanitized m = do
    acked ← on_broker (js.ack (queue_stream_name sanitized))
    pure (if acked then some m else none)

  pub on_end : Text → Option NatsError → Q (Option (Option QueueMessage))
  on_end sanitized none = pure (some none)
  on_end sanitized (some iterator_closed) = pure (some none)
  on_end sanitized (some e) =
      if is_fatal_end e then forgetting sanitized (end_result e) else pure (end_result e)

  pub on_fetch : Text → Fetch → Q (Option (Option QueueMessage))
  on_fetch sanitized (fetch_failed e) = if is_fatal e then forgetting sanitized none else pure none
  on_fetch sanitized (message payload) = take_message sanitized (codec.unmarshal payload)
  on_fetch sanitized (ended e) = on_end sanitized e

  -- `Dequeue`: `some none` is an empty queue or a discarded message.
  unfoldable pub dequeue : Text → Q (Option (Option QueueMessage))
  dequeue group_jid = do
    let sanitized = sanitize_group_id group_jid
    ready ← ensure_stream sanitized
    if ready
        then (do
          consumer ← ensure_consumer sanitized
          if consumer
              then (do
                got ←
                    on_broker
                      (js.fetch (queue_stream_name sanitized) (codes "dequeue-" ++ sanitized))
                on_fetch sanitized got)
              else pure none)
        else pure none

  abbrev pub on_stored : Stored → Option (Option QueueMessage)
  on_stored msg_not_found = some none
  on_stored get_failed = none
  on_stored (found payload) = elim (codec.unmarshal payload) [
    | none ↦ none
    | some m ↦ some (some m)
  ]

  pub peek_first : Text → Option (ℕ × ℕ) → Q (Option (Option QueueMessage))
  peek_first sanitized none = pure none
  peek_first sanitized (some (msgs, first_seq)) = if eqb msgs 0 then pure (some none) else (do
    got ← on_broker (js.get_msg (queue_stream_name sanitized) first_seq)
    pure (on_stored got))

  -- `Peek`.
  unfoldable pub peek : Text → Q (Option (Option QueueMessage))
  peek group_jid = do
    let sanitized = sanitize_group_id group_jid
    ready ← ensure_stream sanitized
    if ready
        then (do
          deleted ←
              on_broker
                (js.delete_consumer (queue_stream_name sanitized) (codes "peek-" ++ sanitized))
          info ← on_broker (js.info (queue_stream_name sanitized))
          peek_first sanitized info)
        else pure none

  -- `Len`.
  unfoldable pub len : Text → Q (Option ℤ)
  len group_jid = do
    let sanitized = sanitize_group_id group_jid
    ready ← ensure_stream sanitized
    if ready
        then (do
          info ← on_broker (js.info (queue_stream_name sanitized))
          pure (elim info [ none ↦ none | some (msgs, first_seq) ↦ some (signed64 msgs) ]))
        else pure none
