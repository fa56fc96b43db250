-- ===== src/Queue/Broker.antt =====
-- What the queue calls of the client of JetStream (internal/queue/nats_queue.go).
use kraclaw.Prelude.{ℕ, Bool, Text, List, Option}

-- The errors of the client that the queue tells apart.
pub data NatsError : Type 0 where
  consumer_not_found consumer_deleted stream_not_found no_responders timeout no_messages
        iterator_closed other :
      NatsError

-- What a fetch of one message yields: an error, a message, or the end of the batch with
-- `msgs.Error()`.
pub data Fetch : Type 0 where
  fetch_failed : NatsError → Fetch
  message : Text → Fetch
  ended : Option NatsError → Fetch

pub data Stored : Type 0 where
  found : Text → Stored
  msg_not_found get_failed : Stored

pub data RetentionPolicy : Type 0 where
  limits interest work_queue : RetentionPolicy

pub data StorageType : Type 0 where
  file_storage memory_storage : StorageType

-- What the queue sets of a stream's configuration; the age is in nanoseconds.
pub record StreamConfig : Type 0 where
  pub name : Text
  pub subjects : List Text
  pub retention : RetentionPolicy
  pub storage : StorageType
  pub max_age : ℕ
  pub replicas : ℕ

pub record JetStream (S : Type 0) : Type 0 where
  -- A stream by its name; its creation, or its update if it is there.
  pub stream : Text → S → Bool × S
  pub create_stream : StreamConfig → S → Bool × S
  pub publish : Text → Text → S → Bool × S
  -- A consumer with explicit acknowledgements, by its stream and its durable name.
  pub create_consumer : Text → Text → S → Bool × S
  pub delete_consumer : Text → Text → S → Bool × S
  pub fetch : Text → Text → S → Fetch × S
  -- The acknowledgement of the message that was fetched last of a stream. It is sent, and the
  -- server does not confirm it.
  pub ack : Text → S → Bool × S
  -- The number of messages of a stream, and the sequence number of its first one.
  pub info : Text → S → Option (ℕ × ℕ) × S
  pub get_msg : Text → ℕ → S → Stored × S
