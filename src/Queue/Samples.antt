-- ===== src/Queue/Samples.antt =====
-- A broker with a single stream, for the examples.
use kraclaw.Prelude.{
  length, Bool, true, false, Text, codes, List, [], ◌∷◌, ◌++◌, some, ◌≡◌, refl, inl, inr, Elem,
}
use kraclaw.Orchestrator.World.{QueueMessage}
use kraclaw.Queue.{
  JetStream, Fetch, message, ended, no_messages, Stored, found, msg_not_found, QueueCodec,
  NatsQueue, enqueue, dequeue,
}
use kraclaw.Queue.Laws.{IsBroker, IsUp, Aged-refl, Appended, Dropped, published}
use kraclaw.Queue.Enqueue.{Enqueued, enqueue-Enqueued}
use kraclaw.Queue.Dequeue.{Dequeued, dequeue-Dequeued}

-- The payloads, whether the stream is there, and the acknowledgements that were sent.
record State : Type 0 where
  payloads : List Text
  there : Bool
  sent : List Text

abbrev first_message : List Text → Fetch
first_message [] = ended (some no_messages)
first_message (p ∷ ps) = message p

abbrev ack_first : State → List Text → Bool × State
ack_first s [] = (false, s)
ack_first s (p ∷ ps) = (true, record s { payloads = ps; sent = p ∷ s.sent })

abbrev stored_first : List Text → Stored
stored_first [] = msg_not_found
stored_first (p ∷ ps) = found p

abbrev publish_there : Text → State → Bool → Bool × State
publish_there p s true = (true, record s { payloads = s.payloads ++ (p ∷ []) })
publish_there p s false = (false, s)

abbrev broker : JetStream State
broker = record {
  stream = λ n s. (s.there, s);
  create_stream = λ c s. (true, record s { there = true });
  publish = λ j p s. publish_there p s s.there;
  create_consumer = λ n c s. (true, s);
  delete_consumer = λ n c s. (true, s);
  fetch = λ n c s. (first_message s.payloads, s);
  ack = λ n s. ack_first s s.payloads;
  info = λ n s. (some (length s.payloads, 1), s);
  get_msg = λ n i s. (stored_first s.payloads, s);
}

abbrev tea : QueueMessage
tea = record {
  group_jid = codes "g";
  content = codes "tea";
  sender = [];
  timestamp = 8;
  is_task = false;
  task_id = [];
}

abbrev codec : QueueCodec
codec = record {
  sha256 = λ s. s;
  hex = λ s. s;
  to_upper_rune = λ c. c;
  marshal = λ m. some m.content;
  unmarshal = λ p. some tea;
}

abbrev group : Text
group = codes "g"

publish_appends :
    (p : Text) (s : State)
    → (published codec broker group p s).0 ≡ true
    → Appended p s.payloads (published codec broker group p s).1.payloads
publish_appends p s h = split s.there h
  where
    split :
        (t : Bool)
        → (publish_there p s t).0 ≡ true
        → Appended p s.payloads (publish_there p s t).1.payloads
    split true h = (s.payloads, Aged-refl s.payloads, refl)
    split false h = cc

fetch_holds : (p : Text) (ps : List Text) → first_message ps ≡ message p → Elem p ps
fetch_holds p [] h = cc
fetch_holds p (x ∷ ps) h = inl cc

ack_drops :
    (p : Text) (s : State) (ps : List Text)
    → s.payloads ≡ ps
    → first_message ps ≡ message p
    → Dropped p s.payloads (ack_first s ps).1.payloads
ack_drops p s [] e h = cc
ack_drops p s (x ∷ ps) e h = inr ([], ps, cc, Aged-refl ps)

ack_sends :
    (p : Text) (s : State) (ps : List Text)
    → first_message ps ≡ message p
    → Elem p (ack_first s ps).1.sent
ack_sends p s [] h = cc
ack_sends p s (x ∷ ps) h = inl cc

broker-IsBroker : IsBroker codec broker group
broker-IsBroker = record {
  pending = λ s. s.payloads;
  IsThere = λ s. s.there ≡ true;
  IsSent = λ p s. Elem p s.sent;
  stream-Aged = λ s. Aged-refl s.payloads;
  stream-IsThere = λ s h. h;
  create-Aged = λ s. Aged-refl s.payloads;
  create-IsThere = λ s h. refl;
  consumer-Aged = λ s. Aged-refl s.payloads;
  publish-Appended = publish_appends;
  fetch-Aged = λ s. Aged-refl s.payloads;
  fetch-Elem = λ p s h. fetch_holds p s.payloads h;
  ack-Dropped = λ p s h. ack_drops p s s.payloads refl h;
  ack-IsSent = λ p s h ok. ack_sends p s s.payloads h;
}

broker-IsUp : IsUp codec broker group broker-IsBroker
unfolding broker-IsBroker
broker-IsUp = record { create-works = λ s. refl; publish-works = λ p s h. rw h refl }

abbrev unknown : NatsQueue
unknown = record { streams = []; consumers = [] }

abbrev vanished : State
vanished = record { payloads = []; there = false; sent = [] }

abbrev with_tea : State
with_tea = record { payloads = codes "tea" ∷ []; there = true; sent = [] }

enqueue-Enqueued_example :
    Enqueued codec broker group broker-IsBroker broker-IsUp
      (codes "tea")
      vanished
      (enqueue codec broker group tea (unknown, vanished))
enqueue-Enqueued_example =
    enqueue-Enqueued codec broker group broker-IsBroker broker-IsUp tea (codes "tea")
      (unknown, vanished) refl

dequeue-Dequeued_example :
    let r = dequeue codec broker group (unknown, with_tea) in
    Dequeued codec broker group broker-IsBroker (codes "tea" ∷ []) r.0 r.1.1
unfolding broker-IsBroker
dequeue-Dequeued_example = dequeue-Dequeued codec broker group broker-IsBroker (unknown, with_tea)
