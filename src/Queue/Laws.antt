-- ===== src/Queue/Laws.antt =====
-- What the queue relies on of JetStream, and what its preparations do (internal/queue/nats_queue.go).
use kraclaw.Prelude.{
  Bool, true, Text, codes, List, [], ◌∷◌, ◌++◌, append_assoc, lookup, remove, Option, none, some,
  Elem, ◌≡◌, refl, sym, ◌∙◌, ap, subst, ◌⊎◌, inr, if_cases, option_cases,
}
use mathlib.Core.Bool.{true≢false}
use kraclaw.Queue.{
  Fetch, message, JetStream, QueueCodec, NatsQueue, Q, sanitize_group_id, queue_stream_name,
  queue_subject, stream_config, create_missing, ensure_known, ensure_stream, ensure_consumer,
}

-- The oldest payloads may have gone.
abbrev pub Aged : List Text → List Text → Type 0
Aged before after = (gone : List Text) × (before ≡ gone ++ after)

-- A new payload stands behind the older ones.
abbrev pub Appended : Text → List Text → List Text → Type 0
Appended payload before after =
    (kept : List Text) × Aged before kept × (after ≡ kept ++ (payload ∷ []))

-- A payload may have gone too, from wherever it stood.
abbrev pub Dropped : Text → List Text → List Text → Type 0
Dropped payload before after =
    Aged before after
    ⊎ ((front : List Text) × (rest : List Text) × (before ≡ front ++ payload ∷ rest)
        × Aged (front ++ rest) after)

pub Aged-refl : (ps : List Text) → Aged ps ps
Aged-refl ps = ([], refl)

pub Aged-trans : (a b c : List Text) → Aged a b → Aged b c → Aged a c
Aged-trans a b c (g, e) (g', e') = (g ++ g', e ∙ ap (λ ps. g ++ ps) e' ∙ sym (append_assoc g g' c))

pub Elem-Aged : (p : Text) (a b : List Text) → Aged a b → Elem p b → Elem p a
Elem-Aged p a b (g, e) h = subst (Elem p) (sym e) (behind g)
  where
    behind : (g : List Text) → Elem p (g ++ b)
    behind [] = h
    behind (x ∷ g) = inr (behind g)

module _ {S : Type 0} (codec : QueueCodec) (js : JetStream S) (group_jid : Text) where
  abbrev sanitized : Text
  sanitized = sanitize_group_id codec js group_jid

  abbrev pub found_stream : S → Bool × S
  found_stream = js.stream (queue_stream_name codec js sanitized)

  abbrev pub created_stream : S → Bool × S
  created_stream = js.create_stream (stream_config codec js sanitized)

  abbrev created_consumer : S → Bool × S
  created_consumer =
      js.create_consumer (queue_stream_name codec js sanitized) (codes "dequeue-" ++ sanitized)

  abbrev pub published : Text → S → Bool × S
  published = js.publish (queue_subject codec js sanitized)

  abbrev pub fetched : S → Fetch × S
  fetched = js.fetch (queue_stream_name codec js sanitized) (codes "dequeue-" ++ sanitized)

  abbrev pub acked : S → Bool × S
  acked s = js.ack (queue_stream_name codec js sanitized) (fetched s).1

  -- What the queue relies on for the stream of a group: the payloads that the stream holds, the
  -- oldest first, whether the stream is there, and the payloads whose acknowledgements have been
  -- sent. Between any two operations the oldest payloads may reach their age. A lookup of a stream
  -- or its creation that succeeds finds it there, a publication that succeeds is stored behind
  -- the others, and a fetched payload is one that the stream held. An acknowledgement is only
  -- sent, so that its payload may stay.
  pub record IsBroker : Type 1 where
    pub pending : S → List Text
    pub IsThere : S → Type 0
    pub IsSent : Text → S → Type 0
    pub stream-Aged : (s : S) → Aged (pending s) (pending (found_stream s).1)
    pub stream-IsThere : (s : S) → (found_stream s).0 ≡ true → IsThere (found_stream s).1
    pub create-Aged : (s : S) → Aged (pending s) (pending (created_stream s).1)
    pub create-IsThere : (s : S) → (created_stream s).0 ≡ true → IsThere (created_stream s).1
    pub consumer-Aged : (s : S) → Aged (pending s) (pending (created_consumer s).1)
    pub publish-Appended :
        (payload : Text) (s : S)
        → (published payload s).0 ≡ true
        → Appended payload (pending s) (pending (published payload s).1)
    pub fetch-Aged : (s : S) → Aged (pending s) (pending (fetched s).1)
    pub fetch-Elem :
        (payload : Text) (s : S) → (fetched s).0 ≡ message payload → Elem payload (pending s)
    pub ack-Dropped :
        (payload : Text) (s : S)
        → (fetched s).0 ≡ message payload
        → Dropped payload (pending (fetched s).1) (pending (acked s).1)
    pub ack-IsSent :
        (payload : Text) (s : S)
        → (fetched s).0 ≡ message payload
        → (acked s).0 ≡ true
        → IsSent payload (acked s).1

  -- A broker that can be reached: streams can be created, and a stream that is there takes
  -- publications.
  pub record IsUp (b : IsBroker) : Type 0 where
    pub create-works : (s : S) → (created_stream s).0 ≡ true
    pub publish-works : (payload : Text) (s : S) → b.IsThere s → (published payload s).0 ≡ true

  module _ (b : IsBroker) where
    -- The stream is there where the broker can be reached.
    abbrev pub Ensured : S → Bool × (NatsQueue × S) → Type 0
    Ensured s r = Aged (b.pending s) (b.pending r.1.1) × (IsUp b → (r.0 ≡ true) × b.IsThere r.1.1)

    create_missing-Ensured : (w : NatsQueue × S) → Ensured w.1 (create_missing codec js sanitized w)
    unfolding create_missing
    create_missing-Ensured w =
        let r = created_stream w.1 in
        if_cases (λ (c : Q codec js Bool). Ensured w.1 (c (w.0, r.1))) r.0 _ _
          (λ ok. (b.create-Aged w.1, λ up. (refl, b.create-IsThere w.1 ok)))
          (λ failed.
            (b.create-Aged w.1, λ up. absurd (true≢false (sym (up.create-works w.1) ∙ failed))))

    ensure_known-Ensured :
        (o : Option (Unit {0})) (w : NatsQueue × S)
        → Ensured w.1 (ensure_known codec js sanitized o w)
    unfolding ensure_known
    ensure_known-Ensured none w = create_missing-Ensured w
    ensure_known-Ensured (some known) w =
        let r = found_stream w.1 in
        let v : NatsQueue × S = (record w.0 { streams = remove sanitized w.0.streams }, r.1) in
        if_cases (λ (c : Q codec js Bool). Ensured w.1 (c (w.0, r.1))) r.0 _ _
          (λ ok. (b.stream-Aged w.1, λ up. (refl, b.stream-IsThere w.1 ok)))
          (λ _. (
            Aged-trans _ _ _ (b.stream-Aged w.1) (create_missing-Ensured v).0,
            (create_missing-Ensured v).1,
          ))

    pub ensure_stream-Ensured :
        (w : NatsQueue × S) → Ensured w.1 (ensure_stream codec js sanitized w)
    unfolding ensure_stream
    ensure_stream-Ensured w = ensure_known-Ensured (lookup sanitized w.0.streams) w

    pub ensure_consumer-Aged :
        (w : NatsQueue × S)
        → Aged (b.pending w.1) (b.pending (ensure_consumer codec js sanitized w).1.1)
    unfolding ensure_consumer
    ensure_consumer-Aged w =
        let r = created_consumer w.1 in
        option_cases (λ (c : Q codec js Bool). Aged (b.pending w.1) (b.pending (c w).1.1))
          (lookup sanitized w.0.consumers) _ _
          (λ _.
            if_cases (λ (c : Q codec js Bool). Aged (b.pending w.1) (b.pending (c (w.0, r.1)).1.1))
              r.0 _ _ (λ _. b.consumer-Aged w.1) (λ _. b.consumer-Aged w.1))
          (λ _ _. Aged-refl (b.pending w.1))
