-- ===== src/Orchestrator/Inbound/Laws.antt =====
-- Which inbound messages are stored (internal/orchestrator/orchestrator.go).
use kraclaw.Prelude.{
  ℕ, ◌≤◌, Bool, true, false, Text, codes, has_prefix, trim_space, byte_len, ◌∷◌, Option, some,
  insert, if◌then◌else◌, ◌≡◌, refl, sym, ◌∙◌, ◌⊎◌, inl, inr, arith, if_cases,
}
use mathlib.Core.Bool.{true≢false}
use kraclaw.RateLimit.{TokenBucket, try_acquire}
use kraclaw.Orchestrator.World.{store_message, World, Config, Answers, M}
use kraclaw.Orchestrator.Inbound.{
  InboundMessage, stored_message, bucket_of, is_too_long, acquire, keep_message, admit_message,
  on_inbound_message,
}

pub is_too_long_iff :
    (max : ℕ) (content : Text)
    → is_too_long max content ≡ false
    → (max ≡ 0) ⊎ (byte_len content ≤ max)
is_too_long_iff max content h = ground arith

module _ (cfg : Config) (env : Answers) (chat_jid : Text) (msg : InboundMessage) where
  abbrev pub drawn : World → TokenBucket × Bool
  drawn w =
      try_acquire cfg.floats (bucket_of cfg.floats cfg.rate_limit chat_jid (env.now w.log) w.mem)
        (env.now w.log)

  -- The world with the chat's bucket behind the draw.
  abbrev pub metered : World → World
  metered w = record w {
    mem = record w.mem { rate_limiters = insert chat_jid (drawn w).0 w.mem.rate_limiters };
  }

  abbrev pub Kept : World → World → Type 0
  Kept w w' =
      ((cfg.max_message_size ≡ 0) ⊎ (byte_len msg.content ≤ cfg.max_message_size))
      × (w'.log ≡ store_message (stored_message msg) ∷ w.log)
      × (w'.mem ≡ (
          if env.done w'.log then record (metered w).mem { notified = true } else (metered w).mem))

  -- What becomes of a message that is no command.
  abbrev pub Outcome : World → World → Type 0
  Outcome w w' =
      (((drawn w).1 ≡ false) × (w' ≡ metered w))
      ⊎ (((drawn w).1 ≡ true)
          × ((w' ≡ metered w) × (is_too_long cfg.max_message_size msg.content ≡ true) ⊎ Kept w w'))

  keep_message-Kept :
      (w : World) → (drawn w).1 ≡ true → Outcome w (keep_message cfg env chat_jid msg (metered w)).1
  unfolding keep_message
  keep_message-Kept w passed =
      if_cases (λ (c : M (Option (Unit {0}))). Outcome w (c (metered w)).1)
        (is_too_long cfg.max_message_size msg.content) _ _ (λ long. inr (passed, inl (refl, long)))
        (λ short.
          if_cases
            (λ (c : M (Option (Unit {0}))).
              Outcome w
                (c (record (metered w) { log = store_message (stored_message msg) ∷ w.log })).1)
            (env.done (store_message (stored_message msg) ∷ w.log)) _ _
            (λ ok. inr (passed, inr (is_too_long_iff _ _ short, refl, rw (ok))))
            (λ no. inr (passed, inr (is_too_long_iff _ _ short, refl, rw (no)))))

  admit_message-Outcome : (w : World) → Outcome w (admit_message cfg env chat_jid msg w).1
  unfolding admit_message acquire
  admit_message-Outcome w =
      if_cases (λ (c : M (Option (Unit {0}))). Outcome w (c (metered w)).1) (drawn w).1 _ _
        (λ passed. keep_message-Kept w passed) (λ spent. inl (spent, refl))

  -- The handler of a message whose trimmed text does not begin with a slash returns. If the chat's
  -- bucket yields no token, it changes only the bucket. If it yields one, then either the message
  -- is too long and again only the bucket changes, or there is no size limit or the message is at
  -- most that long, the only call is to store the message, and only if the store succeeds the loop
  -- is notified.
  pub on_inbound_message_outcome :
      (w : World)
      → has_prefix (trim_space msg.content) (codes "/") ≡ false
      → ((on_inbound_message cfg env chat_jid msg w).0 ≡ some tt)
        × Outcome w (on_inbound_message cfg env chat_jid msg w).1
  unfolding on_inbound_message
  on_inbound_message_outcome w plain =
      if_cases (λ (c : M (Option (Unit {0}))). ((c w).0 ≡ some tt) × Outcome w (c w).1)
        (has_prefix (trim_space msg.content) (codes "/")) _ _
        (λ command. absurd (true≢false (sym command ∙ plain)))
        (λ _. (returns w, admit_message-Outcome w))
    where
      returns : (w' : World) → (admit_message cfg env chat_jid msg w').0 ≡ some tt
      returns w' = unfold admit_message keep_message in ground arith
