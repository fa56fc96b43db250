-- ===== src/Orchestrator/Inbound.antt =====
-- The handlers of what channels deliver: `onInboundMessage` and `onChatMeta` of
-- internal/orchestrator/orchestrator.go. `none` means that the handler does not return.
pub mod Laws
mod Samples
use kraclaw.Prelude.{
  ℕ, Bool, true, false, ◌&&◌, Text, codes, has_prefix, trim_space, byte_len, ltb, Option, none,
  some, lookup, insert, if◌then◌else◌,
}
use kraclaw.Prelude.Trace.{pure, ◌>>=◌, ◌>>◌}
use kraclaw.Store.{Message, Chat}
use kraclaw.RateLimit.{Float64, TokenBucket, new_token_bucket, try_acquire}
use kraclaw.Orchestrator.World.{
  Call, store_message, upsert_chat, Memory, World, Config, Answers, M, ask, peek, read, modify,
}
use kraclaw.Orchestrator.Commands.{handle_slash_command}

-- `channel.InboundMessage` (internal/channel/channel.go).
pub record InboundMessage : Type 0 where
  pub id : Text
  pub chat_jid : Text
  pub sender : Text
  pub sender_name : Text
  pub content : Text
  pub timestamp : ℕ
  pub is_group : Bool

-- What is stored of it.
abbrev pub stored_message : InboundMessage → Message
stored_message msg = record {
  id = msg.id;
  chat_jid = msg.chat_jid;
  sender = msg.sender;
  sender_name = msg.sender_name;
  content = msg.content;
  timestamp = msg.timestamp;
  is_from_me = false;
  is_bot_message = false;
}

-- The chat's bucket, a new one if it has none.
abbrev pub bucket_of : Float64 → ℕ → Text → ℕ → Memory → TokenBucket
bucket_of float capacity chat_jid now m = elim (lookup chat_jid m.rate_limiters) [
  | none ↦ new_token_bucket float capacity now
  | some tb ↦ tb
]

-- Longer than the limit, if there is one.
abbrev pub is_too_long : ℕ → Text → Bool
is_too_long max content = ltb 0 max && ltb max (byte_len content)

module _ (cfg : Config) (env : Answers) (chat_jid : Text) where
  -- A token of the chat's bucket; the bucket is kept.
  pub acquire : M Bool
  acquire = do
    now ← peek env.now
    m ← read
    let (tb, passed) =
        try_acquire cfg.floats (bucket_of cfg.floats cfg.rate_limit chat_jid now m) now
    modify (λ m'. record m' { rate_limiters = insert chat_jid tb m'.rate_limiters })
    pure passed

  -- From the check of the size on.
  pub keep_message : InboundMessage → M (Option (Unit {0}))
  keep_message msg = if is_too_long cfg.max_message_size msg.content then pure (some tt) else (do
    stored ← ask (store_message (stored_message msg)) env.done
    if stored
        then (do modify (λ m. record m { notified = true }); pure (some tt))
        else pure (some tt))

  -- From the rate limit on.
  pub admit_message : InboundMessage → M (Option (Unit {0}))
  admit_message msg = do passed ← acquire; if passed then keep_message msg else pure (some tt)

  -- What follows a possible command.
  pub on_command : InboundMessage → Option Bool → M (Option (Unit {0}))
  on_command msg none = pure none
  on_command msg (some true) = pure (some tt)
  on_command msg (some false) = admit_message msg

  unfoldable pub on_inbound_message : InboundMessage → M (Option (Unit {0}))
  on_inbound_message msg =
      if has_prefix (trim_space msg.content) (codes "/")
      then (do
        handled ← handle_slash_command cfg env chat_jid msg.content msg.sender
        on_command msg handled)
      else admit_message msg

  unfoldable pub on_chat_meta : ℕ → Text → Text → Bool → M (Unit {0})
  on_chat_meta timestamp name ch is_group = do
    done ←
        ask
          (upsert_chat (record {
            jid = chat_jid;
            name = name;
            channel = ch;
            is_group = is_group;
            last_message_time = timestamp;
          }))
          env.done
    pure tt
