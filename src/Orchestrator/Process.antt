-- ===== src/Orchestrator/Process.antt =====
-- `claimSandboxSlot` and `processGroupMessages` of internal/orchestrator/orchestrator.go.
pub mod Starts
pub mod Laws
mod Samples
use kraclaw.Prelude.{
  ℕ, ◌+◌, Bool, true, false, ◌&&◌, not, Text, ◌==◌, codes, List, [], ◌∷◌, Option, none, some, Map,
  lookup, insert, leb, length, last_or, select, if◌then◌else◌,
}
use kraclaw.Prelude.Trace.{pure, ◌>>=◌, ◌>>◌}
use kraclaw.Store.{Group, Message}
use kraclaw.Router.{format_messages_for_agent}
use kraclaw.Orchestrator.World.{
  Call, get_messages_since, active_count, Memory, World, Config, Answers, M, ask, read, modify,
  Result, ok, err, cursor,
}
use kraclaw.Orchestrator.Cursors.{save_state}
use kraclaw.Orchestrator.Trigger.{has_trigger_message}
use kraclaw.Orchestrator.Spawn.{spawn_agent}

-- `LoadOrStore`: whether the slot was free, which then is taken.
unfoldable pub claim_sandbox_slot : Text → M Bool
claim_sandbox_slot chat_jid = do
  m ← read
  elim (lookup chat_jid m.inflight) [
    | some _ ↦ pure false
    | none ↦ do modify (λ m'. record m' { inflight = insert chat_jid tt m'.inflight }); pure true
  ]

-- The number of slots that other chats hold.
abbrev pub others : Text → Map (Unit {0}) → ℕ
others chat_jid slots = length (select (λ (e : Text × Unit {0}). not (e.0 == chat_jid)) slots)

-- The time of the last message, `messages[len(messages)-1].Timestamp`.
abbrev pub last_time : Message → List Message → ℕ
last_time m ms = (last_or m ms).timestamp

abbrev pub session_of : Text → Map Text → Text
session_of folder sessions = elim (lookup folder sessions) [ none ↦ [] | some id ↦ id ]

module _ (cfg : Config) (env : Answers) where
  -- Whether the trigger lets a batch pass; groups without one pass.
  pub check_trigger : Text → Group → List Message → M (Result Bool)
  check_trigger chat_jid group messages =
      if not group.is_main && group.requires_trigger
      then has_trigger_message cfg env chat_jid group messages
      else pure (ok true)

  module _ (chat_jid : Text) (group : Group) (agent_ts : ℕ) (session_id : Text) where
    -- What follows a spawn that succeeded: the initial messages are confirmed.
    pub confirm : M (Result Bool)
    confirm = do
      modify (λ mem. record mem {
        last_confirmed = insert chat_jid (cursor chat_jid mem.last_agent) mem.last_confirmed;
      })
      saved ← save_state cfg env
      pure (ok true)

    -- The spawn, with the cursors and the saves before and behind it.
    pub start_agent : Message → List Message → M (Result Bool)
    start_agent m ms = do
      let formatted = format_messages_for_agent cfg.tables (m ∷ ms) cfg.assistant_name
      modify (λ mem. record mem { last_agent = insert chat_jid (last_time m ms) mem.last_agent })
      saved ← save_state cfg env
      status ← spawn_agent cfg env chat_jid group agent_ts session_id formatted
      elim status [ err e ↦ pure (err e) | ok name ↦ confirm ]

    -- From the check of the capacity on.
    pub admit : Message → List Message → M (Result Bool)
    admit m ms = do
      counted ← ask active_count env.count
      elim counted [
        | none ↦ pure (err (codes "check active count"))
        | some active ↦ do
          mem ← read
          if leb cfg.max_concurrent (active + others chat_jid mem.inflight)
              then pure (ok false)
              else start_agent m ms
      ]

    -- What follows the check of the trigger.
    pub on_trigger : Message → List Message → Result Bool → M (Result Bool)
    on_trigger m ms (err e) = pure (err (codes "trigger check"))
    on_trigger m ms (ok false) = pure (ok false)
    on_trigger m ms (ok true) = admit m ms

    -- What follows the question for the messages.
    pub on_messages : Option (List Message) → M (Result Bool)
    on_messages none = pure (err (codes "get messages since"))
    on_messages (some []) = pure (ok false)
    on_messages (some (m ∷ ms)) = do
      triggered ← check_trigger chat_jid group (m ∷ ms)
      on_trigger m ms triggered

  -- The result says whether a sandbox was started.
  unfoldable pub process_group_messages : Text → M (Result Bool)
  process_group_messages chat_jid = do
    mem ← read
    elim (lookup chat_jid mem.registered_groups) [
      | none ↦ pure (ok false)
      | some group ↦ do
        let agent_ts = cursor chat_jid mem.last_agent
        got ← ask (get_messages_since chat_jid agent_ts cfg.message_limit) env.messages
        on_messages chat_jid group agent_ts (session_of group.folder mem.sessions) got
    ]
