-- ===== src/Orchestrator/Poll.antt =====
-- `refreshGroups` and `pollMessages` of internal/orchestrator/orchestrator.go. The chats of a poll,
-- whose order Go leaves open, come in the order of their first messages; the goroutine that is
-- started for a chat is `process_run`.
pub mod Dispatch
pub mod Laws
mod Samples
use kraclaw.Prelude.{
  ℕ, Bool, true, false, Text, List, [], ◌∷◌, ◌++◌, map, Option, none, some, Map, lookup, insert,
  remove, if◌then◌else◌,
}
use kraclaw.Prelude.Trace.{pure, ◌>>=◌, ◌>>◌}
use kraclaw.Store.{Group, Message}
use kraclaw.Router.{format_messages_for_agent}
use kraclaw.Orchestrator.World.{
  Call, list_groups, get_new_messages, get_messages_since, is_active, send_input, go_process,
  Memory, World, Config, Answers, M, ask, read, modify, Result, ok, err, cursor,
}
use kraclaw.Orchestrator.Cursors.{save_state}
use kraclaw.Orchestrator.Spawn.{to_agent}
use kraclaw.Orchestrator.Process.{
  claim_sandbox_slot, last_time, check_trigger, process_group_messages,
}

-- `newMap`: the groups under their chats, the later of two with one chat.
abbrev pub by_jid : List Group → Map Group → Map Group
by_jid [] acc = acc
by_jid (g ∷ gs) acc = by_jid gs (insert g.jid g acc)

-- A message behind those of its chat.
abbrev pub add_message : Message → Map (Message × List Message) → Map (Message × List Message)
add_message m acc =
    insert m.chat_jid
      (elim (lookup m.chat_jid acc) [ none ↦ (m, []) | some (f, r) ↦ (f, r ++ m ∷ []) ]) acc

-- `byGroup`: the messages by their chats, none of them without one.
abbrev pub by_group : List Message → Map (Message × List Message) → Map (Message × List Message)
by_group [] acc = acc
by_group (m ∷ ms) acc = by_group ms (add_message m acc)

module _ (cfg : Config) (env : Answers) where
  unfoldable pub refresh_groups : M (Unit {0})
  refresh_groups = do
    got ← ask list_groups env.groups
    elim got [
      | none ↦ pure tt
      | some groups ↦ modify (λ m. record m { registered_groups = by_jid groups [] })
    ]

  -- The goroutine's body, with the release of the slot behind it.
  unfoldable pub process_run : Text → M (Unit {0})
  process_run chat_jid = do
    r ← process_group_messages cfg env chat_jid
    modify (λ m. record m { inflight = remove chat_jid m.inflight })

  module _ (chat_jid : Text) (group : Group) where
    -- Messages go to the agent, and the agent cursor behind them if they went.
    pub pipe : Message → List Message → M (Unit {0})
    pipe m ms =
        elim (cfg.marshal_messages
          (format_messages_for_agent cfg.tables (m ∷ ms) cfg.assistant_name)) [
            | none ↦ pure tt
            | some payload ↦ do
              sent ← ask (send_input group.folder (to_agent group.folder payload)) env.done
              if sent
                  then (do
                    modify (λ mem. record mem {
                      last_agent = insert chat_jid (last_time m ms) mem.last_agent;
                    })
                    saved ← save_state cfg env
                    pure tt)
                  else pure tt
          ]

    -- What follows the question for the pending messages; the new ones stand in for none.
    pub on_pending : Message → List Message → Option (List Message) → M (Unit {0})
    on_pending m ms none = pure tt
    on_pending m ms (some []) = pipe m ms
    on_pending m ms (some (p ∷ ps)) = pipe p ps

    -- What follows the question whether the chat has an agent.
    pub on_agent : Message → List Message → Option Bool → M (Unit {0})
    on_agent m ms none = pure tt
    on_agent m ms (some true) = do
      mem ← read
      pending ←
          ask (get_messages_since chat_jid (cursor chat_jid mem.last_agent) cfg.message_limit)
            env.messages
      on_pending m ms pending
    on_agent m ms (some false) = do
      claimed ← claim_sandbox_slot chat_jid
      if claimed then ask (go_process chat_jid) (λ _. tt) else pure tt

    -- What follows the check of the trigger.
    pub on_check : Message → List Message → Result Bool → M (Unit {0})
    on_check m ms (err e) = pure tt
    on_check m ms (ok false) = pure tt
    on_check m ms (ok true) = do agent ← ask (is_active chat_jid) env.flag; on_agent m ms agent

  -- One turn of the loop over the chats.
  pub dispatch : Text → Message → List Message → M (Unit {0})
  dispatch chat_jid m ms = do
    mem ← read
    elim (lookup chat_jid mem.registered_groups) [
      | none ↦ pure tt
      | some group ↦ do
        triggered ← check_trigger cfg env chat_jid group (m ∷ ms)
        on_check chat_jid group m ms triggered
    ]

  pub dispatch_all : Map (Message × List Message) → M (Unit {0})
  dispatch_all [] = pure tt
  dispatch_all ((chat_jid, (m, ms)) ∷ batches) = do dispatch chat_jid m ms; dispatch_all batches

  -- What follows the question for the new messages.
  pub on_new : Option (List Message) → M (Unit {0})
  on_new none = pure tt
  on_new (some []) = pure tt
  on_new (some (m ∷ ms)) = do
    modify (λ mem. record mem { last_timestamp = last_time m ms })
    saved ← save_state cfg env
    dispatch_all (by_group (m ∷ ms) [])

  -- The poll behind the refreshed groups.
  pub poll_groups : Map Group → ℕ → M (Unit {0})
  poll_groups [] since = pure tt
  poll_groups (g ∷ groups) since = do
    got ← ask (get_new_messages (map (λ e. e.0) (g ∷ groups)) since cfg.message_limit) env.messages
    on_new got

  unfoldable pub poll_messages : M (Unit {0})
  poll_messages = do refresh_groups; m ← read; poll_groups m.registered_groups m.last_timestamp
