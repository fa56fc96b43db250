-- ===== src/Orchestrator/Agent.antt =====
-- `handleIPCMessage` of internal/orchestrator/orchestrator.go: what an agent may ask for.
pub mod Sends
pub mod Laws
mod Samples
use kraclaw.Prelude.{
  ℕ, Bool, true, false, Text, ◌==◌, codes, List, [], ◌∷◌, Option, none, some, insert, if◌then◌else◌,
}
use kraclaw.Prelude.Trace.{pure, ◌>>=◌, ◌>>◌}
use kraclaw.Store.{Group, Message, ScheduledTask, validate_task}
use kraclaw.Router.{Channel, Delivery, RouteResult, routed, send_failed, no_channel, route_outbound}
use kraclaw.Orchestrator.World.{
  Call, deliver, store_message, upsert_session, create_task, update_task, delete_task,
  delete_streams, IpcMessageType, message_text, session_update, task_create, task_update,
  task_delete, set_model, shutdown, unknown_type, IpcMessage, Memory, World, Config, Answers, M,
  ask, peek, modify, cursor,
}

-- The channels' sends, written into the log.
pub deliver_all : List Delivery → M (Unit {0})
deliver_all [] = pure tt
deliver_all (d ∷ ds) = do ask (deliver d) (λ _. tt); deliver_all ds

module _ (cfg : Config) (env : Answers) where
  -- `o.router.RouteOutbound`; `none` means that it does not return.
  pub route : Text → Text → M (Option RouteResult)
  route chat_jid text = do
    channels ← peek env.channels
    elim (route_outbound cfg.strip_fuel channels chat_jid text) [
      | none ↦ pure none
      | some (r, sends) ↦ do deliver_all sends; pure (some r)
    ]

  module _ (chat_jid : Text) (group : Group) where
    -- A reply that a channel took is stored, and all that was sent to the agent is confirmed.
    pub on_routed : Text → Option RouteResult → M (Option Bool)
    on_routed text none = pure none
    on_routed text (some send_failed) = pure (some false)
    on_routed text (some no_channel) = pure (some false)
    on_routed text (some routed) = do
      id ← peek env.fresh_id
      now ← peek env.now
      stored ←
          ask
            (store_message (record {
              id = id;
              chat_jid = chat_jid;
              sender = codes "assistant";
              sender_name = codes "assistant";
              content = text;
              timestamp = now;
              is_from_me = false;
              is_bot_message = true;
            }))
            env.done
      modify (λ m. record m {
        last_confirmed = insert chat_jid (cursor chat_jid m.last_agent) m.last_confirmed;
      })
      modify (λ m. record m { confirmed_dirty = true })
      pure (some false)

    pub on_text : Option Text → M (Option Bool)
    on_text none = pure (some false)
    on_text (some text) = do r ← route chat_jid text; on_routed text r

    pub on_session : Option Text → M (Option Bool)
    on_session none = pure (some false)
    on_session (some session_id) = do
      modify (λ m. record m { sessions = insert group.folder session_id m.sessions })
      stored ← ask (upsert_session group.folder session_id) env.done
      pure (some false)

    -- The task is the agent's own, whatever the payload says.
    abbrev pub own_task : ScheduledTask → ScheduledTask
    own_task task = record task { group_folder = group.folder; chat_jid = chat_jid }

    pub on_task_create : Option ScheduledTask → M (Option Bool)
    on_task_create none = pure (some false)
    on_task_create (some task) = elim (validate_task cfg.parsers (own_task task)) [
      | some e ↦ pure (some false)
      | none ↦ do stored ← ask (create_task (own_task task)) env.done; pure (some false)
    ]

    pub on_task_update : Option ScheduledTask → M (Option Bool)
    on_task_update none = pure (some false)
    on_task_update (some task) =
        if task.group_folder == group.folder
        then (elim (validate_task cfg.parsers task) [
          | some e ↦ pure (some false)
          | none ↦ do stored ← ask (update_task task) env.done; pure (some false)
        ])
        else pure (some false)

    pub on_task_delete : Option Text → M (Option Bool)
    on_task_delete none = pure (some false)
    on_task_delete (some id) = do
      deleted ← ask (delete_task id group.folder) env.done
      pure (some false)

    pub on_kind : IpcMessageType → Text → M (Option Bool)
    on_kind message_text payload = on_text (cfg.decode_text payload)
    on_kind session_update payload = on_session (cfg.decode_session payload)
    on_kind task_create payload = on_task_create (cfg.decode_task payload)
    on_kind task_update payload = on_task_update (cfg.decode_task payload)
    on_kind task_delete payload = on_task_delete (cfg.decode_id payload)
    on_kind shutdown payload = do
      deleted ← ask (delete_streams group.folder) env.done
      pure (some true)
    on_kind set_model payload = pure (some false)
    on_kind (unknown_type name) payload = pure (some false)

    -- The result says whether the agent has shut down; `none` means that the handler does not return.
    unfoldable pub handle_ipc_message : IpcMessage → M (Option Bool)
    unfolding on_kind on_text on_routed route deliver_all on_session on_task_create on_task_update
        on_task_delete
    handle_ipc_message msg = on_kind msg.kind msg.payload
