-- ===== src/Orchestrator/Upkeep.antt =====
-- The upkeep of internal/orchestrator/orchestrator.go: the events of the sandbox watcher, and the
-- reconciliation of the active set, of the pending messages and of the streams. Where the source
-- ranges over a map, in an order that Go leaves open, the order is that of the association list.
pub mod Laws
mod Samples
use kraclaw.Prelude.{
  ℕ, Bool, true, false, ◌||◌, not, Text, ◌==◌, codes, List, [], ◌∷◌, Option, none, some, Map,
  lookup, lookup_or, remove, if◌then◌else◌,
}
use kraclaw.Prelude.Trace.{pure, ◌>>=◌, ◌>>◌}
use kraclaw.Store.{Group, Message}
use kraclaw.Orchestrator.World.{
  Call, is_active, mark_inactive, active_jids, has_active_sandbox, stream_exists, delete_streams,
  get_messages_since, enqueue, QueueMessage, Memory, World, Config, Answers, M, ask, peek, read,
  modify, cursor,
}

-- `SandboxState` of internal/sandbox/controller.go, and `SandboxEvent` with what it says of the
-- sandbox (internal/sandbox/watcher.go).
pub data SandboxState : Type 0 where
  state_pending state_running state_completed state_failed : SandboxState
  other_state : Text → SandboxState

pub record SandboxEvent : Type 0 where
  pub event_type : Text
  pub name : Text
  pub group : Text
  pub state : SandboxState

abbrev pub is_final : SandboxState → Bool
is_final state_completed = true
is_final state_failed = true
is_final _ = false

abbrev pub is_terminal : SandboxEvent → Bool
is_terminal e = e.event_type == codes "deleted" || is_final e.state

-- The chat of the group with a folder, or the empty text.
unfoldable pub chat_of : Text → Map Group → Text
chat_of folder [] = []
chat_of folder ((jid, g) ∷ groups) = if g.folder == folder then jid else chat_of folder groups

-- An event of a sandbox that is not the one that the chat has.
abbrev pub is_stale : SandboxEvent → Text → Bool
is_stale e current = if current == [] then false else not (e.name == current)

module _ (cfg : Config) (env : Answers) where
  -- The chat's sandbox is forgotten, and its mark taken off; an error is only logged.
  unmark : Text → M (Unit {0})
  unmark chat_jid = do
    modify (λ m. record m { active_sandboxes = remove chat_jid m.active_sandboxes })
    done ← ask (mark_inactive chat_jid) env.done
    pure tt

  -- What follows the question whether the chat is active.
  on_active : Text → Option Bool → M (Unit {0})
  on_active chat_jid none = unmark chat_jid
  on_active chat_jid (some false) = pure tt
  on_active chat_jid (some true) = unmark chat_jid

  unfoldable pub handle_sandbox_event : SandboxEvent → M (Unit {0})
  unfolding on_active unmark
  handle_sandbox_event e =
      if not (is_terminal e) then pure tt else if e.group == [] then pure tt else (do
        m ← read
        let chat_jid = chat_of e.group m.registered_groups
        if chat_jid == []
            then pure tt
            else if is_stale e (lookup_or [] chat_jid m.active_sandboxes)
            then pure tt
            else (do active ← ask (is_active chat_jid) env.flag; on_active chat_jid active))

  -- The mark of a chat whose sandbox is asked for: it stays if the answer is that it runs, or none.
  on_liveness : Text → Option Bool → M (Unit {0})
  on_liveness jid none = pure tt
  on_liveness jid (some true) = pure tt
  on_liveness jid (some false) = do done ← ask (mark_inactive jid) env.done; pure tt

  -- One turn of the loop of `reconcileActiveSet`.
  pub reconcile_active : Text → M (Unit {0})
  reconcile_active jid = do
    m ← read
    elim (lookup jid m.registered_groups) [
      | none ↦ do done ← ask (mark_inactive jid) env.done; pure tt
      | some group ↦
          if not cfg.has_controller
          then (do done ← ask (mark_inactive jid) env.done; pure tt)
          else (do alive ← ask (has_active_sandbox group.folder) env.flag; on_liveness jid alive)
    ]

  pub reconcile_all : List Text → M (Unit {0})
  reconcile_all [] = pure tt
  reconcile_all (jid ∷ jids) = do reconcile_active jid; reconcile_all jids

  pub on_jids : Option (List Text) → M (Unit {0})
  on_jids none = pure tt
  on_jids (some jids) = reconcile_all jids

  unfoldable pub reconcile_active_set : M (Unit {0})
  reconcile_active_set = do jids ← ask active_jids env.jids; on_jids jids

  -- One turn of the loop of `recoverPendingMessages`, from the copy of the agent cursors on.
  pub recover_chat : Map ℕ → Text → M (Unit {0})
  recover_chat cursors chat_jid = do
    pending ← ask (get_messages_since chat_jid (cursor chat_jid cursors) 1) env.messages
    elim pending [
      | none ↦ pure tt
      | some messages ↦ elim messages [
        | [] ↦ pure tt
        | m ∷ ms ↦ do
          now ← peek env.now
          done ←
              ask
                (enqueue chat_jid (record {
                  group_jid = chat_jid;
                  content = codes "recovery";
                  sender = [];
                  timestamp = now;
                  is_task = false;
                  task_id = [];
                }))
                env.done
          pure tt
      ]
    ]

  pub recover_all : Map ℕ → Map Group → M (Unit {0})
  recover_all cursors [] = pure tt
  recover_all cursors ((jid, g) ∷ groups) = do recover_chat cursors jid; recover_all cursors groups

  unfoldable pub recover_pending_messages : M (Unit {0})
  recover_pending_messages = do m ← read; recover_all m.last_agent m.registered_groups

  -- The questions of `reconcileIPCStreams` in their order; each goes on only at one answer.
  on_exists : Group → Option Bool → M (Unit {0})
  on_exists g (some true) = do done ← ask (delete_streams g.folder) env.done; pure tt
  on_exists g _ = pure tt

  on_owned : Group → Option Bool → M (Unit {0})
  unfolding on_exists
  on_owned g (some false) = do found ← ask (stream_exists g.folder) env.flag; on_exists g found
  on_owned g _ = pure tt

  on_busy : Group → Option Bool → M (Unit {0})
  unfolding on_owned
  on_busy g (some false) = do owned ← ask (has_active_sandbox g.folder) env.flag; on_owned g owned
  on_busy g _ = pure tt

  -- One turn of that loop, for a group that has no slot.
  pub reconcile_stream : Group → M (Unit {0})
  unfolding on_busy
  reconcile_stream g = do
    m ← read
    elim (lookup g.jid m.inflight) [
      | some _ ↦ pure tt
      | none ↦ do busy ← ask (is_active g.jid) env.flag; on_busy g busy
    ]

  pub reconcile_streams : Map Group → M (Unit {0})
  reconcile_streams [] = pure tt
  reconcile_streams ((jid, g) ∷ groups) = do
    cancelled ← peek env.cancelled
    if cancelled then pure tt else (do reconcile_stream g; reconcile_streams groups)

  unfoldable pub reconcile_ipc_streams : M (Unit {0})
  reconcile_ipc_streams = do m ← read; reconcile_streams m.registered_groups
