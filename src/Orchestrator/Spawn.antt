-- ===== src/Orchestrator/Spawn.antt =====
-- `spawnAgent` of internal/orchestrator/orchestrator.go, with the steps that undo it.
pub mod Undo
mod Samples
use kraclaw.Prelude.{
  ℕ, zero, suc, Bool, true, false, Text, codes, List, [], ◌∷◌, ◌++◌, ◌*◌, Option, none, some, Map,
  lookup, insert, remove, ltb, if◌then◌else◌,
}
use kraclaw.Prelude.Trace.{pure, ◌>>=◌, ◌>>◌}
use kraclaw.Store.{Group, ContainerConfig}
use kraclaw.Orchestrator.World.{
  Call, ensure_stream, has_active_sandbox, delete_streams, stop_sandbox, mark_active, mark_inactive,
  active_count, create_sandbox, subscribe_output, send_input, go_watch, IpcMessage, message_text,
  SandboxConfig, Memory, World, Config, Answers, M, ask, peek, modify, Result, ok, err,
}
use kraclaw.Orchestrator.Cursors.{save_state}

-- The closures that `spawnAgent` stages.
pub data Cleanup : Type 0 where
  rollback_cursor : Cleanup
  release_streams : Cleanup
  clear_spawn_start : Cleanup
  stop : Text → Cleanup
  drop_streams : Cleanup
  deactivate : Cleanup

-- `ipc.DefaultAgentID`.
abbrev pub default_agent_id : Text
default_agent_id = codes "main"

-- A message to the primary agent of a group.
abbrev pub to_agent : Text → Text → IpcMessage
to_agent folder payload = record {
  group = folder;
  agent_id = default_agent_id;
  kind = message_text;
  payload = payload;
  id = [];
}

-- `timeout` of a group: its own, in nanoseconds, if it is positive, else the configured one.
abbrev own_timeout : ℕ → Option ContainerConfig → ℕ
own_timeout idle none = idle
own_timeout idle (some c) = if ltb 0 c.timeout then c.timeout * 1_000_000 else idle

abbrev own_model : Option ContainerConfig → Text
own_model none = []
own_model (some c) = c.model

-- `sbCfg`.
abbrev pub sandbox_config : Config → Text → Group → Text → Text → SandboxConfig
sandbox_config cfg chat_jid group session_id formatted = record {
  group_folder = group.folder;
  group_jid = chat_jid;
  session_id = session_id;
  is_main = group.is_main;
  timeout = own_timeout cfg.idle_timeout group.container_config;
  input = formatted;
  model = own_model group.container_config;
  container_config = group.container_config;
}

-- What is staged before the sandbox exists, before it is marked, and behind that.
abbrev before_sandbox : List Cleanup
before_sandbox = rollback_cursor ∷ release_streams ∷ clear_spawn_start ∷ []

abbrev with_sandbox : Text → List Cleanup
with_sandbox name = before_sandbox ++ stop name ∷ drop_streams ∷ []

abbrev with_mark : Text → List Cleanup
with_mark name = before_sandbox ++ stop name ∷ drop_streams ∷ deactivate ∷ []

module _ (cfg : Config) (env : Answers) where
  -- `releaseOrphanedStreams`; errors are only logged.
  release_orphaned_streams : Text → M (Unit {0})
  release_orphaned_streams folder =
      if cfg.fast_start
      then (do
        has ← ask (has_active_sandbox folder) env.flag
        elim has [
          | none ↦ pure tt
          | some true ↦ pure tt
          | some false ↦ do done ← ask (delete_streams folder) env.done; pure tt
        ])
      else pure tt

  -- One round of `ensureStreamForAgentWithRetry`, with the rounds behind it.
  pub attempt_stream : Text → M Bool → M Bool
  attempt_stream folder rest = do
    done ← ask (ensure_stream folder) env.done
    if done then pure true else rest

  -- `ensureStreamForAgentWithRetry`: the rounds that are left, and whether this is not the first.
  pub ensure_stream_with_retry : ℕ → Bool → Text → M Bool
  ensure_stream_with_retry zero again folder = pure false
  ensure_stream_with_retry (suc rounds) again folder =
      let rest = ensure_stream_with_retry rounds true folder in
      if again
      then (do
        cancelled ← peek env.cancelled
        if cancelled then pure false else attempt_stream folder rest)
      else attempt_stream folder rest

  module _ (chat_jid : Text) (group : Group) (previous : ℕ) where
    -- `created` is `sc.sandboxCreated` at the time of the failure.
    clean : Bool → Cleanup → M (Unit {0})
    clean created rollback_cursor = do
      modify (λ m. record m { last_agent = insert chat_jid previous m.last_agent })
      r ← save_state cfg env
      pure tt
    clean created release_streams =
        if created then pure tt else release_orphaned_streams group.folder
    clean created clear_spawn_start =
        modify (λ m. record m { spawn_start = remove chat_jid m.spawn_start })
    clean created (stop name) = do
      done ← ask (stop_sandbox name) env.done
      modify (λ m. record m { active_sandboxes = remove chat_jid m.active_sandboxes })
    clean created drop_streams = do done ← ask (delete_streams group.folder) env.done; pure tt
    clean created deactivate = do done ← ask (mark_inactive chat_jid) env.done; pure tt

    -- `abortOnError`: the staged closures in the order in which they were staged.
    abort_on_error : Bool → List Cleanup → M (Unit {0})
    abort_on_error created [] = pure tt
    abort_on_error created (c ∷ cs) = do clean created c; abort_on_error created cs

    pub abort : Bool → List Cleanup → Text → M (Result Text)
    abort created staged reason = do abort_on_error created staged; pure (err reason)

    -- From the mark in the store on.
    pub activate : Text → Text → M (Result Text)
    activate payload name = do
      marked ← ask (mark_active chat_jid) env.done
      if marked
          then (do
            modify (λ m. record m { inflight = remove chat_jid m.inflight })
            post_count ← ask active_count env.count
            subscribed ← ask (subscribe_output group.folder) env.done
            if subscribed
                then (do
                  ask (go_watch chat_jid) (λ _. tt)
                  sent ← ask (send_input group.folder (to_agent group.folder payload)) env.done
                  if sent
                      then pure (ok name)
                      else abort true (with_mark name) (codes "send initial input"))
                else abort true (with_mark name) (codes "subscribe output"))
          else abort true (with_sandbox name) (codes "mark active")

    -- From the creation of the sandbox on.
    pub launch : Text → Text → Text → M (Result Text)
    launch session_id formatted payload = do
      start ← peek env.now
      modify (λ m. record m { spawn_start = insert chat_jid start m.spawn_start })
      created ←
          ask (create_sandbox (sandbox_config cfg chat_jid group session_id formatted))
            env.sandbox_name
      elim created [
        | none ↦ abort false before_sandbox (codes "create sandbox")
        | some name ↦ do
          modify (λ m. record m { active_sandboxes = insert chat_jid name m.active_sandboxes })
          activate payload name
      ]

    -- With a stream that is made ahead of the agent.
    pub fast_launch : Text → Text → Text → M (Result Text)
    fast_launch session_id formatted payload = do
      ensured ← ensure_stream_with_retry 3 false group.folder
      if ensured
          then launch session_id formatted payload
          else abort false (rollback_cursor ∷ release_streams ∷ [])
              (codes "ensure stream for agent")

    unfoldable pub spawn_agent : Text → Text → M (Result Text)
    spawn_agent session_id formatted = elim (cfg.marshal_messages formatted) [
      | none ↦ abort false (rollback_cursor ∷ []) (codes "marshal initial input")
      | some payload ↦
          if cfg.has_controller
          then (if cfg.fast_start
              then fast_launch session_id formatted payload
              else launch session_id formatted payload)
          else abort false (rollback_cursor ∷ []) (codes "create sandbox")
    ]
