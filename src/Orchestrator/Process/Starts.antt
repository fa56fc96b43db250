-- ===== src/Orchestrator/Process/Starts.antt =====
-- The cursors behind the start of an agent (internal/orchestrator/orchestrator.go).
use kraclaw.Prelude.{
  Bool, true, not, ◌&&◌, Text, ◌==◌, ==_iff, ==_refl, List, ◌∷◌, insert, if◌then◌else◌, ◌≡◌, refl,
  ◌∙◌, ap, ap₂, ◌⊎◌, inl, inr, arith, if_cases, ◌≢◌,
}
use kraclaw.Prelude.Trace.{pure}
use kraclaw.Store.{Group, Message}
use kraclaw.Router.{format_messages_for_agent}
use kraclaw.Orchestrator.World.{World, Config, Answers, M, Result, ok, err, cursor}
use kraclaw.Orchestrator.Cursors.{save_state}
use kraclaw.Orchestrator.Cursors.Laws.{save_state-mem}
use kraclaw.Orchestrator.Trigger.Laws.{has_trigger_message-mem}
use kraclaw.Orchestrator.Spawn.{spawn_agent}
use kraclaw.Orchestrator.Spawn.Undo.Failures.{spawn_agent-IsUndone}
use kraclaw.Orchestrator.Spawn.Undo.Success.{spawn_agent_succeeds}
use kraclaw.Orchestrator.Process.{last_time, check_trigger, confirm, start_agent}
use kraclaw.Orchestrator.Moves.{cursor-insert, IsUnmoved, IsMovedTo}

module _ (cfg : Config) (env : Answers) where
  pub check_trigger-mem :
      (chat_jid : Text) (group : Group) (ms : List Message) (w : World)
      → (check_trigger cfg env chat_jid group ms w).1.mem ≡ w.mem
  unfolding check_trigger
  check_trigger-mem chat_jid group ms w =
      if_cases (λ (c : M (Result Bool)). (c w).1.mem ≡ w.mem)
        (not group.is_main && group.requires_trigger) _ _
        (λ _. has_trigger_message-mem cfg env chat_jid group ms w) (λ _. refl)

  module _ (chat_jid : Text) (group : Group) (session_id : Text) (m : Message) (ms : List Message)
      (w : World) where
    abbrev pub start_run : Result Bool × World
    start_run =
        start_agent cfg env chat_jid group (cursor chat_jid w.mem.last_agent) session_id m ms w

    abbrev advanced : World
    advanced =
        (save_state cfg env (record w {
          mem = record w.mem { last_agent = insert chat_jid (last_time m ms) w.mem.last_agent };
        })).1

    advanced-agent : advanced.mem.last_agent ≡ insert chat_jid (last_time m ms) w.mem.last_agent
    advanced-agent = ap (λ x. x.last_agent) (save_state-mem cfg env _)

    advanced-confirmed : advanced.mem.last_confirmed ≡ w.mem.last_confirmed
    advanced-confirmed = ap (λ x. x.last_confirmed) (save_state-mem cfg env _)

    abbrev spawned : Result Text × World
    spawned =
        spawn_agent cfg env chat_jid group (cursor chat_jid w.mem.last_agent) session_id
          (format_messages_for_agent cfg.tables (m ∷ ms) cfg.assistant_name) advanced

    start_agent_fails : (reason : Text) → spawned.0 ≡ err reason → IsUnmoved w.mem spawned.1.mem
    start_agent_fails reason h =
        let (agent, confirmed, _, _, _, _, _) =
          spawn_agent-IsUndone cfg env chat_jid group (cursor chat_jid w.mem.last_agent) session_id
            _ advanced reason h in
        (
          λ j.
              ap (cursor j) (agent ∙ ap (insert chat_jid _) advanced-agent)
              ∙ ground (
                arith,
                ==_iff chat_jid j,
                cursor-insert chat_jid j (cursor chat_jid w.mem.last_agent)
                    (insert chat_jid (last_time m ms) w.mem.last_agent),
                cursor-insert chat_jid j (last_time m ms) w.mem.last_agent,
              ),
          λ j. ap (cursor j) (confirmed ∙ advanced-confirmed),
        )

    abbrev confirming : World
    confirming = record spawned.1 {
      mem = record spawned.1.mem {
        last_confirmed =
            insert chat_jid (cursor chat_jid spawned.1.mem.last_agent) spawned.1.mem.last_confirmed;
      };
    }

    start_agent_succeeds :
        (name : Text)
        → spawned.0 ≡ ok name
        → IsMovedTo chat_jid (last_time m ms) w.mem (save_state cfg env confirming).1.mem
    start_agent_succeeds name h =
        let s =
          spawn_agent_succeeds cfg env chat_jid group (cursor chat_jid w.mem.last_agent) session_id
            _ name advanced h in
        let agent : spawned.1.mem.last_agent ≡ insert chat_jid (last_time m ms) w.mem.last_agent =
          s.2.0 ∙ advanced-agent in
        let confirmed : spawned.1.mem.last_confirmed ≡ w.mem.last_confirmed =
          s.2.1 ∙ advanced-confirmed in
        let here : cursor chat_jid spawned.1.mem.last_agent ≡ last_time m ms =
          ap (cursor chat_jid) agent
          ∙ ground (
            arith,
            ==_refl chat_jid,
            cursor-insert chat_jid chat_jid (last_time m ms) w.mem.last_agent,
          ) in
        (
          λ j.
              ap (λ x. cursor j x.last_agent) (save_state-mem cfg env confirming)
              ∙ (ap (cursor j) agent ∙ cursor-insert chat_jid j (last_time m ms) w.mem.last_agent),
          λ j.
              ap (λ x. cursor j x.last_confirmed) (save_state-mem cfg env confirming)
              ∙ (cursor-insert chat_jid j (cursor chat_jid spawned.1.mem.last_agent)
                    spawned.1.mem.last_confirmed
                  ∙ ap₂ (λ t c. if chat_jid == j then t else cursor j c) here confirmed),
        )

    -- What a start leaves: both cursors of the chat at the last message, or all cursors as before.
    abbrev pub StartOutcome : Result Bool × World → Type 0
    StartOutcome r =
        ((r.0 ≡ ok true) × IsMovedTo chat_jid (last_time m ms) w.mem r.1.mem)
        ⊎ ((r.0 ≢ ok true) × IsUnmoved w.mem r.1.mem)

    pub start_agent_cursors : StartOutcome start_run
    unfolding start_agent confirm
    start_agent_cursors = split spawned.0 refl
      where
        split :
            (r : Result Text)
            → spawned.0 ≡ r
            → StartOutcome (
                (elim r as (λ _. M (Result Bool)) [
                  | err e ↦ pure (err e)
                  | ok name ↦
                      confirm cfg env chat_jid group (cursor chat_jid w.mem.last_agent) session_id
                ])
                  spawned.1)
        split (err e) h = inr (λ p. cc, start_agent_fails e h)
        split (ok name) h = inl (refl, start_agent_succeeds name h)
