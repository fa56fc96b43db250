-- ===== src/Orchestrator/Spawn/Undo.antt =====
-- What is left when `spawnAgent` fails (internal/orchestrator/orchestrator.go).
pub mod Failures
pub mod Success
use kraclaw.Prelude.{
  ℕ, zero, suc, Bool, true, false, Text, ◌==◌, ==_refl, codes, List, [], ◌∷◌, ◌++◌, Option, none,
  some, Map, lookup, insert, remove, lookup-remove, lookup-insert, if◌then◌else◌, ◌≡◌, refl, sym,
  subst, ap, ◌∙◌, ◌⊎◌, inl, inr, arith, ◌≢◌, Elem, Option-cases,
}
use kraclaw.Store.{Group}
use kraclaw.Orchestrator.World.{
  Call, Memory, World, Config, Answers, M, ensure_stream, Result, ok, err, create_sandbox,
  stop_sandbox, mark_active, mark_inactive, delete_streams, active_count, subscribe_output,
  send_input, go_watch,
}
use kraclaw.Orchestrator.Cursors.{save_state}
use kraclaw.Orchestrator.Cursors.Laws.{save_state-mem}
use kraclaw.Orchestrator.Spawn.{
  Cleanup, rollback_cursor, release_streams, clear_spawn_start, stop, drop_streams, deactivate,
  release_orphaned_streams, attempt_stream, ensure_stream_with_retry, clean, abort_on_error, abort,
  before_sandbox, with_sandbox, with_mark, activate, launch, spawn_agent, to_agent, sandbox_config,
}

-- A map is as it was, or has lost the entry of a chat and nothing else.
abbrev pub IsDropped : {V : Type 0} → Text → Map V → Map V → Type 0
IsDropped chat_jid old new =
    (new ≡ old) ⊎ ((j : Text) → lookup j new ≡ (if chat_jid == j then none else lookup j old))

remove-insert-IsDropped :
    {V : Type 0} (chat_jid : Text) (v : V) (m : Map V)
    → IsDropped chat_jid m (remove chat_jid (insert chat_jid v m))
remove-insert-IsDropped chat_jid v m = inr λ j.
    ground (arith, lookup-remove chat_jid j (insert chat_jid v m), lookup-insert chat_jid j v m)

module _ (cfg : Config) (env : Answers) where
  release_orphaned_streams-mem :
      (folder : Text) (w : World) → (release_orphaned_streams cfg env folder w).1.mem ≡ w.mem
  unfolding release_orphaned_streams
  release_orphaned_streams-mem folder w = ground arith

  attempt_stream-mem :
      (folder : Text) (rest : M Bool)
      → ((w : World) → (rest w).1.mem ≡ w.mem)
      → (w : World) → (attempt_stream cfg env folder rest w).1.mem ≡ w.mem
  unfolding attempt_stream
  attempt_stream-mem folder rest h w =
      ground (arith, h (record w { log = ensure_stream folder ∷ w.log }))

  ensure_stream_with_retry-mem :
      (n : ℕ) (again : Bool) (folder : Text) (w : World)
      → (ensure_stream_with_retry cfg env n again folder w).1.mem ≡ w.mem
  unfolding ensure_stream_with_retry
  ensure_stream_with_retry-mem zero again folder w = refl
  ensure_stream_with_retry-mem (suc n) true folder w =
      let h =
        attempt_stream-mem folder (ensure_stream_with_retry cfg env n true folder)
          (ensure_stream_with_retry-mem n true folder) w in
      ground (arith, h)
  ensure_stream_with_retry-mem (suc n) false folder w =
      attempt_stream-mem folder _ (ensure_stream_with_retry-mem n true folder) w

  module _ (chat_jid : Text) (group : Group) (previous : ℕ) where
    -- What a closure does to the state in memory.
    undo : Cleanup → Memory → Memory
    undo rollback_cursor m = record m { last_agent = insert chat_jid previous m.last_agent }
    undo clear_spawn_start m = record m { spawn_start = remove chat_jid m.spawn_start }
    undo (stop name) m = record m { active_sandboxes = remove chat_jid m.active_sandboxes }
    undo _ m = m

    undo_all : List Cleanup → Memory → Memory
    unfolding undo
    undo_all [] m = m
    undo_all (c ∷ cs) m = undo_all cs (undo c m)

    clean-mem :
        (created : Bool) (c : Cleanup) (w : World)
        → (clean cfg env chat_jid group previous created c w).1.mem ≡ undo c w.mem
    unfolding clean undo
    clean-mem created rollback_cursor w = save_state-mem cfg env _
    clean-mem true release_streams w = refl
    clean-mem false release_streams w = release_orphaned_streams-mem group.folder w
    clean-mem created clear_spawn_start w = refl
    clean-mem created (stop name) w = refl
    clean-mem created drop_streams w = refl
    clean-mem created deactivate w = refl

    abort_on_error-mem :
        (created : Bool) (cs : List Cleanup) (w : World)
        → (abort_on_error cfg env chat_jid group previous created cs w).1.mem ≡ undo_all cs w.mem
    unfolding abort_on_error undo_all
    abort_on_error-mem created [] w = refl
    abort_on_error-mem created (c ∷ cs) w =
        abort_on_error-mem created cs (clean cfg env chat_jid group previous created c w).1
        ∙ ap (undo_all cs) (clean-mem created c w)

    abort-mem :
        (created : Bool) (cs : List Cleanup) (reason : Text) (w : World)
        → (abort cfg env chat_jid group previous created cs reason w).1.mem ≡ undo_all cs w.mem
    unfolding abort
    abort-mem created cs reason w = abort_on_error-mem created cs w

    -- What a failed spawn leaves: the cursor is put back, nothing else of what is remembered of the
    -- conversation has changed, and the traces of the spawn are gone.
    abbrev pub IsUndone : Memory → Memory → Type 0
    IsUndone m m' =
        (m'.last_agent ≡ insert chat_jid previous m.last_agent)
        × (m'.last_confirmed ≡ m.last_confirmed)
        × (m'.last_timestamp ≡ m.last_timestamp)
        × (m'.sessions ≡ m.sessions)
        × (m'.registered_groups ≡ m.registered_groups)
        × IsDropped chat_jid m.spawn_start m'.spawn_start
        × IsDropped chat_jid m.active_sandboxes m'.active_sandboxes

    activate_undone :
        (payload name reason : Text) (w : World)
        → (activate cfg env chat_jid group previous payload name w).0 ≡ err reason
        → ((activate cfg env chat_jid group previous payload name w).1.mem
            ≡ undo_all (with_sandbox name) w.mem)
          ⊎ ((activate cfg env chat_jid group previous payload name w).1.mem
              ≡ undo_all
                  (with_sandbox name)
                  (record w.mem { inflight = remove chat_jid w.mem.inflight }))
    unfolding activate undo_all undo
    activate_undone payload name reason w h =
        let marked : World = record w { log = mark_active chat_jid ∷ w.log } in
        let subscribed : World = record w {
          mem = record w.mem { inflight = remove chat_jid w.mem.inflight };
          log = subscribe_output group.folder ∷ active_count ∷ mark_active chat_jid ∷ w.log;
        } in
        let sent : World = record subscribed {
          log =
              send_input group.folder (to_agent group.folder payload)
              ∷ go_watch chat_jid
              ∷ subscribed.log;
        } in
        ground (
          arith,
          abort-mem true (with_sandbox name) (codes "mark active") marked,
          abort-mem true (with_mark name) (codes "subscribe output") subscribed,
          abort-mem true (with_mark name) (codes "send initial input") sent,
        )

    -- The memory in which the calls of a launch that has its sandbox end.
    launched : ℕ → Text → Memory → Memory
    launched start name m = record m {
      spawn_start = insert chat_jid start m.spawn_start;
      active_sandboxes = insert chat_jid name m.active_sandboxes;
    }

    launched-IsUndone :
        (start : ℕ) (name : Text) (m : Memory)
        → IsUndone m (undo_all (with_sandbox name) (launched start name m))
    unfolding undo_all undo launched
    launched-IsUndone start name m = (
      refl,
      refl,
      refl,
      refl,
      refl,
      remove-insert-IsDropped chat_jid start m.spawn_start,
      remove-insert-IsDropped chat_jid name m.active_sandboxes,
    )

    activate-IsUndone :
        (start : ℕ) (payload name reason : Text) (m : Memory) (w : World)
        → w.mem ≡ launched start name m
        → (activate cfg env chat_jid group previous payload name w).0 ≡ err reason
        → IsUndone m (activate cfg env chat_jid group previous payload name w).1.mem
    activate-IsUndone start payload name reason m w e h =
        elim (activate_undone payload name reason w h) [
          | inl kept ↦
              subst (IsUndone m) (sym (kept ∙ ap (undo_all (with_sandbox name)) e))
                (launched-IsUndone start name m)
          | inr released ↦
              subst (IsUndone m)
                (sym (
                  released
                  ∙ ap
                      (λ m'.
                        undo_all (with_sandbox name)
                          (record m' { inflight = remove chat_jid m'.inflight }))
                      e))
                (unfold undo_all undo launched in launched-IsUndone start name m)
        ]
