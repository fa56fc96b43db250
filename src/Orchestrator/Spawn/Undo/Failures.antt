-- ===== src/Orchestrator/Spawn/Undo/Failures.antt =====
-- What is left when `spawnAgent` fails, on every branch (internal/orchestrator/orchestrator.go).
use kraclaw.Prelude.{
  ℕ, Bool, false, Text, codes, List, [], ◌∷◌, none, some, insert, ◌≡◌, refl, sym, subst, ap, ◌∙◌,
  ◌⊎◌, inl, inr, arith, take, Option-cases, if_cases, option_cases,
}
use kraclaw.Store.{Group}
use kraclaw.Orchestrator.World.{
  Call, World, Config, Answers, M, Result, err, create_sandbox, stop_sandbox, mark_active,
  mark_inactive, delete_streams,
}
use kraclaw.Orchestrator.Spawn.Undo.{
  undo, undo_all, launched, IsUndone, remove-insert-IsDropped, abort-mem,
  ensure_stream_with_retry-mem, activate-IsUndone,
}
use kraclaw.Orchestrator.Spawn.{
  Cleanup, rollback_cursor, release_streams, ensure_stream_with_retry, clean, abort_on_error, abort,
  before_sandbox, activate, launch, fast_launch, spawn_agent, sandbox_config,
}

module _ (cfg : Config) (env : Answers) (chat_jid : Text) (group : Group) (previous : ℕ) where
  -- Where a launch stands when the controller has been asked, and when it has its sandbox.
  abbrev pub asked : Text → Text → World → World
  asked session_id formatted w = record w {
    mem = record w.mem { spawn_start = insert chat_jid (env.now w.log) w.mem.spawn_start };
    log = create_sandbox (sandbox_config cfg chat_jid group session_id formatted) ∷ w.log;
  }

  abbrev pub provided : Text → Text → Text → World → World
  provided name session_id formatted w =
      let a = asked session_id formatted w in
      record a {
        mem = record a.mem { active_sandboxes = insert chat_jid name a.mem.active_sandboxes };
      }

  module _ (session_id formatted payload : Text) (w : World) where
    abbrev pub launch_run : Result Text × World
    launch_run = launch cfg env chat_jid group previous session_id formatted payload w

    pub launch_refused :
        env.sandbox_name (asked session_id formatted w).log ≡ none
        → launch_run
          ≡ abort cfg env chat_jid group previous false before_sandbox
              (codes "create sandbox")
              (asked session_id formatted w)
    unfolding launch
    launch_refused e = rw (e, launch)

    pub launch_created :
        (name : Text)
        → env.sandbox_name (asked session_id formatted w).log ≡ some name
        → launch_run
          ≡ activate cfg env chat_jid group previous payload name
              (provided name session_id formatted w)
    unfolding launch
    launch_created name e = rw (e, launch)

    launch-IsUndone :
        (reason : Text)
        → launch_run.0 ≡ err reason
        → IsUndone cfg env chat_jid group previous w.mem launch_run.1.mem
    launch-IsUndone reason h =
        elim (Option-cases (env.sandbox_name (asked session_id formatted w).log)) [
          | inl refused ↦
              subst (IsUndone cfg env chat_jid group previous w.mem)
                (sym (
                  ap (λ r. r.1.mem) (launch_refused refused)
                  ∙ abort-mem cfg env chat_jid group previous false before_sandbox _ _))
                (unfold undo_all undo in
                  (
                    refl,
                    refl,
                    refl,
                    refl,
                    refl,
                    remove-insert-IsDropped chat_jid (env.now w.log) w.mem.spawn_start,
                    inl refl,
                  ))
          | inr (name, created) ↦ rw (launch_created name created) (
              activate-IsUndone cfg env chat_jid group previous (env.now w.log) payload name reason
                w.mem _ (unfold launched in refl) (rw (launch_created name created) at h))
        ]

  module _ (session_id formatted : Text) (w : World) where
    abbrev pub spawn_run : Result Text × World
    spawn_run = spawn_agent cfg env chat_jid group previous session_id formatted w

    aborted_early :
        (staged : List Cleanup) (why : Text) (w' : World)
        → (undo_all cfg env chat_jid group previous staged w.mem
            ≡ record w.mem { last_agent = insert chat_jid previous w.mem.last_agent })
        → w'.mem ≡ w.mem
        → IsUndone cfg env chat_jid group previous w.mem
            (abort cfg env chat_jid group previous false staged why w').1.mem
    aborted_early staged why w' step same =
        subst (IsUndone cfg env chat_jid group previous w.mem)
          (sym (
            abort-mem cfg env chat_jid group previous false staged why w'
            ∙ (ap (undo_all cfg env chat_jid group previous staged) same ∙ step)))
          (refl, refl, refl, refl, refl, inl refl, inl refl)

    -- A computation that leaves nothing behind if it fails, from a world with the same memory.
    abbrev FailsClean : Text → World → M (Result Text) → Type 0
    FailsClean reason w' m =
        (m w').0 ≡ err reason → IsUndone cfg env chat_jid group previous w.mem (m w').1.mem

    fast_launch-IsUndone :
        (payload reason : Text)
        → FailsClean reason w
            (fast_launch cfg env chat_jid group previous session_id formatted payload)
    unfolding fast_launch
    fast_launch-IsUndone payload reason =
        if_cases (FailsClean reason ensured.1) ensured.0
          (launch cfg env chat_jid group previous session_id formatted payload)
          (abort cfg env chat_jid group previous false (rollback_cursor ∷ release_streams ∷ [])
            (codes "ensure stream for agent"))
          (λ _ h.
            subst
              (λ m.
                IsUndone cfg env chat_jid group previous m
                  (launch cfg env chat_jid group previous session_id formatted payload
                    ensured.1).1.mem)
              same (launch-IsUndone session_id formatted payload ensured.1 reason h))
          (λ _ h.
            aborted_early (rollback_cursor ∷ release_streams ∷ []) _ ensured.1
              (unfold undo_all undo in refl) same)
      where
        ensured : Bool × World
        ensured = ensure_stream_with_retry cfg env 3 false group.folder w

        same : ensured.1.mem ≡ w.mem
        same = ensure_stream_with_retry-mem cfg env 3 false group.folder w

    -- A spawn that returns an error, on whichever branch, leaves the agent cursor of its chat at
    -- the time given for the rollback and all other cursors, the poll's time, the sessions and the
    -- groups as they were; the maps of sandboxes and of starts are as they were, or have lost the
    -- chat's entry and nothing else.
    pub spawn_agent-IsUndone :
        (reason : Text)
        → spawn_run.0 ≡ err reason
        → IsUndone cfg env chat_jid group previous w.mem spawn_run.1.mem
    unfolding spawn_agent
    spawn_agent-IsUndone reason =
        option_cases (FailsClean reason w) (cfg.marshal_messages formatted) _ _
          (λ _ h. early (codes "marshal initial input"))
          λ payload _.
            if_cases (FailsClean reason w) cfg.has_controller _ _
              (λ _.
                if_cases (FailsClean reason w) cfg.fast_start _ _
                  (λ _. fast_launch-IsUndone payload reason)
                  (λ _ h. launch-IsUndone session_id formatted payload w reason h))
              (λ _ h. early (codes "create sandbox"))
      where
        early :
            (why : Text)
            → IsUndone cfg env chat_jid group previous w.mem
                (abort cfg env chat_jid group previous false (rollback_cursor ∷ []) why w).1.mem
        early why = aborted_early (rollback_cursor ∷ []) why w (unfold undo_all undo in refl) refl

    -- The newest calls behind a failure: the chat's mark is taken back if it was set, the streams
    -- are deleted and the sandbox is stopped.
    abbrev pub IsReleased : Text → List Call → List Call → Type 0
    IsReleased name before log =
        (take 3 log ≡ mark_inactive chat_jid ∷ delete_streams group.folder ∷ stop_sandbox name ∷ [])
        ⊎ ((env.done (mark_active chat_jid ∷ before) ≡ false)
            × (take 2 log ≡ delete_streams group.folder ∷ stop_sandbox name ∷ []))

    activate_releases :
        (payload name reason : Text) (w' : World)
        → (activate cfg env chat_jid group previous payload name w').0 ≡ err reason
        → IsReleased name w'.log (activate cfg env chat_jid group previous payload name w').1.log
    unfolding activate abort abort_on_error clean
    activate_releases payload name reason w' h = ground arith

    -- A launch that fails behind the creation of its sandbox ends with the calls that stop that
    -- sandbox and delete the group's streams, and with one that takes back the mark of the chat
    -- unless the store refused to set it.
    pub launch_releases :
        (payload name reason : Text)
        → env.sandbox_name (asked session_id formatted w).log ≡ some name
        → (launch cfg env chat_jid group previous session_id formatted payload w).0 ≡ err reason
        → IsReleased name
            (asked session_id formatted w).log
            (launch cfg env chat_jid group previous session_id formatted payload w).1.log
    launch_releases payload name reason created h =
        rw (launch_created session_id formatted payload w name created) (
          activate_releases payload name reason (provided name session_id formatted w)
            (rw (launch_created session_id formatted payload w name created) at h))
