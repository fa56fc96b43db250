-- ===== src/Orchestrator/Spawn/Undo/Success.antt =====
-- What a spawn that succeeds leaves (internal/orchestrator/orchestrator.go).
use kraclaw.Prelude.{
  ℕ, Bool, false, Text, codes, List, [], ◌∷◌, some, insert, remove, ◌≡◌, subst, inl, inr, arith,
  ◌≢◌, take, Option-cases, if_cases, option_cases,
}
use kraclaw.Store.{Group}
use kraclaw.Orchestrator.World.{Memory, World, Config, Answers, M, Result, ok, send_input}
use kraclaw.Orchestrator.Spawn.Undo.Failures.{asked, launch_refused, launch_created}
use kraclaw.Orchestrator.Spawn.Undo.{ensure_stream_with_retry-mem}
use kraclaw.Orchestrator.Spawn.{
  Cleanup, rollback_cursor, release_streams, ensure_stream_with_retry, abort, before_sandbox,
  activate, launch, fast_launch, spawn_agent, to_agent,
}

module _ (cfg : Config) (env : Answers) (chat_jid : Text) (group : Group) (previous : ℕ) where
  abort-ne-ok :
      (created : Bool) (staged : List Cleanup) (why n : Text) (w : World)
      → (abort cfg env chat_jid group previous created staged why w).0 ≢ ok n
  unfolding abort
  abort-ne-ok created staged why n w = cc

  activate_succeeds :
      (payload name n : Text) (w' : World)
      → (activate cfg env chat_jid group previous payload name w').0 ≡ ok n
      → let r = activate cfg env chat_jid group previous payload name w' in
        (n ≡ name)
        × (r.1.mem ≡ record w'.mem { inflight = remove chat_jid w'.mem.inflight })
        × (take 1 r.1.log ≡ send_input group.folder (to_agent group.folder payload) ∷ [])
  unfolding activate abort
  activate_succeeds payload name n w' h = ground arith

  -- What a spawn of the sandbox `n` with an input leaves: no cursor has moved, the sandbox is
  -- tracked, the slot of the chat is free again, and the last call has sent the input.
  abbrev pub IsSpawned : Text → Text → Memory → World → Type 0
  IsSpawned n payload m w' =
      (w'.mem.last_agent ≡ m.last_agent)
      × (w'.mem.last_confirmed ≡ m.last_confirmed)
      × (w'.mem.active_sandboxes ≡ insert chat_jid n m.active_sandboxes)
      × (w'.mem.inflight ≡ remove chat_jid m.inflight)
      × (take 1 w'.log ≡ send_input group.folder (to_agent group.folder payload) ∷ [])

  module _ (session_id formatted payload n : Text) where
    -- A computation that, if it succeeds, has spawned; from a world with the same memory.
    abbrev Spawns : Memory → World → M (Result Text) → Type 0
    Spawns m w' c = (c w').0 ≡ ok n → IsSpawned n payload m (c w').1

    launch-Spawns :
        (w : World)
        → Spawns w.mem w (launch cfg env chat_jid group previous session_id formatted payload)
    launch-Spawns w h =
        elim (Option-cases
          (env.sandbox_name (asked cfg env chat_jid group previous session_id formatted w).log)) [
            | inl refused ↦ absurd (
                abort-ne-ok false before_sandbox (codes "create sandbox") n _ (
                  rw
                    (launch_refused cfg env chat_jid group previous session_id formatted payload w
                      refused)
                    at h))
            | inr (name, created) ↦
                let e =
                  launch_created cfg env chat_jid group previous session_id formatted payload w name
                    created in
                let done = activate_succeeds payload name n _ (rw e at h) in
                rw e (ground (arith, done))
          ]

    fast_launch-Spawns :
        (w : World)
        → Spawns w.mem w (fast_launch cfg env chat_jid group previous session_id formatted payload)
    unfolding fast_launch
    fast_launch-Spawns w =
        if_cases (Spawns w.mem ensured.1) ensured.0
          (launch cfg env chat_jid group previous session_id formatted payload)
          (abort cfg env chat_jid group previous false (rollback_cursor ∷ release_streams ∷ [])
            (codes "ensure stream for agent"))
          (λ _.
            subst
              (λ m.
                Spawns m ensured.1
                  (launch cfg env chat_jid group previous session_id formatted payload))
              same (launch-Spawns ensured.1))
          (λ _ h. absurd (abort-ne-ok false (rollback_cursor ∷ release_streams ∷ []) _ n _ h))
      where
        ensured : Bool × World
        ensured = ensure_stream_with_retry cfg env 3 false group.folder w

        same : ensured.1.mem ≡ w.mem
        same = ensure_stream_with_retry-mem cfg env 3 false group.folder w

  -- A spawn that succeeds with a sandbox moves no cursor, tracks that sandbox, gives the slot of
  -- the chat back, and has sent the marshalled input to the agent as its last call.
  pub spawn_agent_succeeds :
      (session_id formatted n : Text) (w : World)
      → (spawn_agent cfg env chat_jid group previous session_id formatted w).0 ≡ ok n
      → let w' = (spawn_agent cfg env chat_jid group previous session_id formatted w).1 in
        (payload : Text) × (cfg.marshal_messages formatted ≡ some payload)
        × IsSpawned n payload w.mem w'
  unfolding spawn_agent
  spawn_agent_succeeds session_id formatted n w =
      option_cases Sent (cfg.marshal_messages formatted) _ _
        (λ _ h. absurd (abort-ne-ok _ _ _ n w h))
        λ payload marshalled.
          if_cases Sent cfg.has_controller _ _
            (λ _.
              if_cases Sent cfg.fast_start _ _
                (λ _ h.
                  (payload, marshalled, fast_launch-Spawns session_id formatted payload n w h))
                (λ _ h. (payload, marshalled, launch-Spawns session_id formatted payload n w h)))
            (λ _ h. absurd (abort-ne-ok _ _ _ n w h))
    where
      Sent : M (Result Text) → Type 0
      Sent c =
          (c w).0 ≡ ok n
          → (payload : Text) × (cfg.marshal_messages formatted ≡ some payload)
            × IsSpawned n payload w.mem (c w).1
