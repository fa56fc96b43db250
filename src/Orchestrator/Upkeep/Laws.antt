-- ===== src/Orchestrator/Upkeep/Laws.antt =====
-- What the upkeep may touch (internal/orchestrator/orchestrator.go).
use kraclaw.Prelude.{
  true, false, Text, ==_iff, List, [], ◌∷◌, Option, none, some, Map, lookup, lookup_or, remove, ◌≡◌,
  ◌≢◌, refl, ap, ◌∙◌, ◌⊎◌, arith, if_cases,
}
use kraclaw.Store.{Group}
use kraclaw.Orchestrator.World.{
  Call, is_active, mark_inactive, active_jids, has_active_sandbox, stream_exists, delete_streams,
  World, Config, Answers, M,
}
use kraclaw.Orchestrator.Upkeep.{
  SandboxEvent, is_terminal, chat_of, handle_sandbox_event, reconcile_active, reconcile_all,
  on_jids, reconcile_active_set, reconcile_stream, reconcile_streams, reconcile_ipc_streams,
  on_active, unmark, on_liveness, on_busy, on_owned, on_exists,
}

module _ (env : Answers) (e : SandboxEvent) (w : World) where
  -- The chat that an event is about.
  abbrev pub event_chat : Text
  event_chat = chat_of e.group w.mem.registered_groups

  -- An event changes nothing, and asks at most whether the chat is active, which it is not.
  abbrev pub IsIgnored : World → Type 0
  IsIgnored w' =
      (w'.mem ≡ w.mem)
      × ((w'.log ≡ w.log)
          ⊎ ((w'.log ≡ is_active event_chat ∷ w.log) × (env.flag w'.log ≡ some false)))

  -- An event of the end of the chat's own sandbox, or of any where it has none, drops the sandbox,
  -- and takes off the mark.
  abbrev pub IsEnded : World → Type 0
  IsEnded w' =
      (is_terminal e ≡ true)
      × (event_chat ≢ [])
      × ((lookup_or [] event_chat w.mem.active_sandboxes ≡ [])
          ⊎ (e.name ≡ lookup_or [] event_chat w.mem.active_sandboxes))
      × (w'.mem ≡ record w.mem { active_sandboxes = remove event_chat w.mem.active_sandboxes })
      × (w'.log ≡ mark_inactive event_chat ∷ is_active event_chat ∷ w.log)
      × (env.flag (is_active event_chat ∷ w.log) ≢ some false)

  module _ (cfg : Config) where
    -- An event of a sandbox is ignored, without a call or since the chat is not active; or it is
    -- terminal, of a registered group, and not of another sandbox than the chat's, and then the
    -- chat's sandbox is dropped and its mark taken off, and nothing else changes, no cursor either.
    pub handle_sandbox_event_outcome :
        IsIgnored (handle_sandbox_event cfg env e w).1
        ⊎ IsEnded (handle_sandbox_event cfg env e w).1
    unfolding handle_sandbox_event on_active unmark
    handle_sandbox_event_outcome = ground (
      arith,
      ==_iff event_chat [],
      ==_iff (lookup_or [] event_chat w.mem.active_sandboxes) [],
      ==_iff e.name (lookup_or [] event_chat w.mem.active_sandboxes),
    )

module _ (cfg : Config) (env : Answers) (groups : Map Group) where
  -- Why a mark may be taken off: the chat is not registered, there is no controller, or the last
  -- answer was that no sandbox of the group is active.
  abbrev pub IsUnbacked : Text → List Call → Type 0
  IsUnbacked jid log =
      (lookup jid groups ≡ none)
      ⊎ ((cfg.has_controller ≡ false)
          ⊎ ((g : Group) × (before : List Call) × (lookup jid groups ≡ some g)
              × (log ≡ has_active_sandbox g.folder ∷ before)
              × (env.flag log ≡ some false)))

  -- Every mark that was taken off had such a reason.
  abbrev pub OnlyUnbacked : List Call → Type 0
  OnlyUnbacked [] = Unit
  OnlyUnbacked (mark_inactive jid ∷ log) = IsUnbacked jid log × OnlyUnbacked log
  OnlyUnbacked (_ ∷ log) = OnlyUnbacked log

  reconcile_active-OnlyUnbacked :
      (jid : Text) (w : World)
      → w.mem.registered_groups ≡ groups
      → OnlyUnbacked w.log
      → ((reconcile_active cfg env jid w).1.mem ≡ w.mem)
        × OnlyUnbacked (reconcile_active cfg env jid w).1.log
  unfolding reconcile_active on_liveness
  reconcile_active-OnlyUnbacked jid w same h =
      let found = ap (lookup jid) same in (ground arith, ground (arith, found))

  reconcile_all-OnlyUnbacked :
      (jids : List Text) (w : World)
      → w.mem.registered_groups ≡ groups
      → OnlyUnbacked w.log
      → ((reconcile_all cfg env jids w).1.mem ≡ w.mem)
        × OnlyUnbacked (reconcile_all cfg env jids w).1.log
  unfolding reconcile_all
  reconcile_all-OnlyUnbacked [] w same h = (refl, h)
  reconcile_all-OnlyUnbacked (jid ∷ jids) w same h =
      let (kept, h1) = reconcile_active-OnlyUnbacked jid w same h in
      let (kept', h2) =
        reconcile_all-OnlyUnbacked jids (reconcile_active cfg env jid w).1
          (ap (λ m. m.registered_groups) kept ∙ same) h1 in
      (kept' ∙ kept, h2)

  on_jids-OnlyUnbacked :
      (jids : Option (List Text)) (w : World)
      → w.mem.registered_groups ≡ groups
      → OnlyUnbacked w.log
      → ((on_jids cfg env jids w).1.mem ≡ w.mem) × OnlyUnbacked (on_jids cfg env jids w).1.log
  unfolding on_jids
  on_jids-OnlyUnbacked none w same h = (refl, h)
  on_jids-OnlyUnbacked (some jids) w same h = reconcile_all-OnlyUnbacked jids w same h

  -- The reconciliation of the active set changes nothing in memory. If the marks taken off before
  -- had such a reason, all that it takes off have one: the chat is not registered, there is no
  -- controller, or the controller has just answered that no sandbox of the group is active; so an
  -- error of the controller leaves the mark.
  pub reconcile_active_set-OnlyUnbacked :
      (w : World)
      → w.mem.registered_groups ≡ groups
      → OnlyUnbacked w.log
      → ((reconcile_active_set cfg env w).1.mem ≡ w.mem)
        × OnlyUnbacked (reconcile_active_set cfg env w).1.log
  unfolding reconcile_active_set
  reconcile_active_set-OnlyUnbacked w same h =
      on_jids-OnlyUnbacked _ (record w { log = active_jids ∷ w.log }) same h

module _ (cfg : Config) (env : Answers) (slots : Map (Unit {0})) where
  -- Why streams may be deleted: they are of a group without a slot, and the last three answers were
  -- that it is not active, that no sandbox of it is, and that the stream is there.
  abbrev pub IsOrphaned : Text → List Call → Type 0
  IsOrphaned folder log =
      (g : Group) × (before : List Call) × (g.folder ≡ folder)
      × (lookup g.jid slots ≡ none)
      × (log ≡ stream_exists g.folder ∷ has_active_sandbox g.folder ∷ is_active g.jid ∷ before)
      × (env.flag (is_active g.jid ∷ before) ≡ some false)
      × (env.flag (has_active_sandbox g.folder ∷ is_active g.jid ∷ before) ≡ some false)
      × (env.flag log ≡ some true)

  -- All streams that were deleted were orphans.
  abbrev pub OnlyOrphans : List Call → Type 0
  OnlyOrphans [] = Unit
  OnlyOrphans (delete_streams folder ∷ log) = IsOrphaned folder log × OnlyOrphans log
  OnlyOrphans (_ ∷ log) = OnlyOrphans log

  reconcile_stream-OnlyOrphans :
      (g : Group) (w : World)
      → w.mem.inflight ≡ slots
      → OnlyOrphans w.log
      → ((reconcile_stream cfg env g w).1.mem ≡ w.mem)
        × OnlyOrphans (reconcile_stream cfg env g w).1.log
  unfolding reconcile_stream on_busy on_owned on_exists
  reconcile_stream-OnlyOrphans g w same h =
      let free = ap (lookup g.jid) same in (ground arith, ground (arith, free))

  reconcile_streams-OnlyOrphans :
      (groups : Map Group) (w : World)
      → w.mem.inflight ≡ slots
      → OnlyOrphans w.log
      → ((reconcile_streams cfg env groups w).1.mem ≡ w.mem)
        × OnlyOrphans (reconcile_streams cfg env groups w).1.log
  unfolding reconcile_streams
  reconcile_streams-OnlyOrphans [] w same h = (refl, h)
  reconcile_streams-OnlyOrphans ((jid, g) ∷ groups) w same h =
      let (kept, h1) = reconcile_stream-OnlyOrphans g w same h in
      let (kept', h2) =
        reconcile_streams-OnlyOrphans groups (reconcile_stream cfg env g w).1
          (ap (λ m. m.inflight) kept ∙ same) h1 in
      if_cases (λ (c : M (Unit {0})). ((c w).1.mem ≡ w.mem) × OnlyOrphans (c w).1.log)
        (env.cancelled w.log) _ _ (λ _. (refl, h)) (λ _. (kept' ∙ kept, h2))

  -- The reconciliation of the streams changes nothing in memory. If the streams deleted before
  -- were orphans, so are all that it deletes: they are there, and of groups that have no slot, are
  -- not active and have no active sandbox, by the answers given just before; so a failed question
  -- leaves the stream.
  pub reconcile_ipc_streams-OnlyOrphans :
      (w : World)
      → w.mem.inflight ≡ slots
      → OnlyOrphans w.log
      → ((reconcile_ipc_streams cfg env w).1.mem ≡ w.mem)
        × OnlyOrphans (reconcile_ipc_streams cfg env w).1.log
  unfolding reconcile_ipc_streams
  reconcile_ipc_streams-OnlyOrphans w same h =
      reconcile_streams-OnlyOrphans w.mem.registered_groups w same h
