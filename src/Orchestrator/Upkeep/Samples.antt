-- ===== src/Orchestrator/Upkeep/Samples.antt =====
-- The laws of the upkeep at the end of a sandbox, and at a chat that is marked without one.
use kraclaw.Prelude.{codes, ◌≡◌, ◌⊎◌, refl}
use kraclaw.Orchestrator.Upkeep.{
  SandboxEvent, state_failed, handle_sandbox_event, reconcile_active_set, reconcile_ipc_streams,
}
use kraclaw.Orchestrator.Upkeep.Laws.{
  IsIgnored, IsEnded, OnlyUnbacked, OnlyOrphans, handle_sandbox_event_outcome,
  reconcile_active_set-OnlyUnbacked, reconcile_ipc_streams-OnlyOrphans,
}
use kraclaw.Orchestrator.Samples.{config, answers, served, start}

abbrev failure : SandboxEvent
failure = record {
  event_type = codes "updated";
  name = codes "sb-1";
  group = codes "family";
  state = state_failed;
}

handle_sandbox_event_outcome_example :
    IsIgnored served failure start (handle_sandbox_event config served failure start).1
    ⊎ IsEnded served failure start (handle_sandbox_event config served failure start).1
handle_sandbox_event_outcome_example = handle_sandbox_event_outcome served failure start config

reconcile_active_set-OnlyUnbacked_example :
    ((reconcile_active_set config answers start).1.mem ≡ start.mem)
    × OnlyUnbacked config answers start.mem.registered_groups
        (reconcile_active_set config answers start).1.log
reconcile_active_set-OnlyUnbacked_example =
    reconcile_active_set-OnlyUnbacked config answers start.mem.registered_groups start refl tt

reconcile_ipc_streams-OnlyOrphans_example :
    ((reconcile_ipc_streams config answers start).1.mem ≡ start.mem)
    × OnlyOrphans config answers start.mem.inflight
        (reconcile_ipc_streams config answers start).1.log
reconcile_ipc_streams-OnlyOrphans_example =
    reconcile_ipc_streams-OnlyOrphans config answers start.mem.inflight start refl tt
