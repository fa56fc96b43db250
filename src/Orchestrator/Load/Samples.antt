-- ===== src/Orchestrator/Load/Samples.antt =====
-- The law of a load at what a save of the example's cursors leaves.
use kraclaw.Prelude.{[], ◌==◌, refl, lookup}
use kraclaw.Orchestrator.World.{World}
use kraclaw.Orchestrator.Load.{load_state}
use kraclaw.Orchestrator.Load.Laws.{IsFunctional, IsRestored, load_state_restores}
use kraclaw.Orchestrator.Samples.{config, answers, start}

-- The state of a new process.
abbrev fresh : World
fresh = record start {
  mem = record start.mem { last_timestamp = 0; last_agent = []; last_confirmed = [] };
}

agent-IsFunctional : IsFunctional start.mem.last_agent
unfolding lookup
agent-IsFunctional = (refl, tt)

confirmed-IsFunctional : IsFunctional start.mem.last_confirmed
unfolding lookup
confirmed-IsFunctional = (refl, tt)

load_state_restores_example :
    IsRestored config answers fresh start.mem (load_state config answers fresh).1.mem
unfolding ◌==◌
load_state_restores_example =
    load_state_restores config answers fresh start.mem (λ t. refl) (λ t e. cc) agent-IsFunctional
      confirmed-IsFunctional (λ e. cc) (λ e. cc) refl refl refl refl refl refl refl
