-- ===== src/Orchestrator/Cursors/Samples.antt =====
-- The laws of the saves at a world whose cursors the store does not have yet.
use kraclaw.Prelude.{◌≡◌, refl}
use kraclaw.Orchestrator.World.{ok}
use kraclaw.Orchestrator.Cursors.{save_state}
use kraclaw.Orchestrator.Cursors.Laws.{kept, current, save_state_persists}
use kraclaw.Orchestrator.Samples.{config, answers, start}

synced : kept answers start.saved start.log ≡ start.saved
unfolding kept
synced = refl

save_state_persists_example :
    ((save_state config answers start).1.mem ≡ start.mem)
    × (kept answers start.saved (save_state config answers start).1.log
        ≡ (save_state config answers start).1.saved)
    × ((save_state config answers start).0 ≡ ok tt
        → kept answers start.saved (save_state config answers start).1.log
          ≡ current config answers start)
save_state_persists_example = save_state_persists config answers start start.saved synced
