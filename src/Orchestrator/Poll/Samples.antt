-- ===== src/Orchestrator/Poll/Samples.antt =====
-- The law of a poll at a chat with a new message.
use kraclaw.Prelude.{Text, ◌≡◌, ◌⊎◌}
use kraclaw.Orchestrator.World.{cursor}
use kraclaw.Orchestrator.Poll.{poll_messages}
use kraclaw.Orchestrator.Poll.Dispatch.{WasPiped}
use kraclaw.Orchestrator.Poll.Laws.{refreshed, poll_messages_cursors}
use kraclaw.Orchestrator.Samples.{config, served, start}

poll_messages_cursors_example :
    ((poll_messages config served start).1.mem.last_confirmed ≡ start.mem.last_confirmed)
    × ((j : Text)
        → (cursor j (poll_messages config served start).1.mem.last_agent
            ≡ cursor j start.mem.last_agent)
          ⊎ WasPiped config served
              (refreshed config served start).mem.registered_groups
              j
              (cursor j (poll_messages config served start).1.mem.last_agent))
poll_messages_cursors_example = poll_messages_cursors config served start
