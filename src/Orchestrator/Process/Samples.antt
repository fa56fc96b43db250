-- ===== src/Orchestrator/Process/Samples.antt =====
-- The law of a batch at a group with a message, and room for an agent.
use kraclaw.Orchestrator.Process.{process_group_messages}
use kraclaw.Orchestrator.Process.Laws.{Processed, process_group_messages_cursors}
use kraclaw.Orchestrator.Samples.{chat, config, answers, start}

process_group_messages_cursors_example :
    Processed config answers chat start.mem (process_group_messages config answers chat start)
process_group_messages_cursors_example = process_group_messages_cursors config answers chat start
