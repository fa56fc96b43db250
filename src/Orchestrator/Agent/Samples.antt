-- ===== src/Orchestrator/Agent/Samples.antt =====
-- The laws of an agent's messages at a reply, and at a task that names another group.
use kraclaw.Prelude.{codes, []}
use kraclaw.Orchestrator.World.{IpcMessage, message_text, task_update}
use kraclaw.Orchestrator.Agent.{handle_ipc_message}
use kraclaw.Orchestrator.Agent.Laws.{Scoped, handle_ipc_message-Scoped}
use kraclaw.Orchestrator.Agent.Laws.Confirms.{Confirms, handle_ipc_message-Confirms}
use kraclaw.Orchestrator.Samples.{chat, family, config, answers, start}

abbrev reply : IpcMessage
reply = record {
  group = codes "family";
  agent_id = codes "main";
  kind = message_text;
  payload = codes "hi";
  id = [];
}

-- The payload is decoded to a task of the group "work".
abbrev intrusion : IpcMessage
intrusion = record reply { kind = task_update }

handle_ipc_message-Scoped_example :
    Scoped config answers chat family
      (handle_ipc_message config answers chat family intrusion start).1.log
handle_ipc_message-Scoped_example =
    handle_ipc_message-Scoped config answers chat family intrusion start tt

handle_ipc_message-Confirms_example :
    Confirms config answers chat family reply start.mem
      (handle_ipc_message config answers chat family reply start).1.mem
handle_ipc_message-Confirms_example =
    handle_ipc_message-Confirms config answers chat family reply start
