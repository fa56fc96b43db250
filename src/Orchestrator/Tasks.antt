-- ===== src/Orchestrator/Tasks.antt =====
-- `executeScheduledTask` of internal/orchestrator/orchestrator.go.
pub mod Laws
use kraclaw.Prelude.{
  ℕ, Bool, true, false, Text, codes, List, ◌∷◌, Option, none, some, if◌then◌else◌,
}
use kraclaw.Prelude.Trace.{pure, ◌>>=◌, ◌>>◌}
use kraclaw.Store.{Message, ScheduledTask}
use kraclaw.Orchestrator.World.{
  Call, store_message, enqueue, delete_message, QueueMessage, Config, Answers, M, ask, peek, Result,
  ok, err,
}

-- The message and the queue entry of a task.
abbrev pub task_message : Text → ℕ → ScheduledTask → Message
task_message id now task = record {
  id = id;
  chat_jid = task.chat_jid;
  sender = codes "scheduler";
  sender_name = codes "Scheduled Task";
  content = task.prompt;
  timestamp = now;
  is_from_me = false;
  is_bot_message = false;
}

abbrev pub task_entry : ℕ → ScheduledTask → QueueMessage
task_entry now task = record {
  group_jid = task.chat_jid;
  content = task.prompt;
  sender = codes "";
  timestamp = now;
  is_task = true;
  task_id = task.id;
}

module _ (env : Answers) where
  unfoldable pub execute_scheduled_task : ScheduledTask → M (Result (Unit {0}))
  execute_scheduled_task task = do
    now ← peek env.now
    id ← peek env.fresh_id
    stored ← ask (store_message (task_message id now task)) env.done
    if stored
        then (do
          queued ← ask (enqueue task.chat_jid (task_entry now task)) env.done
          if queued then pure (ok tt) else (do
            deleted ← ask (delete_message id task.chat_jid) env.done
            if deleted
                then pure (err (codes "execute scheduled task"))
                else pure (err (codes "enqueue; compensating delete also failed"))))
        else pure (err (codes "store message"))
