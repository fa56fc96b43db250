-- ===== src/Orchestrator/Tasks/Laws.antt =====
-- A task is in the store and in the queue, or in neither (internal/orchestrator/orchestrator.go).
use kraclaw.Prelude.{true, false, ◌∷◌, ◌≡◌, ◌≢◌, ◌⊎◌, arith}
use kraclaw.Store.{ScheduledTask}
use kraclaw.Orchestrator.World.{
  Call, store_message, enqueue, delete_message, World, Answers, Result, ok,
}
use kraclaw.Orchestrator.Tasks.{task_message, task_entry, execute_scheduled_task}

module _ (env : Answers) (w : World) (task : ScheduledTask) where
  abbrev run : Result (Unit {0}) × World
  run = execute_scheduled_task env task w

  -- The message of this run, its entry in the queue, and what takes the message back.
  abbrev pub put_message : Call
  put_message = store_message (task_message (env.fresh_id w.log) (env.now w.log) task)

  abbrev pub put_entry : Call
  put_entry = enqueue task.chat_jid (task_entry (env.now w.log) task)

  abbrev pub take_back : Call
  take_back = delete_message (env.fresh_id w.log) task.chat_jid

  -- The calls of a run, the newest first, and their answers, in the three ways that it can end.
  abbrev pub TaskOutcome : Result (Unit {0}) × World → Type 0
  TaskOutcome r =
      ((r.0 ≡ ok tt)
        × (r.1.log ≡ put_entry ∷ put_message ∷ w.log)
        × (env.done (put_message ∷ w.log) ≡ true)
        × (env.done r.1.log ≡ true))
      ⊎ (((r.0 ≢ ok tt) × (r.1.log ≡ put_message ∷ w.log) × (env.done r.1.log ≡ false))
          ⊎ ((r.0 ≢ ok tt)
              × (r.1.log ≡ take_back ∷ put_entry ∷ put_message ∷ w.log)
              × (env.done (put_entry ∷ put_message ∷ w.log) ≡ false)))

  -- A task succeeds only with its message stored and its entry queued. Otherwise the store refused
  -- the message and nothing follows, or the queue refused the entry and a call to delete that same
  -- message follows. Nothing in memory changes.
  pub execute_scheduled_task-TaskOutcome : TaskOutcome run × (run.1.mem ≡ w.mem)
  unfolding execute_scheduled_task
  execute_scheduled_task-TaskOutcome = ground arith
