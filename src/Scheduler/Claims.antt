-- ===== src/Scheduler/Claims.antt =====
-- What a run of a task leaves in the store (internal/scheduler/scheduler.go).
use kraclaw.Prelude.{
  ℕ, ◌+◌, true, false, Text, List, [], ◌∷◌, Option, none, some, ◌≡◌, ◌≢◌, arith, ◌⊎◌,
}
use kraclaw.Store.{ScheduledTask, TaskError, active, paused, completed}
use kraclaw.Scheduler.NextRun.{next_run, bad_schedule, compute_next_run}
use kraclaw.Scheduler.RunTask.{
  StoreError, is_transient_advance_error, Call, update_task, execute, log_task_run, Surroundings,
  minute, is_once, claim, outcome, run_task,
}

-- The calls of the executor, the newest first.
abbrev pub executed : List Call → List ScheduledTask
executed [] = []
executed (execute t ∷ log) = t ∷ executed log
executed (update_task t ∷ log) = executed log
executed (log_task_run l ∷ log) = executed log

-- The row of the task: the last write that the store took, or the row from before.
abbrev pub stored : (List Call → Option StoreError) → ScheduledTask → List Call → ScheduledTask
stored answer row [] = row
stored answer row (update_task t ∷ log) =
    let before = stored answer row log in
    elim (answer (update_task t ∷ log)) [ none ↦ t | some e ↦ before ]
stored answer row (execute t ∷ log) = stored answer row log
stored answer row (log_task_run l ∷ log) = stored answer row log

module _ (s : Surroundings) (task : ScheduledTask) where
  -- The calls that a run makes.
  abbrev pub trace : List Call
  trace = (run_task s task []).1

  -- The row that a run leaves, if the row is the task before.
  abbrev pub row_after : ScheduledTask
  row_after = stored s.update_error task trace

  -- The executor runs at most once, with the claimed task, and only after the store has taken the
  -- claim.
  pub executes_claimed :
      (executed trace ≡ [])
      ⊎ ((next : Option ℕ) × (compute_next_run s.parsers s.compute_now task ≡ next_run next)
          × (s.update_error (update_task (claim s.start next task) ∷ []) ≡ none)
          × (executed trace ≡ claim s.start next task ∷ []))
  unfolding run_task
  executes_claimed = ground arith

  -- If the store held the task before the run: a one-time task that was handed to the executor is
  -- held as completed, with no next run, behind the run, whatever the executor and the later
  -- writes gave.
  pub once_completed :
      is_once task.schedule_type ≡ true
      → executed trace ≢ []
      → (row_after.status ≡ completed) × (row_after.next_run ≡ none)
  unfolding run_task claim outcome
  once_completed once_task ran = ground arith

  -- Why a run may pause the task: the schedule is bad, or the store refuses the claim for good.
  abbrev pub PauseReason : Type 0
  PauseReason =
      ((e : TaskError) × (compute_next_run s.parsers s.compute_now task ≡ bad_schedule e))
      ⊎ ((next : Option ℕ) × (e : StoreError) × (compute_next_run s.parsers s.compute_now task
            ≡ next_run next)
          × (s.update_error (update_task (claim s.start next task) ∷ []) ≡ some e)
          × (is_transient_advance_error e ≡ false))

  -- If the store held the task before the run: an active recurring task is held as active behind
  -- it, or as paused, since its schedule is bad or the store refused the claim with an error that
  -- is not transient; never as completed.
  pub recurring_kept :
      is_once task.schedule_type ≡ false
      → task.status ≡ active
      → (row_after.status ≡ active) ⊎ ((row_after.status ≡ paused) × PauseReason)
  unfolding run_task claim outcome
  recurring_kept recurring was = ground arith

  -- What the executor answers to the claimed task.
  abbrev pub executor_answer : Option ℕ → Option Text
  executor_answer next =
      let claimed = claim s.start next task in
      s.execute_error (execute claimed ∷ update_task claimed ∷ [])

  -- If the store held the task before and takes every write: an active recurring task with a good
  -- schedule is held as active, run at the start, and due at its next time, or a minute behind the
  -- clock's reading if the executor failed.
  pub recurring_rescheduled :
      (next : Option ℕ)
      → is_once task.schedule_type ≡ false
      → task.status ≡ active
      → compute_next_run s.parsers s.compute_now task ≡ next_run next
      → ((log : List Call) → s.update_error log ≡ none)
      → (row_after.status ≡ active)
        × (row_after.last_run ≡ some s.start)
        × (((executor_answer next ≡ none) × (row_after.next_run ≡ next))
            ⊎ ((e : Text) × (executor_answer next ≡ some e)
                × (row_after.next_run ≡ some (s.retry_base + minute))))
  unfolding run_task claim outcome
  recurring_rescheduled next recurring was scheduled takes = grind (arith, takes)
