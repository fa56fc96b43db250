-- ===== src/Scheduler/RunTask.antt =====
-- `runTask` and `poll` of internal/scheduler/scheduler.go. The task store and the executor are any
-- functions of the calls made so far.
use kraclaw.Prelude.{
  ℕ, ◌+◌, Bool, true, false, ◌||◌, eqb, Text, codes, List, Option, none, some, if◌then◌else◌,
}
use kraclaw.Prelude.Trace.{Run, pure, ◌>>=◌, ◌>>◌, call}
use kraclaw.Store.{
  ScheduledTask, ScheduleType, once, active, paused, completed, TaskRunStatus, success, error,
  TaskRunLog, ScheduleParsers,
}
use kraclaw.Scheduler.NextRun.{next_run, bad_schedule, compute_next_run}

-- What the chain of a store's error holds.
pub data StoreError : Type 0 where
  bad_conn deadline_exceeded canceled : StoreError
  mysql_error : ℕ → StoreError
  other_error : StoreError

unfoldable pub is_transient_advance_error : StoreError → Bool
is_transient_advance_error bad_conn = true
is_transient_advance_error deadline_exceeded = true
is_transient_advance_error canceled = true
is_transient_advance_error (mysql_error number) = eqb number 1205 || eqb number 1213
is_transient_advance_error other_error = false

pub data Call : Type 0 where
  update_task execute : ScheduledTask → Call
  log_task_run : TaskRunLog → Call

-- The readings of the clock during a run, and what the parties answer to their calls.
pub record Surroundings : Type 0 where
  pub parsers : ScheduleParsers
  pub start : ℕ
  pub compute_now : ℕ
  pub duration_ms : ℕ
  pub retry_base : ℕ
  pub update_error : List Call → Option StoreError
  pub execute_error : List Call → Option Text

-- A minute, in nanoseconds.
abbrev pub minute : ℕ
minute = 60_000_000_000

abbrev pub is_once : ScheduleType → Bool
is_once once = true
is_once _ = false

-- The task as it is written before the executor runs.
unfoldable pub claim : ℕ → Option ℕ → ScheduledTask → ScheduledTask
claim start next task =
    if is_once task.schedule_type
    then record task { last_run = some start; next_run = none; status = completed }
    else record task { last_run = some start; next_run = next }

abbrev pub outcome_text : Option Text → Text
outcome_text none = codes "enqueued"
outcome_text (some e) = e

abbrev pub run_status : Option Text → TaskRunStatus
run_status none = success
run_status (some e) = error

-- The task as it is written after the executor ran.
unfoldable pub outcome : ℕ → Option Text → ScheduledTask → ScheduledTask
outcome retry_at err task =
    let told = record task { last_result = some (outcome_text err) } in
    elim err [
      | none ↦ told
      | some e ↦
          if is_once task.schedule_type
          then told
          else record told { next_run = some retry_at; status = active }
    ]

module _ (s : Surroundings) where
  write : ScheduledTask → Run (List Call) (Option StoreError)
  write task = call (update_task task) s.update_error

  -- The store's answer to the pausing write is only logged.
  pause : ScheduledTask → Run (List Call) (Unit {0})
  unfolding write
  pause task = do r ← write (record task { status = paused }); pure tt

  -- The executor, the run's log and the outcome; the answers of the store are only logged.
  perform : ScheduledTask → Run (List Call) (Unit {0})
  unfolding write
  perform task = do
    err ← call (execute task) s.execute_error
    call
        (log_task_run (record {
          task_id = task.id;
          group_folder = task.group_folder;
          run_at = s.start;
          duration_ms = s.duration_ms;
          status = run_status err;
          result = some (outcome_text err);
          error_text = err;
        }))
        (λ _. tt)
    r ← write (outcome (s.retry_base + minute) err task)
    pure tt

  unfoldable pub run_task : ScheduledTask → Run (List Call) (Unit {0})
  unfolding write pause perform
  run_task task = elim (compute_next_run s.parsers s.compute_now task) [
    | bad_schedule e ↦ pause task
    | next_run next ↦ do
      r ← write (claim s.start next task)
      elim r [
        | none ↦ perform (claim s.start next task)
        | some e ↦ if is_transient_advance_error e then pure tt else pause (claim s.start next task)
      ]
  ]
