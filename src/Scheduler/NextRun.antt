-- ===== src/Scheduler/NextRun.antt =====
-- `computeNextRun` of internal/scheduler/scheduler.go.
use kraclaw.Prelude.{ℕ, zero, suc, ◌+◌, ◌-◌, Option, none, some, ltb, if◌then◌else◌}
use kraclaw.Store.{
  ScheduledTask, ScheduleType, cron, interval, once, other, ScheduleParsers, TaskError,
  invalid_cron, invalid_interval, invalid_once, unknown_schedule_type,
}

pub data Computed : Type 0 where
  next_run : Option ℕ → Computed
  bad_schedule : TaskError → Computed

-- `for !next.After(now) { next = next.Add(d) }` on fuel; `none` means that the fuel ran out.
unfoldable pub skip_forward : ℕ → ℕ → ℕ → ℕ → Option ℕ
skip_forward zero d now next = none
skip_forward (suc fuel) d now next =
    let rest = skip_forward fuel d now (next + d) in if ltb now next then some next else rest

-- Each round adds at least a nanosecond, so these rounds are enough.
abbrev pub enough_rounds : ℕ → ℕ → ℕ
enough_rounds now next = suc (suc (now - next))

-- `*task.NextRun` if it is set, else `*task.LastRun`.
abbrev pub last_scheduled : Option ℕ → ℕ → ℕ
last_scheduled none last_run = last_run
last_scheduled (some t) last_run = t

interval_next : ℕ → ℕ → Option ℕ → Option ℕ → Option ℕ
interval_next d now none next = some now
interval_next d now (some last_run) next =
    let from = last_scheduled next last_run in skip_forward (enough_rounds now from) d now from

module _ (p : ScheduleParsers) (now : ℕ) where
  compute_by : ScheduleType → ScheduledTask → Computed
  compute_by cron task = elim (p.parse_cron task.schedule_value) [
    | none ↦ bad_schedule invalid_cron
    | some next ↦ next_run (some (next now))
  ]
  compute_by interval task = elim (p.parse_duration task.schedule_value) [
    | none ↦ bad_schedule invalid_interval
    | some zero ↦ bad_schedule invalid_interval
    | some (suc d) ↦ next_run (interval_next (suc d) now task.last_run task.next_run)
  ]
  compute_by once task = elim task.last_run [
    | some t ↦ next_run none
    | none ↦ elim (p.parse_rfc3339 task.schedule_value) [
      | none ↦ bad_schedule invalid_once
      | some t ↦ next_run (some t)
    ]
  ]
  compute_by (other name) task = bad_schedule unknown_schedule_type

  unfoldable pub compute_next_run : ScheduledTask → Computed
  unfolding compute_by interval_next
  compute_next_run task = compute_by task.schedule_type task
