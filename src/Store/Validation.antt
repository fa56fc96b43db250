-- ===== src/Store/Validation.antt =====
-- `Group.Validate` and `ScheduledTask.Validate` of internal/store/store.go.
use kraclaw.Prelude.{ℕ, zero, suc, ◌&&◌, Text, [], ◌==◌, Option, none, some, if◌then◌else◌}
use kraclaw.Store.Rows.{Group, ScheduleType, cron, interval, once, other, ScheduledTask}

pub data GroupError : Type 0 where
  jid_required folder_required trigger_required : GroupError

unfoldable pub validate_group : Group → Option GroupError
validate_group g =
    if g.jid == []
    then some jid_required
    else if g.folder == []
    then some folder_required
    else if g.requires_trigger && g.trigger_pattern == []
    then some trigger_required
    else none

-- The parsers that the schedules go through: the cron library, and the package `time`.
pub record ScheduleParsers : Type 0 where
  -- `CronParser.Parse` and the schedule's `Next`.
  pub parse_cron : Text → Option (ℕ → ℕ)
  -- `time.ParseDuration`, `some 0` for any duration that is not positive.
  pub parse_duration : Text → Option ℕ
  -- `time.Parse(time.RFC3339, …)`.
  pub parse_rfc3339 : Text → Option ℕ

pub data TaskError : Type 0 where
  id_required invalid_cron invalid_interval invalid_once unknown_schedule_type : TaskError

module _ (p : ScheduleParsers) where
  validate_schedule : ScheduleType → Text → Option TaskError
  validate_schedule cron value = elim (p.parse_cron value) [
    | none ↦ some invalid_cron
    | some next ↦ none
  ]
  validate_schedule interval value = elim (p.parse_duration value) [
    | none ↦ some invalid_interval
    | some zero ↦ some invalid_interval
    | some (suc d) ↦ none
  ]
  validate_schedule once value = elim (p.parse_rfc3339 value) [
    | none ↦ some invalid_once
    | some t ↦ none
  ]
  validate_schedule (other name) value = some unknown_schedule_type

  unfoldable pub validate_task : ScheduledTask → Option TaskError
  unfolding validate_schedule
  validate_task t =
      if t.id == [] then some id_required else validate_schedule t.schedule_type t.schedule_value
