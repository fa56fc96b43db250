-- ===== src/Store/Rows.antt =====
-- The structs of internal/store/store.go. A `time.Time` is the nanoseconds since its zero value, a
-- nil pointer is `none`, and an int that the source keeps positive is a natural number.
use kraclaw.Prelude.{ℕ, Bool, Text, Option, List}

pub record AdditionalMount : Type 0 where
  pub host_path : Text
  pub container_path : Text
  pub read_only : Bool

pub record ContainerConfig : Type 0 where
  pub additional_mounts : List AdditionalMount
  pub timeout : ℕ  -- milliseconds
  pub model : Text
  pub provider : Text

pub record Group : Type 0 where
  pub jid : Text
  pub name : Text
  pub folder : Text
  pub trigger_pattern : Text
  pub added_at : ℕ
  pub container_config : Option ContainerConfig
  pub requires_trigger : Bool
  pub is_main : Bool

pub record Message : Type 0 where
  pub id : Text
  pub chat_jid : Text
  pub sender : Text
  pub sender_name : Text
  pub content : Text
  pub timestamp : ℕ
  pub is_from_me : Bool
  pub is_bot_message : Bool

pub record Chat : Type 0 where
  pub jid : Text
  pub name : Text
  pub channel : Text
  pub is_group : Bool
  pub last_message_time : ℕ

-- The Go types are strings; `other` is any string that is not one of the constants.
pub data ScheduleType : Type 0 where
  cron interval once : ScheduleType
  other : Text → ScheduleType

pub data TaskStatus : Type 0 where
  active paused completed : TaskStatus

pub record ScheduledTask : Type 0 where
  pub id : Text
  pub group_folder : Text
  pub chat_jid : Text
  pub prompt : Text
  pub schedule_type : ScheduleType
  pub schedule_value : Text
  pub context_mode : Text
  pub next_run : Option ℕ
  pub last_run : Option ℕ
  pub last_result : Option Text
  pub status : TaskStatus
  pub created_at : ℕ

pub data TaskRunStatus : Type 0 where
  success error : TaskRunStatus

pub record TaskRunLog : Type 0 where
  pub task_id : Text
  pub group_folder : Text
  pub run_at : ℕ
  pub duration_ms : ℕ
  pub status : TaskRunStatus
  pub result : Option Text
  pub error_text : Option Text

pub data AllowlistMode : Type 0 where
  trigger drop : AllowlistMode

pub record SenderAllowlistEntry : Type 0 where
  pub id : ℕ
  pub chat_jid : Text
  pub allow_pattern : Text
  pub mode : AllowlistMode
