-- ===== src/Orchestrator/World.antt =====
-- The state of the orchestrator (the struct `Orchestrator` of internal/orchestrator/orchestrator.go)
-- and the calls that it makes of the other components: the store, the queue, the IPC broker, the
-- sandbox controller and the channels. What they answer is any function of the calls made so far.
use kraclaw.Prelude.{ℕ, Bool, Text, List, ◌∷◌, Option, none, some, Map, lookup}
use kraclaw.Prelude.Trace.{Run}
use kraclaw.Store.{
  ContainerConfig, Group, Message, Chat, ScheduledTask, ScheduleParsers, SenderAllowlistEntry,
}
use kraclaw.Router.{TextTables, Channel, Delivery}
use kraclaw.RateLimit.{Float64, TokenBucket}
use kraclaw.Provider.{Registry, ModelInfo}

-- `queue.QueueMessage` (internal/queue/queue.go).
pub record QueueMessage : Type 0 where
  pub group_jid : Text
  pub content : Text
  pub sender : Text
  pub timestamp : ℕ
  pub is_task : Bool
  pub task_id : Text

-- `ipc.IPCMessageType` and `ipc.IPCMessage` (internal/ipc/ipc.go).
pub data IpcMessageType : Type 0 where
  message_text session_update task_create task_update task_delete set_model shutdown :
      IpcMessageType
  unknown_type : Text → IpcMessageType

pub record IpcMessage : Type 0 where
  pub group : Text
  pub agent_id : Text
  pub kind : IpcMessageType
  pub payload : Text
  pub id : Text

-- What the sandbox controller is told of a new sandbox, as far as it differs between the groups.
pub record SandboxConfig : Type 0 where
  pub group_folder : Text
  pub group_jid : Text
  pub session_id : Text
  pub is_main : Bool
  pub timeout : ℕ
  pub input : Text
  pub model : Text
  pub container_config : Option ContainerConfig

pub data Call : Type 0 where
  -- store
  list_groups : Call
  get_state : Text → Call
  set_state : Text → Text → Call
  get_session : Text → Call
  upsert_session : Text → Text → Call
  delete_session : Text → Call
  get_group : Text → Call
  upsert_group : Group → Call
  get_new_messages : List Text → ℕ → ℕ → Call
  get_messages_since : Text → ℕ → ℕ → Call
  store_message : Message → Call
  delete_message : Text → Text → Call
  upsert_chat : Chat → Call
  get_allowlist : Text → Call
  create_task : ScheduledTask → Call
  update_task : ScheduledTask → Call
  delete_task : Text → Text → Call
  -- queue
  is_active mark_active mark_inactive : Text → Call
  active_count active_jids : Call
  enqueue : Text → QueueMessage → Call
  dequeue : Text → Call
  -- IPC broker
  send_input : Text → IpcMessage → Call
  subscribe_output ensure_stream delete_streams stream_exists : Text → Call
  -- sandbox controller
  create_sandbox : SandboxConfig → Call
  stop_sandbox : Text → Call
  has_active_sandbox : Text → Call
  -- channels, model lister
  deliver : Delivery → Call
  list_dynamic_models : Text → Text → Call
  -- a goroutine that processes a chat, that watches its agent, or that goes on with a chat whose
  -- agent is gone, and with a message from its queue
  go_process go_watch : Text → Call
  go_recover : Text → Option QueueMessage → Call

-- The fields that the handlers read and write. `last_timestamp`, the two cursor maps and the
-- strings behind `prev…` are what is persisted.
pub record Memory : Type 0 where
  pub last_timestamp : ℕ
  pub last_agent : Map ℕ
  pub last_confirmed : Map ℕ
  pub sessions : Map Text
  pub registered_groups : Map Group
  pub active_sandboxes : Map Text
  pub spawn_start : Map ℕ
  pub inflight : Map (Unit {0})
  pub confirmed_dirty : Bool
  pub rate_limiters : Map TokenBucket
  pub notified : Bool

-- What the last save wrote: `prevLastTimestampStr`, `prevAgentTsJSON`, `prevConfirmedTsJSON`.
pub record Saved : Type 0 where
  pub timestamp : Text
  pub agent : Text
  pub confirmed : Text

pub record World : Type 0 where
  pub mem : Memory
  pub saved : Saved
  pub log : List Call

-- The configuration, and the parts of the standard library that the handlers use as they are.
pub record Config : Type 0 where
  pub assistant_name : Text
  pub max_concurrent : ℕ
  pub message_limit : ℕ
  pub max_message_size : ℕ
  pub rate_limit : ℕ
  pub idle_timeout : ℕ
  pub fast_start : Bool
  -- Whether there is a sandbox controller, `o.sandbox != nil`.
  pub has_controller : Bool
  pub tables : TextTables
  pub parsers : ScheduleParsers
  -- `Time.Format(time.RFC3339Nano)`, and `json.Marshal` of a map of strings.
  pub format_cursor : ℕ → Text
  pub marshal_strings : Map Text → Text
  -- `time.Parse(time.RFC3339Nano, …)`, and `json.Unmarshal` into a map of strings.
  pub parse_cursor : Text → Option ℕ
  pub unmarshal_strings : Text → Option (Map Text)
  -- `json.Marshal` of `{"messages": …}` and `{"model": …}`; `none` is an error.
  pub marshal_messages : Text → Option Text
  pub marshal_model : Text → Option Text
  -- `json.Unmarshal` of the payloads of an agent.
  pub decode_text : Text → Option Text
  pub decode_session : Text → Option Text
  pub decode_task : Text → Option ScheduledTask
  pub decode_id : Text → Option Text
  -- The models: the registry, and whether there is a lister of dynamic ones.
  pub providers : Registry
  pub has_lister : Bool
  -- The arithmetic of the rate limiter.
  pub floats : Float64
  -- Rounds that `stripInternalTags` is given.
  pub strip_fuel : ℕ

-- The answers of the other components; `none` and `false` are errors.
pub record Answers : Type 0 where
  pub done : List Call → Bool
  pub flag : List Call → Option Bool
  pub count : List Call → Option ℕ
  pub jids : List Call → Option (List Text)
  pub groups : List Call → Option (List Group)
  pub group : List Call → Option (Option Group)
  pub messages : List Call → Option (List Message)
  pub allowlist : List Call → Option (List SenderAllowlistEntry)
  pub sandbox_name : List Call → Option Text
  pub state_value : List Call → Option Text
  pub session : List Call → Option (Option Text)
  pub dynamic_models : List Call → Option (List ModelInfo)
  pub dequeued : List Call → Option (Option QueueMessage)
  pub channels : List Call → List Channel
  pub cancelled : List Call → Bool
  pub now : List Call → ℕ
  pub fresh_id : List Call → Text

abbrev pub M : Type 0 → Type 0
M A = Run World A

abbrev pub ask : {A : Type 0} → Call → (List Call → A) → M A
ask c answer w = (answer (c ∷ w.log), record w { log = c ∷ w.log })

-- Look at the surroundings without a call.
abbrev pub peek : {A : Type 0} → (List Call → A) → M A
peek answer w = (answer w.log, w)

abbrev pub read : M Memory
read w = (w.mem, w)

abbrev pub modify : (Memory → Memory) → M (Unit {0})
modify f w = (tt, record w { mem = f w.mem })

-- A result and an error, as Go returns them.
pub data Result (A : Type 0) : Type 0 where
  ok : A → Result A
  err : Text → Result A

-- A cursor of a chat; a chat that the map lacks has the zero time.
abbrev pub cursor : Text → Map ℕ → ℕ
cursor jid m = elim (lookup jid m) [ none ↦ 0 | some t ↦ t ]
