-- ===== src/Orchestrator/Samples.antt =====
-- A group, a configuration and answers of the other components, for the examples.
use Prim.Native.Nat.{min}
use kraclaw.RateLimit.{Float64}
use kraclaw.Prelude.{
  ◌+◌, ◌-◌, ◌*◌, leb, ℕ, ◌++◌, ◌==◌, if◌then◌else◌, Option, Map, Bool, true, false, Text, codes,
  List, [], ◌∷◌, none, some,
}
use kraclaw.Store.{Group, Message, ScheduledTask, once, active}
use kraclaw.Provider.{new_registry}
use kraclaw.Router.{TextTables, Channel}
use kraclaw.Orchestrator.World.{QueueMessage, Call, mark_active, get_state, World, Config, Answers}

abbrev pub chat : Text
chat = codes "tg:1"

abbrev pub family : Group
family = record {
  jid = codes "tg:1";
  name = codes "family";
  folder = codes "family";
  trigger_pattern = codes "@bot";
  added_at = 0;
  container_config = none;
  requires_trigger = true;
  is_main = false;
}

abbrev pub hello : Message
hello = record {
  id = codes "m1";
  chat_jid = codes "tg:1";
  sender = codes "ann";
  sender_name = codes "Ann";
  content = codes "@bot hi";
  timestamp = 7;
  is_from_me = false;
  is_bot_message = false;
}

abbrev pub plain_tables : TextTables
plain_tables = record { to_lower_rune = λ c. c; quote = λ s. s; format_time = λ t. [] }

abbrev pub lunch : ScheduledTask
lunch = record {
  id = codes "t1";
  group_folder = codes "work";
  chat_jid = codes "tg:2";
  prompt = codes "lunch";
  schedule_type = once;
  schedule_value = codes "noon";
  context_mode = [];
  next_run = some 3;
  last_run = none;
  last_result = none;
  status = active;
  created_at = 0;
}

-- A map of at most one time, which is a single character.
abbrev parse : Text → Option ℕ
parse [] = none
parse (t ∷ s) = some t

abbrev marshal : Map Text → Text
marshal [] = 0 ∷ []
marshal ((key, value) ∷ m) = value ++ key

abbrev unmarshal : Text → Map Text
unmarshal [] = []
unmarshal (t ∷ key) = (key, t ∷ []) ∷ []

-- A number stands for itself, and no time passes.
abbrev whole_numbers : Float64
whole_numbers = record {
  of_int = λ n. n;
  add = λ a b. a + b;
  sub = λ a b. a - b;
  mul = λ a b. a * b;
  min = λ a b. min a b;
  ge = λ a b. leb b a;
  seconds_since = λ now last. 0;
}

abbrev pub config : Config
config = record {
  assistant_name = codes "bot";
  max_concurrent = 2;
  message_limit = 50;
  max_message_size = 0;
  rate_limit = 5;
  idle_timeout = 60;
  fast_start = false;
  has_controller = true;
  tables = plain_tables;
  parsers = record {
    parse_cron = λ s. none;
    parse_duration = λ s. none;
    parse_rfc3339 = λ s. some 9;
  };
  format_cursor = λ t. t ∷ [];
  marshal_strings = marshal;
  parse_cursor = parse;
  unmarshal_strings = λ s. some (unmarshal s);
  marshal_messages = λ s. some s;
  marshal_model = λ s. some s;
  decode_text = λ s. some s;
  decode_session = λ s. some s;
  decode_task = λ s. some lunch;
  decode_id = λ s. some s;
  providers = new_registry;
  has_lister = false;
  floats = whole_numbers;
  strip_fuel = 4;
}

abbrev pub telegram : Channel
telegram = record {
  name = codes "telegram";
  owns_jid = λ j. true;
  is_connected = true;
  accepts = λ j s. true;
}

-- What a save of the cursor 5 for the agent of the chat, and 4 for what it confirmed, leaves.
abbrev saved_value : List Call → Option Text
saved_value (get_state key ∷ log) =
    if key == codes "last_timestamp"
    then some (6 ∷ [])
    else some ((if key == codes "last_agent_timestamp" then 5 else 4) ∷ chat)
saved_value _ = none

-- Everything works.
abbrev pub answers : Answers
answers = record {
  done = λ log. true;
  flag = λ log. some false;
  count = λ log. some 1;
  jids = λ log. some (codes "tg:1" ∷ []);
  groups = λ log. some [];
  group = λ log. some none;
  messages = λ log. some (hello ∷ []);
  allowlist = λ log. some [];
  sandbox_name = λ log. some (codes "sb-1");
  state_value = saved_value;
  session = λ log. some (some (codes "s1"));
  dynamic_models = λ log. none;
  dequeued = λ log. some none;
  channels = λ log. telegram ∷ [];
  cancelled = λ log. false;
  now = λ log. 11;
  fresh_id = λ log. codes "id";
}

abbrev queued : QueueMessage
queued = record {
  group_jid = codes "tg:1";
  content = codes "tea";
  sender = [];
  timestamp = 8;
  is_task = true;
  task_id = codes "t1";
}

-- Everything works, the chat is active, and its queue has a message.
abbrev pub served : Answers
served = record answers {
  flag = λ log. some true;
  jids = λ log. some (codes "tg:1" ∷ []);
  groups = λ log. some (family ∷ []);
  dequeued = λ log. some (some queued);
}

abbrev refuses_mark : List Call → Bool
refuses_mark (mark_active j ∷ log) = false
refuses_mark _ = true

-- Everything works but `MarkActive`.
abbrev pub unmarked : Answers
unmarked = record answers { done = refuses_mark }

abbrev pub start : World
start = record {
  mem = record {
    last_timestamp = 6;
    last_agent = (codes "tg:1", 5) ∷ [];
    last_confirmed = (codes "tg:1", 4) ∷ [];
    sessions = [];
    registered_groups = (codes "tg:1", family) ∷ [];
    active_sandboxes = [];
    spawn_start = [];
    inflight = (codes "tg:1", tt) ∷ [];
    confirmed_dirty = true;
    rate_limiters = [];
    notified = false;
  };
  saved = record { timestamp = 6 ∷ []; agent = []; confirmed = [] };
  log = [];
}
