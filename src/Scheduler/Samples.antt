-- ===== src/Scheduler/Samples.antt =====
-- The laws of the scheduler at a one-time task and at an interval task.
use kraclaw.Prelude.{ℕ, codes, [], none, some, ◌≡◌, ◌≢◌, refl}
use kraclaw.Store.{ScheduledTask, ScheduleParsers, interval, once, active, completed}
use kraclaw.Scheduler.{skip_forward, Surroundings, compute_next_run, next_run, run_task}
use kraclaw.Scheduler.Claims.{executed, trace, row_after, once_completed}
use kraclaw.Scheduler.NextRunLaws.{IsNext, compute_next_run_interval}

abbrev parsers : ScheduleParsers
parsers = record {
  parse_cron = λ s. none;
  parse_duration = λ s. some 10;
  parse_rfc3339 = λ s. some 9;
}

-- The executor fails.
abbrev surroundings : Surroundings
surroundings = record {
  parsers = parsers;
  start = 34;
  compute_now = 35;
  duration_ms = 1;
  retry_base = 36;
  update_error = λ log. none;
  execute_error = λ log. some (codes "down");
}

abbrev reminder : ScheduledTask
reminder = record {
  id = codes "t1";
  group_folder = codes "family";
  chat_jid = codes "tg:1";
  prompt = codes "tea";
  schedule_type = once;
  schedule_value = codes "noon";
  context_mode = [];
  next_run = some 9;
  last_run = none;
  last_result = none;
  status = active;
  created_at = 0;
}

abbrev digest : ScheduledTask
digest = record reminder { schedule_type = interval; next_run = some 5; last_run = some 4 }

ran : executed (trace surroundings reminder) ≢ []
unfolding run_task compute_next_run
ran = λ p. cc

once_completed_example :
    ((row_after surroundings reminder).status ≡ completed)
    × ((row_after surroundings reminder).next_run ≡ none)
once_completed_example = once_completed surroundings reminder refl ran

scheduled : compute_next_run parsers 35 digest ≡ next_run (some 45)
unfolding compute_next_run
scheduled = unfold skip_forward in refl

compute_next_run_interval_example :
    (r : ℕ) × (compute_next_run parsers 35 digest ≡ next_run (some r)) × IsNext 10 35 5 r
compute_next_run_interval_example = compute_next_run_interval parsers 35 9 4 digest refl refl refl
