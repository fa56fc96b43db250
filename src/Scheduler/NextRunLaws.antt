-- ===== src/Scheduler/NextRunLaws.antt =====
-- The next run of an interval task (internal/scheduler/scheduler.go).
use kraclaw.Prelude.{
  ℕ, zero, suc, ◌+◌, ◌*◌, ◌≤◌, ◌<◌, some, ltb, ◌≡◌, refl, arith, Bool-cases, ◌⊎◌, inl, inr, ltb→lt,
}
use kraclaw.Store.{ScheduledTask, interval, ScheduleParsers}
use kraclaw.Scheduler.NextRun.{
  next_run, skip_forward, enough_rounds, last_scheduled, compute_next_run,
}

-- A time that lies after `now`, on the grid of period `d` through `from`, and is the first such.
pub record IsNext (d now from r : ℕ) : Type 0 where
  pub steps : ℕ
  pub on_grid : r ≡ from + steps * d
  pub later : now < r
  pub first : from ≤ now → r ≤ now + d
  pub kept : now < from → r ≡ from

le-or-lt : (a b : ℕ) → (a ≤ b) ⊎ (b < a)
le-or-lt a b = grind arith

skip_forward_total :
    (fuel d now next : ℕ)
    → 1 ≤ d
    → suc now < next + fuel
    → 0 < fuel
    → (r : ℕ) × (skip_forward fuel d now next ≡ some r) × IsNext d now next r
unfolding skip_forward
skip_forward_total zero d now next h lt p = absurd (omega arith)
skip_forward_total (suc fuel) d now next h lt p = elim (Bool-cases (ltb now next)) [
  | inl done ↦ (
    next,
    rw (done, skip_forward),
    record {
      steps = 0;
      on_grid = omega arith;
      later = ltb→lt now next done;
      first = λ le. absurd (let l = ltb→lt now next done in omega arith);
      kept = λ _. refl;
    },
  )
  | inr more ↦
      let le : next ≤ now = ground arith in
      let (r, e, i) = skip_forward_total fuel d now (next + d) h (omega arith) (omega arith) in
      (
        r,
        rw (more, skip_forward) e,
        record {
          steps = suc i.steps;
          on_grid = grind (arith, i.on_grid);
          later = i.later;
          first = λ _. bounded le r i;
          kept = λ lt'. absurd (omega arith);
        },
      )
]
  where
    bounded : next ≤ now → (r : ℕ) → IsNext d now (next + d) r → r ≤ now + d
    bounded le r i = elim (le-or-lt (next + d) now) [
      | inl early ↦ i.first early
      | inr late ↦ omega (arith, i.kept late)
    ]

-- An interval task that has run before gets the first time after now on the grid of its period
-- through its last scheduled time, which itself is kept where it still lies ahead; and the loop
-- that looks for it ends.
pub compute_next_run_interval :
    (p : ScheduleParsers) (now d last : ℕ) (task : ScheduledTask)
    → task.schedule_type ≡ interval
    → p.parse_duration task.schedule_value ≡ some (suc d)
    → task.last_run ≡ some last
    → (r : ℕ) × (compute_next_run p now task ≡ next_run (some r))
      × IsNext (suc d) now (last_scheduled task.next_run last) r
unfolding compute_next_run
compute_next_run_interval p now d last task kind parsed ran =
    let from = last_scheduled task.next_run last in
    let (r, e, i) =
      skip_forward_total (enough_rounds now from) (suc d) now from (omega arith) (omega arith)
        (omega arith) in
    (r, ground (arith, e), i)
