-- ===== src/Scheduler/Task/Planned.antt =====
-- The next run of a task after each operation (scheduled_task.py).
use velpos.Prelude.{
  ℕ, ◌≡◌, inl, inr, String, Bool, true, false, Option, none, some, arith, ltb, Bool-cases,
  if◌then◌else◌,
}
use velpos.Prelude.Result.{Result, ok, Result-cases}
use velpos.Scheduler.{PyText}
use velpos.Scheduler.NextTime.{ScheduleError, next_time}
use velpos.Scheduler.NextTime.Future.{next_time_future}
use velpos.Scheduler.Task.{
  ScheduledTask, TaskChanges, schedule_next, mark_triggered, changed, fresh, update, create,
}

abbrev is_after : (now : ℕ) → Option ℕ → Bool
is_after now none = false
is_after now (some at) = ltb now at

abbrev is_none : Option ℕ → Bool
is_none none = true
is_none (some at) = false

abbrev pub is_planned : (now : ℕ) → ScheduledTask → Bool
is_planned now t = if t.enabled then is_after now t.next_run_time else is_none t.next_run_time

-- What schedules a task: a new one from its fields, an update, or a run that was triggered.
pub data TaskOp : Type 0 where
  creating : String → TaskOp
  updating : TaskChanges → TaskOp
  triggering : TaskOp

module _ (py : PyText) (now : ℕ) where
  unfoldable pub run_op : TaskOp → ScheduledTask → Result ScheduleError ScheduledTask
  unfolding create update mark_triggered
  run_op (creating id) t = create py id now t
  run_op (updating u) t = update py now u t
  run_op triggering t = mark_triggered py now t

  schedule_next-is_planned :
      (t : ScheduledTask) {t' : ScheduledTask}
      → schedule_next py now t ≡ ok t'
      → is_planned now t' ≡ true
  unfolding schedule_next
  schedule_next-is_planned t h = elim (Bool-cases t.enabled) [
    | inr e ↦ ground arith
    | inl e ↦ elim (Result-cases (next_time py t.cron_expr now)) [
      | inl (x, f) ↦ absurd (ground arith)
      | inr (at, f) ↦ let future = next_time_future py now t.cron_expr f in ground arith
    ]
  ]

  -- After an operation that is accepted, an enabled task has a next run, in the future, and a
  -- disabled one has none.
  pub task_planned :
      (op : TaskOp) (t : ScheduledTask) {t' : ScheduledTask}
      → run_op op t ≡ ok t'
      → is_planned now t' ≡ true
  unfolding run_op create update mark_triggered
  task_planned (creating id) t h = schedule_next-is_planned (fresh py id now t) h
  task_planned (updating u) t h = schedule_next-is_planned (changed py u t) h
  task_planned triggering t h = schedule_next-is_planned t h
