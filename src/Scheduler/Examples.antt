-- ===== src/Scheduler/Examples.antt =====
-- Runs of the schedule, and its theorems on them. Here every text is one that splits into the
-- fields of `5 */4 * * *` and every number reads as 5.
use velpos.Prelude.{ℕ, ◌≡◌, ◌<◌, refl, true, false, none, some, [], ◌∷◌}
use velpos.Prelude.Result.{ok}
use velpos.Values.{pos}
use velpos.Scheduler.{PyText}
use velpos.Scheduler.NextTime.{each_hour, each_hours, next_time, at_minute, advance, step_of}
use velpos.Scheduler.NextTime.Future.{hour_step_ignored, next_time_future}
use velpos.Scheduler.Task.{ScheduledTask, mark_triggered, schedule_next}
use velpos.Scheduler.Task.Planned.{is_planned, triggering, run_op, task_planned}

abbrev fives : PyText
fives = record {
  split = λ s. "5" ∷ "*/4" ∷ "*" ∷ "*" ∷ "*" ∷ [];
  strip = λ s. s;
  parse_int = λ s. some (pos 5);
}

-- a quarter past one
abbrev now : ℕ
now = 4500000000

-- five past two, although the expression says every fourth hour
abbrev next : ℕ
next = 7500000000

next_run : next_time fives "5 */4 * * *" now ≡ ok next
unfolding next_time each_hours at_minute advance step_of
next_run = refl

next_time_future_example : now < next
next_time_future_example = next_time_future fives now "5 */4 * * *" next_run

hour_step_ignored_example : each_hours now 5 4 ≡ each_hour now 5
hour_step_ignored_example = hour_step_ignored now 5 4

abbrev task : ScheduledTask
task = record {
  id = "t";
  project_id = "p";
  session_id = "";
  channel_id = "";
  name = "n";
  prompt = "do";
  cron_expr = "5 */4 * * *";
  execution_mode = "new_session";
  prompt_mode = "prompt";
  skill_name = "";
  enabled = true;
  auto_unbind_after_run = true;
  delete_session_on_success = false;
  user_id = 1;
  next_run_time = none;
  created_time = 1;
}

abbrev planned : ScheduledTask
planned = record task { next_run_time = some next }

triggered : run_op fives now triggering task ≡ ok planned
unfolding run_op mark_triggered schedule_next next_time each_hours at_minute advance step_of
triggered = refl

task_planned_example : is_planned now planned ≡ true
task_planned_example = task_planned fives now triggering task triggered
