-- ===== src/Scheduler/Task.antt =====
-- `ScheduledTask` and `ScheduledTaskRun` of backend/domain/scheduler/model/scheduled_task.py. A
-- method that schedules raises where `_next_time` does.
pub mod Planned
use velpos.Prelude.{
  ℕ, String, Bool, true, false, Option, none, some, or_text, or_else, take_chars, if◌then◌else◌,
}
use velpos.Prelude.Result.{Result, ok, err, ◌>>=◌}
use velpos.Scheduler.{PyText}
use velpos.Scheduler.NextTime.{ScheduleError, next_time}

pub record ScheduledTask : Type 0 where
  pub id : String
  pub project_id : String
  pub session_id : String
  pub channel_id : String
  pub name : String
  pub prompt : String
  pub cron_expr : String
  pub execution_mode : String
  pub prompt_mode : String
  pub skill_name : String
  pub enabled : Bool
  pub auto_unbind_after_run : Bool
  pub delete_session_on_success : Bool
  pub user_id : ℕ
  pub next_run_time : Option ℕ
  pub created_time : ℕ

-- The arguments of `update`, each of which may be left out.
pub record TaskChanges : Type 0 where
  pub name : Option String
  pub prompt : Option String
  pub cron_expr : Option String
  pub enabled : Option Bool
  pub session_id : Option String
  pub channel_id : Option String
  pub auto_unbind_after_run : Option Bool
  pub delete_session_on_success : Option Bool
  pub execution_mode : Option String
  pub prompt_mode : Option String
  pub skill_name : Option String

module _ (py : PyText) where
  unfoldable pub schedule_next : (now : ℕ) → ScheduledTask → Result ScheduleError ScheduledTask
  unfolding next_time
  schedule_next now t =
      if t.enabled
      then (next_time py t.cron_expr now >>= λ at. ok (record t { next_run_time = some at }))
      else ok (record t { next_run_time = none })

  unfoldable pub mark_triggered : (now : ℕ) → ScheduledTask → Result ScheduleError ScheduledTask
  unfolding schedule_next
  mark_triggered now t = schedule_next now t

  -- `if x is not None: self.x = x.strip()`
  abbrev stripped : Option String → String → String
  stripped none old = old
  stripped (some s) old = py.strip s

  -- `x.strip() or self.x`
  abbrev stripped_or : Option String → String → String
  stripped_or none old = old
  stripped_or (some s) old = or_text (py.strip s) old

  abbrev pub changed : TaskChanges → ScheduledTask → ScheduledTask
  changed u t = record t {
    name = stripped_or u.name t.name;
    prompt = or_else u.prompt t.prompt;
    cron_expr = stripped_or u.cron_expr t.cron_expr;
    enabled = or_else u.enabled t.enabled;
    session_id = stripped u.session_id t.session_id;
    channel_id = stripped u.channel_id t.channel_id;
    auto_unbind_after_run = or_else u.auto_unbind_after_run t.auto_unbind_after_run;
    delete_session_on_success = or_else u.delete_session_on_success t.delete_session_on_success;
    execution_mode = or_else u.execution_mode t.execution_mode;
    prompt_mode = or_else u.prompt_mode t.prompt_mode;
    skill_name = stripped u.skill_name t.skill_name;
  }

  unfoldable pub update :
      (now : ℕ) → TaskChanges → ScheduledTask → Result ScheduleError ScheduledTask
  unfolding schedule_next
  update now u t = schedule_next now (changed u t)

  -- A new task from its fields, as the caller gives them; the identifier and the times are set here.
  abbrev pub fresh : (id : String) (now : ℕ) → ScheduledTask → ScheduledTask
  fresh id now given = record given {
    id = id;
    channel_id = py.strip given.channel_id;
    name = or_text (py.strip given.name) "Scheduled task";
    cron_expr = or_text (py.strip given.cron_expr) "*/30 * * * *";
    skill_name = py.strip given.skill_name;
    next_run_time = none;
    created_time = now;
  }

  unfoldable pub create :
      (id : String) (now : ℕ) → ScheduledTask → Result ScheduleError ScheduledTask
  unfolding schedule_next
  create id now given = schedule_next now (fresh id now given)

pub data RunStatus : Type 0 where
  running succeeded failed : RunStatus

pub record ScheduledTaskRun : Type 0 where
  pub id : String
  pub task_id : String
  pub status : RunStatus
  pub started_time : ℕ
  pub ended_time : Option ℕ
  pub result_session_id : String
  pub error_message : String

unfoldable pub start : (id : String) (now : ℕ) (task_id : String) → ScheduledTaskRun
start id now task_id = record {
  id = id;
  task_id = task_id;
  status = running;
  started_time = now;
  ended_time = none;
  result_session_id = "";
  error_message = "";
}

unfoldable pub complete :
    (now : ℕ) (result_session_id : String) → ScheduledTaskRun → ScheduledTaskRun
complete now result_session_id r = record r {
  status = succeeded;
  result_session_id = result_session_id;
  ended_time = some now;
}

unfoldable pub fail : (now : ℕ) (error_message : String) → ScheduledTaskRun → ScheduledTaskRun
fail now error_message r = record r {
  status = failed;
  error_message = take_chars 500 error_message;
  ended_time = some now;
}
