-- ===== src/Scheduler.antt =====
-- Scheduled tasks: backend/domain/scheduler/model/scheduled_task.py. A time is a count of
-- microseconds from a Monday at midnight; the source's times have no zone. `PyText` is what `str`
-- and `int` of the standard library do with a text.
pub mod NextTime
pub mod Task
mod Examples
use velpos.Prelude.{ℕ, String, Option, List}
use velpos.Values.{ℤ}

-- `split()`, `strip()`, and `int(…)`, with `none` where it raises.
pub record PyText : Type 0 where
  pub split : String → List String
  pub strip : String → String
  pub parse_int : String → Option ℤ
