-- ===== src/Scheduler/NextTime.antt =====
-- `ScheduledTask._next_time` of backend/domain/scheduler/model/scheduled_task.py.
pub mod Future
use velpos.Prelude.{
  ℕ, zero, suc, ◌+◌, ◌-◌, ◌*◌, ◌/◌, ◌%◌, String, Bool, true, false, Option, none, some, List, [],
  ◌∷◌, ◌==◌, ◌!=◌, ◌&&◌, not, nat_eq, text_eq, ltb, leb, max, if◌then◌else◌, take_chars, drop_chars,
}
use velpos.Prelude.Result.{Result, ok, err, ◌>>=◌}
use velpos.Values.{ℤ, pos, negsuc}
use velpos.Scheduler.{PyText}

abbrev pub minute_us : ℕ
minute_us = 60000000

abbrev pub hour_us : ℕ
hour_us = 3600000000

abbrev pub day_us : ℕ
day_us = 86400000000

-- `replace` raises on a minute or an hour out of range.
pub data ScheduleError : Type 0 where
  out_of_range : ScheduleError

abbrev pub below : (bound : ℕ) → ℤ → Result ScheduleError ℕ
below bound (pos n) = if ltb n bound then ok n else err out_of_range
below bound (negsuc n) = err out_of_range

-- `now.replace(second=0, microsecond=0, minute=m)`
unfoldable pub at_minute : (now m : ℕ) → ℕ
at_minute now m = now / hour_us * hour_us + m * minute_us

-- `now.replace(second=0, microsecond=0, hour=h, minute=m)`
unfoldable pub at_time : (now h m : ℕ) → ℕ
at_time now h m = now / day_us * day_us + h * hour_us + m * minute_us

-- `max(int(text), 1)`, with a default where `int` raises
abbrev pub step_value : Option ℤ → (default : ℕ) → ℕ
step_value none default = default
step_value (some (pos n)) default = max n 1
step_value (some (negsuc n)) default = 1

-- `text[2:]` where the text starts with "*/"
unfoldable pub step_of : String → Option String
step_of s = if take_chars 2 s == "*/" then some (drop_chars 2 s) else none

-- Python's `(a - b) % 7` for a weekday `b`
unfoldable pub days_until : ℤ → (weekday : ℕ) → ℕ
days_until (pos n) weekday = (n + 7 - weekday) % 7
days_until (negsuc n) weekday = (6 - n % 7 + 7 - weekday) % 7

-- `while candidate <= now: candidate += step`
unfoldable pub advance : (fuel step now candidate : ℕ) → ℕ
advance zero step now candidate = candidate
advance (suc fuel) step now candidate = elim (leb candidate now) [
  | true ↦ advance fuel step now (candidate + step)
  | false ↦ candidate
]

abbrev pub later_by : (step now candidate : ℕ) → ℕ
later_by step now candidate = if leb candidate now then candidate + step else candidate

-- hour `*`
unfoldable pub each_hour : (now m : ℕ) → ℕ
unfolding at_minute
each_hour now m = later_by hour_us now (at_minute now m)

-- hour `*/k`; each round adds an hour at least, so that `now + 1` rounds are enough.
unfoldable pub each_hours : (now m step : ℕ) → ℕ
unfolding at_minute advance
each_hours now m step =
    advance (now + 1) (step * hour_us) now (later_by hour_us now (at_minute now m))

-- a fixed hour, on each day
unfoldable pub each_day : (now h m : ℕ) → ℕ
unfolding at_time
each_day now h m = later_by day_us now (at_time now h m)

-- a fixed hour, on one weekday
unfoldable pub each_week : (now h m : ℕ) → ℤ → ℕ
unfolding at_time days_until
each_week now h m weekday =
    let today = at_time now h m in
    later_by (7 * day_us) now (today + days_until weekday (today / day_us % 7) * day_us)

module _ (py : PyText) where
  abbrev pub at_hour : (now : ℕ) (m : ℕ) (h : ℕ) (dow : String) → ℕ
  at_hour now m h dow = if dow == "*" then each_day now h m else elim (py.parse_int dow) [
    | none ↦ now + 30 * minute_us
    | some weekday ↦ each_week now h m weekday
  ]

  abbrev pub from_hour : (now : ℕ) (minute : ℤ) (hour dow : String) → Result ScheduleError ℕ
  from_hour now minute hour dow = elim (step_of hour) [
    | some step ↦ do m ← below 60 minute; ok (each_hours now m (step_value (py.parse_int step) 1))
    | none ↦
        if hour == "*"
        then (below 60 minute >>= λ m. ok (each_hour now m))
        else elim (py.parse_int hour) [
          | none ↦ ok (now + 30 * minute_us)
          | some target ↦ do h ← below 24 target; m ← below 60 minute; ok (at_hour now m h dow)
        ]
  ]

  abbrev pub from_minute : (now : ℕ) (minute hour dow : String) → Result ScheduleError ℕ
  from_minute now minute hour dow = elim (step_of minute) [
    | some step ↦ ok (now + step_value (py.parse_int step) 30 * minute_us)
    | none ↦ if minute == "*" then ok (now + minute_us) else elim (py.parse_int minute) [
      | none ↦ ok (now + 30 * minute_us)
      | some m ↦ from_hour now m hour dow
    ]
  ]

  abbrev pub from_parts : (now : ℕ) → List String → Result ScheduleError ℕ
  from_parts now (minute ∷ hour ∷ dom ∷ month ∷ dow ∷ []) = from_minute now minute hour dow
  from_parts now _ = ok (now + 30 * minute_us)

  unfoldable pub next_time : (cron_expr : String) (now : ℕ) → Result ScheduleError ℕ
  unfolding each_hour each_hours each_day each_week step_of
  next_time cron_expr now = from_parts now (py.split cron_expr)
