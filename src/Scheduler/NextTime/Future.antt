-- ===== src/Scheduler/NextTime/Future.antt =====
-- `_next_time` against the present time (scheduled_task.py).
use velpos.Prelude.{
  ℕ, zero, suc, ◌+◌, ◌*◌, ◌/◌, ◌%◌, ◌≡◌, ◌≤◌, ◌<◌, refl, inl, inr, String, Option, none, some, List,
  [], ◌∷◌, ◌==◌, text_eq, nat_eq, arith, Bool-cases, Option-cases,
}
use velpos.Prelude.Result.{Result, ok, err, ◌>>=◌}
use velpos.Values.{ℤ, pos, negsuc}
use velpos.Scheduler.{PyText}
use velpos.Scheduler.NextTime.{
  minute_us, hour_us, day_us, ScheduleError, below, at_minute, at_time, step_of, step_value,
  days_until, advance, later_by, each_hour, each_hours, each_day, each_week, at_hour, from_hour,
  from_minute, from_parts, next_time,
}

-- a step past `now` from within one step of it
later_by-future :
    (step now candidate : ℕ) → now < candidate + step → now < later_by step now candidate
later_by-future step now candidate h = ground arith

at_minute-near : (now m : ℕ) → now < at_minute now m + hour_us
unfolding at_minute
at_minute-near now m = omega arith

at_time-near : (now h m : ℕ) → now < at_time now h m + day_us
unfolding at_time
at_time-near now h m = omega arith

each_hour-future : (now m : ℕ) → now < each_hour now m
unfolding each_hour
each_hour-future now m = later_by-future hour_us now (at_minute now m) (at_minute-near now m)

-- The loop stops at once where its start lies in the future.
advance-future :
    (fuel step now candidate : ℕ) → now < candidate → advance fuel step now candidate ≡ candidate
unfolding advance
advance-future zero step now candidate h = refl
advance-future (suc fuel) step now candidate h = ground arith

-- The step of an hour field counts for nothing: `m */k * * *` gives each hour, as `m * * * *` does,
-- since the hour that is added first is already past `now`.
pub hour_step_ignored : (now m step : ℕ) → each_hours now m step ≡ each_hour now m
unfolding each_hours each_hour
hour_step_ignored now m step =
    advance-future (now + 1) (step * hour_us) now (later_by hour_us now (at_minute now m))
      (later_by-future hour_us now (at_minute now m) (at_minute-near now m))

each_day-future : (now h m : ℕ) → now < each_day now h m
unfolding each_day
each_day-future now h m = later_by-future day_us now (at_time now h m) (at_time-near now h m)

each_week-future : (now h m : ℕ) (weekday : ℤ) → now < each_week now h m weekday
unfolding each_week
each_week-future now h m weekday =
    let near = at_time-near now h m in
    later_by-future (7 * day_us) now
      (at_time now h m + days_until weekday (at_time now h m / day_us % 7) * day_us)
      (omega (arith, near))

step_value_pos : (o : Option ℤ) (d : ℕ) → 1 ≤ d → 1 ≤ step_value o d
step_value_pos none d h = h
step_value_pos (some (pos n)) d h = omega arith
step_value_pos (some (negsuc n)) d h = omega arith

-- An accepted minute leaves the time of the continuation.
bind-future :
    (now : ℕ) (m : Result ScheduleError ℕ) (f : ℕ → Result ScheduleError ℕ) {t : ℕ}
    → ((a u : ℕ) → f a ≡ ok u → now < u)
    → (m >>= f) ≡ ok t
    → now < t
bind-future now (ok a) f h q = h a _ q
bind-future now (err e) f h q = absurd (ground arith)

abbrev accepted : ℕ → Result ScheduleError ℕ
accepted u = ok u

ok-future : (now u : ℕ) {t : ℕ} → now < u → accepted u ≡ ok t → now < t
ok-future now u h q = ground arith

module _ (py : PyText) (now : ℕ) where
  at_hour-future : (m h : ℕ) (dow : String) → now < at_hour py now m h dow
  at_hour-future m h dow = elim (Bool-cases (dow == "*")) [
    | inl e ↦ rw e (each_day-future now h m)
    | inr e ↦ elim (Option-cases (py.parse_int dow)) [
      | inl f ↦ rw (e, f) (omega arith)
      | inr (weekday, f) ↦ rw (e, f) (each_week-future now h m weekday)
    ]
  ]

  from_hour-future :
      (minute : ℤ) (hour dow : String) {t : ℕ} → from_hour py now minute hour dow ≡ ok t → now < t
  from_hour-future minute hour dow q = elim (Option-cases (step_of hour)) [
    | inr (step, e) ↦
        bind-future now (below 60 minute)
          (λ m. ok (each_hours now m (step_value (py.parse_int step) 1)))
          (λ m u r.
            ok-future now (each_hours now m (step_value (py.parse_int step) 1))
              (rw hour_step_ignored (each_hour-future now m)) r)
          (rw (from_hour, e) at q)
    | inl e ↦ elim (Bool-cases (hour == "*")) [
      | inl f ↦
          bind-future now (below 60 minute) (λ m. ok (each_hour now m))
            (λ m u r. ok-future now (each_hour now m) (each_hour-future now m) r)
            (rw (from_hour, e, f) at q)
      | inr f ↦ elim (Option-cases (py.parse_int hour)) [
        | inl g ↦
            ok-future now (now + 30 * minute_us) (omega arith) (rw g at (rw (from_hour, e, f) at q))
        | inr (target, g) ↦
            bind-future now (below 24 target)
              (λ h. below 60 minute >>= λ m. ok (at_hour py now m h dow))
              (λ h u r.
                bind-future now (below 60 minute) (λ m. ok (at_hour py now m h dow))
                  (λ m v s. ok-future now (at_hour py now m h dow) (at_hour-future m h dow) s) r)
              (rw g at (rw (from_hour, e, f) at q))
      ]
    ]
  ]

  from_minute-future :
      (minute hour dow : String) {t : ℕ} → from_minute py now minute hour dow ≡ ok t → now < t
  from_minute-future minute hour dow q = elim (Option-cases (step_of minute)) [
    | inr (step, e) ↦
        let positive = step_value_pos (py.parse_int step) 30 (omega arith) in
        ok-future now (now + step_value (py.parse_int step) 30 * minute_us)
          (omega (arith, positive)) (rw (from_minute, e) at q)
    | inl e ↦ elim (Bool-cases (minute == "*")) [
      | inl f ↦ ok-future now (now + minute_us) (omega arith) (rw (from_minute, e, f) at q)
      | inr f ↦ elim (Option-cases (py.parse_int minute)) [
        | inl g ↦
            ok-future now (now + 30 * minute_us) (omega arith)
              (rw g at (rw (from_minute, e, f) at q))
        | inr (m, g) ↦ from_hour-future m hour dow (rw g at (rw (from_minute, e, f) at q))
      ]
    ]
  ]

  from_parts-future : (parts : List String) {t : ℕ} → from_parts py now parts ≡ ok t → now < t
  from_parts-future (minute ∷ hour ∷ dom ∷ month ∷ dow ∷ []) q =
      from_minute-future minute hour dow q
  from_parts-future _ q = ok-future now (now + 30 * minute_us) (omega arith) q

  -- A scheduled run lies in the future: for every expression that is accepted, well-formed or not.
  pub next_time_future : (cron_expr : String) {t : ℕ} → next_time py cron_expr now ≡ ok t → now < t
  unfolding next_time
  next_time_future cron_expr q = from_parts-future (py.split cron_expr) q
