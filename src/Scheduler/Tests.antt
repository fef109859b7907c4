-- ===== src/Scheduler/Tests.antt =====
-- The theorem on the next run, at three in the morning, in a zone with summer time.
use bank_system_public.Base.{
  ℕ, ◌+◌, ◌-◌, ◌*◌, ◌/◌, ◌%◌, ◌<◌, ◌≡◌, refl, ltb, if◌then◌else◌, arith, Bool-cases, inl, inr,
}
use bank_system_public.Scheduler.{
  Zone, Moment, IsZone, day_length, time_of_day, at_clock, shown, IsNextRun, next_run,
  next_run-bounded,
}

abbrev hour_length : ℕ
hour_length = 3600000000000

-- At this instant the clocks go from two to three in the morning of day 80.
abbrev spring : ℕ
spring = day_length * 80 + hour_length * 2

abbrev of_number : ℕ → Moment
of_number n = record { day = n / day_length; nanoseconds = n % day_length }

-- The clocks start at the instants, and are an hour ahead from the spring on.
abbrev summer : Zone
summer = record {
  shows = λ t. of_number (if ltb t spring then t else t + hour_length);
  date = λ m. if ltb (shown m) (spring + hour_length) then shown m else shown m - hour_length;
}

shown-of_number : (n : ℕ) → shown (of_number n) ≡ n
shown-of_number n = omega arith

of_number-within_day : (n : ℕ) → (of_number n).nanoseconds < day_length
of_number-within_day n = omega arith

of_number-at_clock :
    (n day clock : ℕ)
    → clock < day_length
    → n ≡ day_length * day + clock
    → of_number n ≡ at_clock day clock
of_number-at_clock n day clock h e =
    let q : n / day_length ≡ day = omega (arith, e, h) in
    let r : n % day_length ≡ clock = omega (arith, e, h) in rw q (rw r refl)

summer-IsZone : IsZone summer 0 hour_length
summer-IsZone = record {
  ahead = λ t. elim (Bool-cases (ltb t spring)) [
    | inl e ↦ rw e (omega (arith, shown-of_number t))
    | inr e ↦ rw e (omega (arith, shown-of_number (t + hour_length)))
  ];
  not_further = λ t. elim (Bool-cases (ltb t spring)) [
    | inl e ↦ rw e (omega (arith, shown-of_number t))
    | inr e ↦ rw e (omega (arith, shown-of_number (t + hour_length)))
  ];
  within_day = λ t. of_number-within_day (if ltb t spring then t else t + hour_length);
  date_ahead = λ m. ground arith;
  date_not_further = λ m. ground arith;
}

three :
    (day : ℕ)
    → summer.shows (summer.date (at_clock day (time_of_day 3 0))) ≡ at_clock day (time_of_day 3 0)
three day = of_number-at_clock _ day (time_of_day 3 0) (omega arith) (ground arith)

-- Before noon of the day on which the clocks change, and after three in the morning: the next run is
-- the next day.
next_run-bounded_example :
    IsNextRun summer 0 hour_length summer-IsZone
      (time_of_day 3 0)
      (day_length * 80 + hour_length * 9)
      (next_run summer (day_length * 80 + hour_length * 9) 3 0)
next_run-bounded_example =
    next_run-bounded summer 0 hour_length summer-IsZone (day_length * 80 + hour_length * 9) 3 0
      (omega arith) (omega arith) three
