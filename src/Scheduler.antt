-- ===== src/Scheduler.antt =====
-- internal/scheduler/scheduler.go: nextRun. The goroutine and its timer are not modelled. The rules of
-- the local zone, which the time package reads, are the parameter `zone`.
mod Tests
use bank_system_public.Base.{
  ℕ, ◌+◌, ◌*◌, ◌<◌, ◌≤◌, ◌≡◌, refl, Bool, true, false, not, ltb, if◌then◌else◌, arith, inl, inr,
  Bool-cases,
}
use mathlib.Core.Path.{ap, ◌∙◌}

-- What a clock shows: the number of the day in the calendar, and the nanoseconds since midnight.
pub record Moment : Type 0 where
  pub day : ℕ
  pub nanoseconds : ℕ

-- A location: what its clocks show at an instant (Date and Clock of a time), and the instant that
-- time.Date makes of what they show. An instant is a number of nanoseconds.
pub record Zone : Type 0 where
  pub shows : ℕ → Moment
  pub date : Moment → ℕ

abbrev pub minute_length : ℕ
minute_length = 60000000000

abbrev pub day_length : ℕ
day_length = 86400000000000

abbrev pub time_of_day : ℕ → ℕ → ℕ
time_of_day hour min = minute_length * (60 * hour + min)

abbrev pub at_clock : ℕ → ℕ → Moment
at_clock day clock = record { day = day; nanoseconds = clock }

-- AddDate(0, 0, 1)
abbrev pub next_day : Zone → ℕ → ℕ
next_day zone t = zone.date (at_clock ((zone.shows t).day + 1) (zone.shows t).nanoseconds)

unfoldable pub next_run : Zone → ℕ → ℕ → ℕ → ℕ
next_run zone from hour min =
    let next = zone.date (at_clock (zone.shows from).day (time_of_day hour min)) in
    if not (ltb from next) then next_day zone next else next

-- The nanoseconds between the midnight of day 0 and what a clock shows, had every day 24 hours.
abbrev pub shown : Moment → ℕ
shown m = day_length * m.day + m.nanoseconds

-- The clocks of the zone are ahead of the instants by `least` at least and by `least + change` at
-- most, as time.Date takes them to be, and they show a time within a day.
pub record IsZone (zone : Zone) (least change : ℕ) : Type 0 where
  pub ahead : (t : ℕ) → t + least ≤ shown (zone.shows t)
  pub not_further : (t : ℕ) → shown (zone.shows t) ≤ t + least + change
  pub within_day : (t : ℕ) → (zone.shows t).nanoseconds < day_length
  pub date_ahead : (m : Moment) → zone.date m + least ≤ shown m
  pub date_not_further : (m : Moment) → shown m ≤ zone.date m + least + change

module _ (zone : Zone) (least change : ℕ) (rules : IsZone zone least change) where
  abbrev pub IsNextRun : ℕ → ℕ → ℕ → Type 0
  IsNextRun clock from next =
      (from < next) × (next ≤ from + day_length + change) × ((zone.shows next).nanoseconds ≡ clock)

  -- The same day, if its time is still to come.
  this_day :
      (from clock : ℕ)
      → clock < day_length
      → from < zone.date (at_clock (zone.shows from).day clock)
      → zone.shows (zone.date (at_clock (zone.shows from).day clock))
        ≡ at_clock (zone.shows from).day clock
      → IsNextRun clock from (zone.date (at_clock (zone.shows from).day clock))
  this_day from clock h later there =
      let a = rules.not_further from in
      let b = rules.date_ahead (at_clock (zone.shows from).day clock) in
      (later, omega (arith, a, b, h), ap (λ m. m.nanoseconds) there)

  -- The day after, if its time has passed.
  day_after :
      (from clock : ℕ)
      → change ≤ clock
      → clock < day_length
      → zone.date (at_clock (zone.shows from).day clock) ≤ from
      → zone.shows (zone.date (at_clock ((zone.shows from).day + 1) clock))
        ≡ at_clock ((zone.shows from).day + 1) clock
      → IsNextRun clock from (zone.date (at_clock ((zone.shows from).day + 1) clock))
  day_after from clock k h passed there =
      let a = rules.ahead from in
      let b = rules.within_day from in
      let c = rules.date_not_further (at_clock ((zone.shows from).day + 1) clock) in
      let d = rules.date_ahead (at_clock ((zone.shows from).day + 1) clock) in
      let e = rules.date_not_further (at_clock (zone.shows from).day clock) in
      (omega (arith, a, b, c, k), omega (arith, d, e, passed), ap (λ m. m.nanoseconds) there)

  -- The next run is after the moment from which it is computed, at most a day and the length of a
  -- clock change after it, and the clocks of the zone then show the time of day asked for. This is for
  -- a time of day that they show on every day, and that is no nearer to midnight than the length of a
  -- clock change.
  pub next_run-bounded :
      (from hour min : ℕ)
      → change ≤ time_of_day hour min
      → time_of_day hour min < day_length
      → ((day : ℕ)
          → zone.shows (zone.date (at_clock day (time_of_day hour min)))
            ≡ at_clock day (time_of_day hour min))
      → IsNextRun (time_of_day hour min) from (next_run zone from hour min)
  unfolding next_run
  next_run-bounded from hour min k h exact =
      let today = (zone.shows from).day in
      let clock = time_of_day hour min in
      elim (Bool-cases (ltb from (zone.date (at_clock today clock)))) [
        | inl e ↦ rw e (this_day from clock h (ground (arith, e)) (exact today))
        | inr e ↦ rw e (
            rw (next_day, exact today)
              (day_after from clock k h (ground (arith, e)) (exact (today + 1))))
      ]
