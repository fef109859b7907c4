-- ===== src/Calendar.antt =====
-- Calendar dates as the program uses Go's time package: the order of dates, time.Date's
-- normalisation of a day past the end of its month, AddDate(0, -1, 0), and month indices.
-- Months are 1 to 12. Years are those of a DATE column, 1 and up.
pub mod Covered
pub mod Months
mod Tests
use bank_system_public.Base.{
  ℕ, ◌+◌, ◌-◌, ◌*◌, ◌/◌, ◌%◌, ◌≤◌, Bool, not, ◌&&◌, ◌||◌, ltb, leb, ◌==◌, if◌then◌else◌,
}

-- A date with no time of day, as a DATE column and time.Parse("2006-01-02") give it.
pub record Date : Type 0 where
  pub year : ℕ
  pub month : ℕ
  pub day : ℕ

-- A month of the calendar: handler's monthRef, and the two coverage columns.
pub record MonthRef : Type 0 where
  pub year : ℕ
  pub month : ℕ

abbrev pub same_month : MonthRef → MonthRef → Bool
same_month a b = a.year == b.year && a.month == b.month

-- The month that a date lies in.
abbrev pub month_of : Date → MonthRef
month_of d = record { year = d.year; month = d.month }

-- Time.Before on dates, and the order `<=` of DATE columns.
unfoldable pub before : Date → Date → Bool
before a b =
    ltb a.year b.year
    || a.year == b.year && (ltb a.month b.month || a.month == b.month && ltb a.day b.day)

unfoldable pub on_or_before : Date → Date → Bool
unfolding before
on_or_before a b = not (before b a)

unfoldable pub is_leap : ℕ → Bool
is_leap y = y % 4 == 0 && not (y % 100 == 0) || y % 400 == 0

unfoldable pub days_in : ℕ → ℕ → ℕ
unfolding is_leap
days_in y m =
    if m == 2
    then (if is_leap y then 29 else 28)
    else if m == 4 || m == 6 || m == 9 || m == 11
    then 30
    else 31

unfoldable pub month_before : MonthRef → MonthRef
month_before m =
    if m.month == 1
    then record { year = m.year - 1; month = 12 }
    else record { year = m.year; month = m.month - 1 }

unfoldable pub month_after : MonthRef → MonthRef
month_after m =
    if m.month == 12
    then record { year = m.year + 1; month = 1 }
    else record { year = m.year; month = m.month + 1 }

-- time.Date(y, m, d): a day past the end of the month runs on into the next one. The days that the
-- program passes are at most 31, so one month is enough.
unfoldable pub normalize_day : MonthRef → ℕ → Date
unfolding days_in month_after
normalize_day m d =
    if leb d (days_in m.year m.month)
    then record { year = m.year; month = m.month; day = d }
    else record {
      year = (month_after m).year;
      month = (month_after m).month;
      day = d - days_in m.year m.month;
    }

-- t.AddDate(0, -1, 0)
unfoldable pub add_month_back : Date → Date
unfolding month_before normalize_day
add_month_back d = normalize_day (month_before (month_of d)) d.day

-- The month that a payment received on a date covers by default.
unfoldable pub covered_month : Date → MonthRef
unfolding add_month_back
covered_month d = month_of (add_month_back d)

-- handler.monthIndex and handler.monthFromIndex
unfoldable pub month_index : MonthRef → ℕ
month_index m = m.year * 12 + m.month

unfoldable pub month_from_index : ℕ → MonthRef
month_from_index index = record { year = (index - 1) / 12; month = index - (index - 1) / 12 * 12 }

pub record IsMonth (m : MonthRef) : Type 0 where
  pub first : 1 ≤ m.month
  pub last : m.month ≤ 12

pub record IsDate (d : Date) : Type 0 where
  pub era : 1 ≤ d.year
  pub first_month : 1 ≤ d.month
  pub last_month : d.month ≤ 12
  pub first_day : 1 ≤ d.day
  pub last_day : d.day ≤ days_in d.year d.month
