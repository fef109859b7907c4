-- ===== src/Calendar/Covered.antt =====
-- Which month AddDate(0, -1, 0) lands in.
use bank_system_public.Base.{ℕ, ◌≤◌, ◌≡◌, arith, leb, if◌then◌else◌}
use bank_system_public.Calendar.{
  Date, IsDate, IsMonth, month_of, month_before, month_after, days_in, covered_month,
}

days_in_bounds : (y m : ℕ) → (28 ≤ days_in y m) × (days_in y m ≤ 31)
unfolding days_in
days_in_bounds y m = ground arith

month_after-month_before :
    (d : Date) → IsDate d → month_after (month_before (month_of d)) ≡ month_of d
unfolding month_after month_before
month_after-month_before d h = ground arith

-- For a real date, the default covered month is the month before the date's own exactly if that
-- month has the date's day; otherwise it is the date's own month.
pub covered_month_exact :
    (d : Date)
    → IsDate d
    → let prev = month_before (month_of d) in
      covered_month d ≡ (if leb d.day (days_in prev.year prev.month) then prev else month_of d)
unfolding covered_month
covered_month_exact d h = ground (arith, month_after-month_before d h)

-- The default covered month of a real date is a month of the calendar.
pub covered_month-IsMonth : (d : Date) → IsDate d → IsMonth (covered_month d)
unfolding covered_month
covered_month-IsMonth d h = ground arith
