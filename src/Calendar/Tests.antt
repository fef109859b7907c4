-- ===== src/Calendar/Tests.antt =====
-- Dates around the ends of months, and the theorems of this part at such dates.
use bank_system_public.Base.{◌≡◌, refl, arith}
use bank_system_public.Calendar.{
  Date, MonthRef, IsDate, IsMonth, covered_month, month_of, month_before, days_in, month_index,
  month_from_index,
}
use bank_system_public.Calendar.Covered.{covered_month_exact}
use bank_system_public.Calendar.Months.{month_from_index-month_index, month_index-month_from_index}

abbrev may_31 : Date
may_31 = record { year = 2026; month = 5; day = 31 }

abbrev december : MonthRef
december = record { year = 2025; month = 12 }

may_31-IsDate : IsDate may_31
unfolding days_in
may_31-IsDate = omega arith

-- 31 April does not exist, so a payment of 31 May covers May.
covered_month_exact_example : covered_month may_31 ≡ month_of may_31
unfolding month_before days_in
covered_month_exact_example = covered_month_exact may_31 may_31-IsDate

covered_in_january : covered_month (record { year = 2026; month = 1; day = 31 }) ≡ december
unfolding covered_month
covered_in_january = refl

month_from_index-month_index_example : month_from_index (month_index december) ≡ december
month_from_index-month_index_example = month_from_index-month_index december (omega arith)

month_index-month_from_index_example :
    IsMonth (month_from_index 24312) × (month_index (month_from_index 24312) ≡ 24312)
month_index-month_from_index_example = month_index-month_from_index 24312 (omega arith)
