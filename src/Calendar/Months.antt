-- ===== src/Calendar/Months.antt =====
-- Month indices number the months one after the other.
use bank_system_public.Base.{ℕ, ◌+◌, ◌≤◌, ◌≡◌, arith}
use bank_system_public.Calendar.{MonthRef, IsMonth, month_after, month_index, month_from_index}

-- monthFromIndex undoes monthIndex on every month of the calendar.
pub month_from_index-month_index : (m : MonthRef) → IsMonth m → month_from_index (month_index m) ≡ m
unfolding month_from_index month_index
month_from_index-month_index m h = ground arith

-- Every index from 1 up is that of a month of the calendar.
pub month_index-month_from_index :
    (i : ℕ) → 1 ≤ i → IsMonth (month_from_index i) × (month_index (month_from_index i) ≡ i)
unfolding month_from_index month_index
month_index-month_from_index i h = ground arith

pub month_index-month_after :
    (m : MonthRef) → IsMonth m → month_index (month_after m) ≡ month_index m + 1
unfolding month_index month_after
month_index-month_after m h = ground arith
