-- ===== src/Store/Waivers.antt =====
-- The statements on payment_waivers, and the missing-payment query with the member_arrears view
-- (internal/db/queries.sql.go, migrations/20260911000003_payment_waivers.sql).
pub mod Owed
pub mod Missing
use Prim.Native.Nat.{min}
use bank_system_public.Base.{
  ℕ, zero, suc, ◌+◌, ◌-◌, String, Bool, false, not, ◌&&◌, ◌||◌, Option, none, some, List, [], ◌∷◌,
  ◌++◌, leb, ltb, ◌==◌, if◌then◌else◌, first_row, any_row, where_rows,
}
use bank_system_public.Calendar.{
  Date, MonthRef, same_month, month_of, month_index, month_from_index,
}
use bank_system_public.Store.Schema.{Member, Coverage, Waiver, Db}
use bank_system_public.Store.Monad.{ok, Query, statement, select, select_one}

abbrev pub covers_month : ℕ → MonthRef → Coverage → Bool
covers_month member m c = c.member_number == member && same_month c.covers m

abbrev pub waives_month : ℕ → MonthRef → Waiver → Bool
waives_month member m w = w.member_number == member && same_month w.covers m

abbrev pub is_paid : Db → ℕ → MonthRef → Bool
is_paid db member m = any_row (covers_month member m) db.coverage

abbrev pub is_waived : Db → ℕ → MonthRef → Bool
is_waived db member m = any_row (waives_month member m) db.waivers

unfoldable pub payment_coverage_exists : ℕ → MonthRef → Query Bool
payment_coverage_exists member m = select (λ db. is_paid db member m)

-- ON CONFLICT (member_number, covers_year, covers_month) DO NOTHING
abbrev pub add_waiver : ℕ → MonthRef → String → ℕ → List Waiver → List Waiver
add_waiver member m reason now rows =
    if any_row (waives_month member m) rows
    then rows
    else rows
      ++ record { member_number = member; covers = m; reason = reason; created_at = now } ∷ []

unfoldable pub create_payment_waiver : ℕ → MonthRef → String → Query (Unit {0})
create_payment_waiver member m reason =
    statement (λ db. ok (tt, record db { waivers = add_waiver member m reason db.now db.waivers }))

unfoldable pub get_payment_waiver : ℕ → MonthRef → Query Waiver
get_payment_waiver member m = select_one (λ db. first_row (waives_month member m) db.waivers)

-- The answer is whether a row was deleted.
unfoldable pub delete_payment_waiver : ℕ → MonthRef → Query Bool
delete_payment_waiver member m = statement (λ db. ok (
  is_waived db member m,
  record db { waivers = where_rows (λ w. not (waives_month member m w)) db.waivers },
))

-- LEAST(date_trunc('month', COALESCE(fee_stop_date, CURRENT_DATE)), current month - 2 months), as a
-- month index.
abbrev pub stop_or_today : Option Date → Date → Date
stop_or_today none today = today
stop_or_today (some stop) today = stop

abbrev pub last_due : Db → Member → ℕ
last_due db m =
    min (month_index (month_of (stop_or_today m.fee_stop_date db.today)))
      (month_index (month_of db.today) - 2)

-- `date_trunc('month', fee_start_date) <= month`; false for NULL
abbrev pub started_by : Option Date → ℕ → Bool
started_by none index = false
started_by (some start) index = leb (month_index (month_of start)) index

abbrev pub is_unsettled : Db → ℕ → MonthRef → Bool
is_unsettled db member m = not (is_paid db member m) && not (is_waived db member m)

-- The WHERE clause of ListMembersMissingPayment.
unfoldable pub is_missing : Db → MonthRef → Member → Bool
is_missing db month m =
    started_by m.fee_start_date (month_index month)
    && leb (month_index month) (last_due db m)
    && is_unsettled db m.member_number month

pub record MissingMember : Type 0 where
  pub member_number : ℕ
  pub total_missed_months : ℕ
  pub has_ever_paid : Bool

-- generate_series over the months from an index up, by the number of months left
unfoldable pub missed_from : Db → ℕ → ℕ → ℕ → ℕ
missed_from db member zero index = 0
missed_from db member (suc n) index =
    (if is_unsettled db member (month_from_index index) then 1 else 0)
    + missed_from db member n (index + 1)

abbrev pub missed_since : Db → Member → Option Date → ℕ
missed_since db m none = 0
missed_since db m (some start) =
    missed_from db m.member_number (last_due db m + 1 - month_index (month_of start))
      (month_index (month_of start))

-- The row of member_arrears.
abbrev pub arrears : Db → Member → MissingMember
arrears db m = record {
  member_number = m.member_number;
  total_missed_months = missed_since db m m.fee_start_date;
  has_ever_paid = any_row (λ c. c.member_number == m.member_number) db.coverage;
}

-- ORDER BY total_missed_months DESC, member_number
abbrev pub goes_before : MissingMember → MissingMember → Bool
goes_before a b =
    ltb b.total_missed_months a.total_missed_months
    || a.total_missed_months == b.total_missed_months && leb a.member_number b.member_number

unfoldable pub insert_missing : MissingMember → List MissingMember → List MissingMember
insert_missing a [] = a ∷ []
insert_missing a (b ∷ bs) =
    let rest = insert_missing a bs in if goes_before a b then a ∷ b ∷ bs else b ∷ rest

unfoldable pub missing_rows : Db → MonthRef → List Member → List MissingMember
unfolding insert_missing is_missing missed_from month_index month_from_index
missing_rows db month [] = []
missing_rows db month (m ∷ ms) =
    let rest = missing_rows db month ms in
    if is_missing db month m then insert_missing (arrears db m) rest else rest

unfoldable pub list_members_missing_payment : MonthRef → Query (List MissingMember)
list_members_missing_payment month = select (λ db. missing_rows db month db.members)
