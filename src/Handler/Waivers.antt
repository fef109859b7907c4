-- ===== src/Handler/Waivers.antt =====
-- internal/handler/waivers.go: WaivePayment and UnwaivePayment. A month is waived in a statement of
-- its own, with no transaction around the range.
pub mod Range
pub mod Undo
use bank_system_public.Base.{
  ℕ, zero, suc, ◌+◌, ◌-◌, ◌%◌, ◌^◌, String, Bool, true, false, not, ◌&&◌, ◌||◌, Option, none, some,
  List, [], ◌∷◌, ◌++◌, str_eq, ltb, is_set, if◌then◌else◌,
}
use bank_system_public.Base.Int.{ℤ, pos, ltb_ℤ}
use bank_system_public.Calendar.{MonthRef, month_index, month_from_index}
use bank_system_public.Store.{
  Waiver, Session, Action, pure, raise, require, ◌>>=◌, ◌>>◌, on_failure, member_exists,
  payment_coverage_exists, create_payment_waiver, get_payment_waiver, delete_payment_waiver,
}
use bank_system_public.Handler.Http.{
  HttpError, bad_request, not_found, Handler, internal, parse_id, is_month_entry, month_entry,
  or_bad_request,
}

pub record WaiveRequest : Type 0 where
  pub year : ℤ
  pub month : ℤ
  pub reason : String
  pub end_year : Option ℤ
  pub end_month : Option ℤ

pub record WaiveResponse : Type 0 where
  pub member_number : ℕ
  pub waived : List Waiver
  pub skipped : List MonthRef

-- The months of a valid request, as an index and a number of months from there, and whether it is
-- a range.
pub record Months : Type 0 where
  pub first : ℕ
  pub count : ℕ
  pub is_range : Bool

abbrev pub single : MonthRef → Months
single m = record { first = month_index m; count = 1; is_range = false }

abbrev pub up_to : MonthRef → MonthRef → Months
up_to first last = record {
  first = month_index first;
  count = month_index last + 1 - month_index first;
  is_range = true;
}

-- `for index := first; index <= last; index++` over a range that does not end before it starts.
abbrev pub valid_range : ℕ → MonthRef → ℤ → ℤ → Option Months
valid_range max_year first end_year end_month =
    if not (is_month_entry max_year end_year end_month)
    then none
    else if ltb (month_index (month_entry end_year end_month)) (month_index first)
    then none
    else some (up_to first (month_entry end_year end_month))

abbrev pub requested_end : ℕ → MonthRef → Option ℤ → Option ℤ → Option Months
requested_end max_year first none none = some (single first)
requested_end max_year first (some y) (some m) = valid_range max_year first y m
requested_end max_year first none (some m) = none
requested_end max_year first (some y) none = none

-- The checks on the request, with strings.TrimSpace as `trim`.
abbrev pub requested_months : (String → String) → ℕ → WaiveRequest → Option Months
requested_months trim max_year request =
    if not (is_month_entry max_year request.year request.month)
    then none
    else if str_eq (trim request.reason) ""
    then none
    else requested_end max_year (month_entry request.year request.month) request.end_year
        request.end_month

-- A month that a payment covers.
abbrev pub skip_month : MonthRef → Bool → WaiveResponse → Handler WaiveResponse
skip_month m false acc = raise bad_request
skip_month m true acc = pure (record acc { skipped = acc.skipped ++ m ∷ [] })

abbrev pub write_waiver : ℕ → MonthRef → String → WaiveResponse → Handler WaiveResponse
write_waiver member m reason acc = do
  _ ← on_failure (create_payment_waiver member m reason) internal
  waiver ← on_failure (get_payment_waiver member m) internal
  pure (record acc { waived = acc.waived ++ waiver ∷ [] })

abbrev pub settle : ℕ → MonthRef → String → Bool → WaiveResponse → Bool → Handler WaiveResponse
settle member m reason is_range acc true = skip_month m is_range acc
settle member m reason is_range acc false = write_waiver member m reason acc

-- One round of the loop.
unfoldable pub waive_month : ℕ → String → Bool → MonthRef → WaiveResponse → Handler WaiveResponse
waive_month member reason is_range m acc =
    on_failure (payment_coverage_exists member m) internal >>= settle member m reason is_range acc

unfoldable pub waive_months : ℕ → String → Bool → ℕ → ℕ → WaiveResponse → Handler WaiveResponse
waive_months member reason is_range zero index acc = pure acc
waive_months member reason is_range (suc n) index acc =
    waive_month member reason is_range (month_from_index index) acc
    >>= waive_months member reason is_range n (index + 1)

abbrev pub no_months : ℕ → WaiveResponse
no_months member = record { member_number = member; waived = []; skipped = [] }

-- WaivePayment; `max_year` is next year by time.Now.
unfoldable pub waive_payment :
    (String → String) → ℕ → Option ℤ → Option WaiveRequest → Handler WaiveResponse
waive_payment trim max_year path body = do
  member ← or_bad_request (parse_id path)
  request ← or_bad_request body
  months ← or_bad_request (requested_months trim max_year request)
  exists ← on_failure (member_exists member) internal
  _ ← require exists bad_request
  waive_months member (trim request.reason) months.is_range months.count months.first
      (no_months member)

-- int32(year) of a positive year. The numbers from 2 ^ 31 up stand for the negative years, which no
-- row has either.
abbrev pub narrowed : MonthRef → MonthRef
narrowed m = record { year = m.year % 2 ^ 32; month = m.month }

abbrev pub path_month : Option ℤ → Option ℤ → Option MonthRef
path_month none m = none
path_month (some y) none = none
path_month (some y) (some m) =
    if ltb_ℤ y (pos 1) || ltb_ℤ m (pos 1) || ltb_ℤ (pos 12) m
    then none
    else some (narrowed (month_entry y m))

-- UnwaivePayment
unfoldable pub unwaive_payment : Option ℤ → Option ℤ → Option ℤ → Handler (Unit {0})
unwaive_payment path year month = do
  member ← or_bad_request (parse_id path)
  m ← or_bad_request (path_month year month)
  deleted ← on_failure (delete_payment_waiver member m) internal
  require deleted not_found
