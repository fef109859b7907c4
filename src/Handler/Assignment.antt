-- ===== src/Handler/Assignment.antt =====
-- internal/handler/transactions.go: AssignTransaction, UnassignTransaction and the transaction
-- detail that GetTransaction and AssignTransaction answer with.
pub mod Writes
pub mod Assigned
pub mod Unassigned
use bank_system_public.Base.{
  ℕ, ◌+◌, String, Bool, true, false, not, ◌&&◌, ◌||◌, Option, none, some, List, [], ◌∷◌, map,
  str_eq, ltb, ◌==◌, is_set, if◌then◌else◌,
}
use bank_system_public.Base.Int.{ℤ, pos, negsuc, ltb_ℤ, pos_part}
use bank_system_public.CategoryId
use bank_system_public.Calendar.{Date, MonthRef, covered_month}
use bank_system_public.Store.{
  TransactionDetail, AssignTransactionToMemberParams, Session, Action, Failure, pure, raise,
  require, ◌>>=◌, ◌>>◌, on_failure, in_transaction, member_exists, category_exists,
  get_transaction_detail, assign_transaction_to_member, unassign_row,
  delete_coverage_for_transaction, insert_coverage_row, list_coverage_for_transaction,
}
use bank_system_public.Processing.{fallback_category}
use bank_system_public.Handler.Http.{
  HttpError, bad_request, Handler, internal, missing_row, parse_id, is_month_entry, month_entry,
  or_bad_request,
}

-- An entry of `covers` as JSON gives it.
pub record CoversEntry : Type 0 where
  pub year : ℤ
  pub month : ℤ

pub record AssignTransactionRequest : Type 0 where
  pub member_number : Option ℤ
  pub category_id : Option ℕ
  pub covers : List CoversEntry
  pub admin_comment : Option String

-- transactionDetail: the item and its covered months.
pub record DetailResponse : Type 0 where
  pub item : TransactionDetail
  pub covered_months : List MonthRef

-- writeTransactionDetail
unfoldable pub write_transaction_detail : ℕ → Handler DetailResponse
write_transaction_detail id = do
  row ← on_failure (get_transaction_detail id) internal
  months ← on_failure (list_coverage_for_transaction id) internal
  pure (record { item = row; covered_months = months })

-- GetTransaction
unfoldable pub get_transaction : Option ℤ → Handler DetailResponse
get_transaction path = do
  id ← or_bad_request (parse_id path)
  _ ← on_failure (get_transaction_detail id) missing_row
  write_transaction_detail id

abbrev pub or_membership_fee : Option ℕ → ℕ
or_membership_fee none = CategoryId.membership_fee
or_membership_fee (some id) = id

-- `MemberNumber != nil && *MemberNumber < 1`
abbrev pub is_member_number : Option ℤ → Bool
is_member_number none = true
is_member_number (some n) = not (ltb_ℤ n (pos 1))

abbrev pub requested_member : Option ℤ → Option ℕ
requested_member none = none
requested_member (some n) = some (pos_part n)

abbrev pub are_covers : ℕ → List CoversEntry → Bool
are_covers max_year [] = true
are_covers max_year (c ∷ cs) = is_month_entry max_year c.year c.month && are_covers max_year cs

abbrev pub covers_months : List CoversEntry → List MonthRef
covers_months = map (λ c. month_entry c.year c.month)

-- `len(request.Covers) > 0` asks for the membership fee and a member.
abbrev pub may_cover : List CoversEntry → ℕ → Option ℤ → Bool
may_cover [] category member = true
may_cover (c ∷ cs) category member = category == CategoryId.membership_fee && is_set member

-- The checks on the request before any query.
abbrev pub is_valid : ℕ → AssignTransactionRequest → Bool
is_valid max_year request =
    is_member_number request.member_number
    && may_cover request.covers (or_membership_fee request.category_id) request.member_number
    && are_covers max_year request.covers

abbrev pub or_default_month : List CoversEntry → Date → List MonthRef
or_default_month [] date = covered_month date ∷ []
or_default_month (c ∷ cs) date = covers_months (c ∷ cs)

-- `months`: empty unless `coverable`.
abbrev pub months_to_cover : AssignTransactionRequest → Date → List MonthRef
months_to_cover request date =
    if or_membership_fee request.category_id == CategoryId.membership_fee
      && is_set request.member_number
    then or_default_month request.covers date
    else []

abbrev pub manual_match : Option ℕ → Option String
manual_match none = none
manual_match (some member) = some "manual"

abbrev pub or_no_comment : Option String → Option String
or_no_comment none = none
or_no_comment (some text) = if str_eq text "" then none else some text

abbrev pub assignment : ℕ → AssignTransactionRequest → AssignTransactionToMemberParams
assignment id request = record {
  id = id;
  member_number = requested_member request.member_number;
  category_id = or_membership_fee request.category_id;
  matched_by = manual_match (requested_member request.member_number);
  admin_comment = or_no_comment request.admin_comment;
}

-- `for _, m := range months`, with *request.MemberNumber; without a member there are no months.
unfoldable pub insert_months : ℕ → Option ℕ → List MonthRef → Handler (Unit {0})
insert_months id none ms = pure tt
insert_months id (some member) [] = pure tt
insert_months id (some member) (m ∷ ms) =
    on_failure
      (insert_coverage_row
        (record { processed_transaction_id = id; member_number = member; covers = m }))
      internal
    >> insert_months id (some member) ms

-- The body of the database transaction.
unfoldable pub write_assignment : ℕ → AssignTransactionRequest → List MonthRef → Handler (Unit {0})
write_assignment id request months =
    on_failure (assign_transaction_to_member (assignment id request)) missing_row
    >> on_failure (delete_coverage_for_transaction id) internal
    >> insert_months id (requested_member request.member_number) months

abbrev pub check_member : Option ℕ → Handler (Unit {0})
check_member none = pure tt
check_member (some member) =
    on_failure (member_exists member) internal >>= λ exists. require exists bad_request

unfoldable pub assign_valid : ℕ → AssignTransactionRequest → Handler DetailResponse
assign_valid id request = do
  _ ← check_member (requested_member request.member_number)
  exists ← on_failure (category_exists (or_membership_fee request.category_id)) internal
  _ ← require exists bad_request
  detail ← on_failure (get_transaction_detail id) missing_row
  _ ←
      in_transaction internal internal
        (write_assignment id request (months_to_cover request detail.raw.transaction_date))
  write_transaction_detail id

-- AssignTransaction; `max_year` is next year by time.Now.
unfoldable pub assign_transaction :
    ℕ → Option ℤ → Option AssignTransactionRequest → Handler DetailResponse
assign_transaction max_year path body = do
  id ← or_bad_request (parse_id path)
  request ← or_bad_request body
  _ ← require (is_valid max_year request) bad_request
  assign_valid id request

unfoldable pub clear_assignment : ℕ → String → Handler (Unit {0})
clear_assignment id direction =
    on_failure (delete_coverage_for_transaction id) internal
    >> on_failure (unassign_row id (fallback_category direction)) missing_row
    >> pure tt

-- UnassignTransaction
unfoldable pub unassign_transaction : Option ℤ → Handler (Unit {0})
unassign_transaction path = do
  id ← or_bad_request (parse_id path)
  detail ← on_failure (get_transaction_detail id) missing_row
  in_transaction internal internal (clear_assignment id detail.transaction.direction)
