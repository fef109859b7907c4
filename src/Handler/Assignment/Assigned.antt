-- ===== src/Handler/Assignment/Assigned.antt =====
-- What AssignTransaction leaves, however it ends.
use bank_system_public.Base.{
  ℕ, ◌≡◌, refl, ◌∙◌, sym, ap, Bool, true, false, not, ◌&&◌, Option, none, some, List, [], ◌∷◌,
  arith, ◌≢◌, Pairs, Pairs-update_rows, ◌⊎◌, inl, inr, ◌==◌, any_row, where_rows, where_rows_idem,
  update_rows,
}
use mathlib.Core.Path.{subst}
use bank_system_public.Base.Int.{ℤ}
use bank_system_public.Calendar.{Date, MonthRef, same_month}
use bank_system_public.Store.{
  Db, ProcessedTransaction, TransactionDetail, is_set_by_hand, transaction_detail, sorted_months,
  Session, Result, ok, err, continue, ◌>>=◌, require, on_failure, in_transaction, coverage_without,
  assigned, member_exists, category_exists, get_transaction_detail, list_coverage_for_transaction,
}
use bank_system_public.Store.Effects.{
  ReadOnly, ReadOnly-select, ReadOnly-on_failure, ReadOnly-bind, ReadOnly-pure, after_ReadOnly,
}
use bank_system_public.Store.Reads.{after_read, after_row}
use bank_system_public.Handler.Http.{
  HttpError, bad_request, not_found, conflict, too_large, bad_gateway, forbidden, internal_error,
  internal, missing_row, parse_id,
}
use bank_system_public.Handler.Assignment.{
  AssignTransactionRequest, DetailResponse, assignment, requested_member, or_membership_fee,
  or_no_comment, months_to_cover, is_valid, check_member, write_assignment,
  write_transaction_detail, assign_valid, assign_transaction,
}
use bank_system_public.Handler.Assignment.Writes.{
  reassigned, add_months, AllOrNothing, covers_for, write_assignment-AllOrNothing,
  coverage_without-add_months, covers-add_months, covers-coverage_without,
}

-- A row with the assignment of the request: its member, its category or else the membership fee, its
-- comment, set by hand. The other columns are as they were.
pub record IsSetBy (request : AssignTransactionRequest) (pt pt' : ProcessedTransaction)
    : Type 0 where
  pub member : pt'.member_number ≡ requested_member request.member_number
  pub category : pt'.category_id ≡ or_membership_fee request.category_id
  pub comment : pt'.admin_comment ≡ or_no_comment request.admin_comment
  pub set_manually : pt'.category_set_manually ≡ true
  pub kept : pt' ≡ record pt {
    member_number = pt'.member_number;
    category_id = pt'.category_id;
    matched_by = pt'.matched_by;
    admin_comment = pt'.admin_comment;
    category_set_manually = pt'.category_set_manually;
  }

-- The row with the id is set by the request, any other one is as it was.
abbrev pub SetsBy :
    ℕ → AssignTransactionRequest → ProcessedTransaction → ProcessedTransaction → Type 0
SetsBy id request pt pt' = ((pt.id ≡ id) × IsSetBy request pt pt') ⊎ ((pt.id ≢ id) × (pt' ≡ pt))

set_rows :
    (id : ℕ) (request : AssignTransactionRequest) (rows : List ProcessedTransaction)
    → Pairs
        (SetsBy id request)
        rows
        (update_rows (λ pt. pt.id == id) (assigned (assignment id request)) rows)
set_rows id request rows =
    Pairs-update_rows (SetsBy id request) _ _ rows
      (λ pt e. inl (
        ground (arith, e),
        record { member = refl; category = refl; comment = refl; set_manually = refl; kept = refl },
      ))
      (λ pt e. inr ((λ same. ground (arith, e, same)), refl))

-- The transaction's row has the assignment of the request and counts as set by hand. It covers exactly the months to cover,
-- whatever it covered before, and what other transactions cover, and all other tables, are as they
-- were.
pub record IsReassigned (id : ℕ) (request : AssignTransactionRequest) (d : TransactionDetail)
    (db db' : Db) : Type 0 where
  pub rows :
      db'.processed
      ≡ update_rows (λ pt. pt.id == id) (assigned (assignment id request)) db.processed
  pub columns : Pairs (SetsBy id request) db.processed db'.processed
  pub months :
      (m : MonthRef)
      → any_row (covers_for id m) db'.coverage
        ≡ any_row (λ n. same_month n m) (months_to_cover request d.raw.transaction_date)
  pub others : coverage_without id db'.coverage ≡ coverage_without id db.coverage
  pub by_hand : any_row (λ pt. pt.id == id && not (is_set_by_hand pt)) db'.processed ≡ false
  pub rest : db' ≡ record db { processed = db'.processed; coverage = db'.coverage }

-- The transaction was there, and has been assigned.
abbrev pub Assigned : ℕ → AssignTransactionRequest → Db → Db → Type 0
Assigned id request db db' =
    (d : TransactionDetail) × (transaction_detail id db ≡ some d) × IsReassigned id request d db db'

-- The response shows the transaction as it is in the database.
abbrev pub Shows : ℕ → DetailResponse → Db → Type 0
Shows id response db =
    (transaction_detail id db ≡ some response.item)
    × (response.covered_months
        ≡ sorted_months (where_rows (λ c. c.processed_transaction_id == id) db.coverage))

abbrev pub AssignEnds :
    ℕ → AssignTransactionRequest → Db → Result HttpError DetailResponse × Session → Type 0
AssignEnds id request db (ok response, s') = Assigned id request db s'.db × Shows id response s'.db
AssignEnds id request db (err internal_error, s') = (s'.db ≡ db) ⊎ Assigned id request db s'.db
AssignEnds id request db (err bad_request, s') = s'.db ≡ db
AssignEnds id request db (err not_found, s') = s'.db ≡ db
AssignEnds id request db (err conflict, s') = s'.db ≡ db
AssignEnds id request db (err too_large, s') = s'.db ≡ db
AssignEnds id request db (err bad_gateway, s') = s'.db ≡ db
AssignEnds id request db (err forbidden, s') = s'.db ≡ db

no_months_to_cover :
    (request : AssignTransactionRequest) (date : Date)
    → requested_member request.member_number ≡ none
    → months_to_cover request date ≡ []
no_months_to_cover request date h = ground arith

covered_rows :
    (id : ℕ) (request : AssignTransactionRequest) (date : Date) (db : Db) (member : Option ℕ)
    (m : MonthRef)
    → requested_member request.member_number ≡ member
    → any_row
        (covers_for id m)
        (add_months id member (months_to_cover request date) (coverage_without id db.coverage))
      ≡ any_row (λ n. same_month n m) (months_to_cover request date)
unfolding add_months
covered_rows id request date db none m h =
    covers-coverage_without id m db.coverage
    ∙ sym (ap (any_row (λ n. same_month n m)) (no_months_to_cover request date h))
covered_rows id request date db (some member) m h =
    covers-add_months id member m (months_to_cover request date) (coverage_without id db.coverage)
    ∙ rw (covers-coverage_without id m db.coverage) refl

set_by_hand :
    (id : ℕ) (request : AssignTransactionRequest) (rows : List ProcessedTransaction)
    → any_row
        (λ pt. pt.id == id && not (is_set_by_hand pt))
        (update_rows (λ pt. pt.id == id) (assigned (assignment id request)) rows)
      ≡ false
set_by_hand id request [] = refl
set_by_hand id request (pt ∷ rows) = ground (arith, set_by_hand id request rows)

IsReassigned-reassigned :
    (id : ℕ) (request : AssignTransactionRequest) (d : TransactionDetail) (db db' : Db)
    → db' ≡ reassigned id request (months_to_cover request d.raw.transaction_date) db
    → IsReassigned id request d db db'
IsReassigned-reassigned id request d db db' e =
    subst (IsReassigned id request d db) (sym e) (record {
      rows = refl;
      columns = set_rows id request db.processed;
      months = λ m.
          covered_rows id request d.raw.transaction_date db (requested_member request.member_number)
            m refl;
      others =
          coverage_without-add_months id (requested_member request.member_number)
            (months_to_cover request d.raw.transaction_date) (coverage_without id db.coverage)
          ∙ where_rows_idem (λ c. not (c.processed_transaction_id == id)) db.coverage;
      by_hand = set_by_hand id request db.processed;
      rest = refl;
    })

-- The detail that is written at the end.
Ends-detail :
    (id : ℕ) (request : AssignTransactionRequest) (db : Db) (s : Session)
    → Assigned id request db s.db
    → AssignEnds id request db (write_transaction_detail id s)
unfolding write_transaction_detail get_transaction_detail list_coverage_for_transaction
Ends-detail id request db s h =
    after_row (AssignEnds id request db) internal (transaction_detail id) _ s
      (λ t same. inr (kept t same)) (λ t same _. inr (kept t same))
      (λ row t same shown.
        after_read (AssignEnds id request db) internal _ _ t
          (λ u same'. inr (kept u (same' ∙ same)))
          (λ u same'. (
            kept u (same' ∙ same),
            (ap (transaction_detail id) (same' ∙ same) ∙ shown, ap coverage_shown (sym same')),
          )))
  where
    kept : (t : Session) → t.db ≡ s.db → Assigned id request db t.db
    kept t same = subst (Assigned id request db) (sym same) h

    coverage_shown : Db → List MonthRef
    coverage_shown db' =
        sorted_months (where_rows (λ c. c.processed_transaction_id == id) db'.coverage)

-- The part from the database transaction on.
Ends-write :
    (id : ℕ) (request : AssignTransactionRequest) (d : TransactionDetail) (db : Db) (s : Session)
    → transaction_detail id db ≡ some d
    → s.db ≡ db
    → AssignEnds id request db (
        (in_transaction internal internal
              (write_assignment id request (months_to_cover request d.raw.transaction_date))
            >>= λ _. write_transaction_detail id)
          s)
Ends-write id request d db s found same =
    let (r, t) = in_transaction internal internal (write_assignment id request months) s in
    go r t (write_assignment-AllOrNothing id request months s)
  where
    months : List MonthRef
    months = months_to_cover request d.raw.transaction_date

    go :
        (r : Result HttpError (Unit {0})) (t : Session)
        → AllOrNothing s.db (reassigned id request months s.db) (r, t)
        → AssignEnds id request db (continue r (λ _. write_transaction_detail id) t)
    go (ok _) t e =
        Ends-detail id request db t
          (d, found, IsReassigned-reassigned id request d db t.db (e ∙ rw same refl))
    go (err internal_error) t e = inl (e ∙ same)
    go (err bad_request) t e = e ∙ same
    go (err not_found) t e = e ∙ same
    go (err conflict) t e = e ∙ same
    go (err too_large) t e = e ∙ same
    go (err bad_gateway) t e = e ∙ same
    go (err forbidden) t e = e ∙ same

ReadOnly-check_member : (member : Option ℕ) → ReadOnly (check_member member)
unfolding member_exists
ReadOnly-check_member none = ReadOnly-pure tt
ReadOnly-check_member (some member) =
    ReadOnly-bind (on_failure (member_exists member) internal) _
      (ReadOnly-on_failure _ internal (ReadOnly-select _)) (λ exists. ReadOnly-require exists)
  where
    ReadOnly-require : (exists : Bool) → ReadOnly (require exists bad_request)
    ReadOnly-require true = record { at = λ s. refl }
    ReadOnly-require false = record { at = λ s. refl }

unchanged :
    (id : ℕ) (request : AssignTransactionRequest) (db : Db) (e : HttpError) (s : Session)
    → s.db ≡ db
    → AssignEnds id request db (err e, s)
unchanged id request db internal_error s e = inl e
unchanged id request db bad_request s e = e
unchanged id request db not_found s e = e
unchanged id request db conflict s e = e
unchanged id request db too_large s e = e
unchanged id request db bad_gateway s e = e
unchanged id request db forbidden s e = e

-- AssignTransaction on a valid request, with the checks against the database.
Ends-valid :
    (id : ℕ) (request : AssignTransactionRequest) (s : Session)
    → AssignEnds id request s.db (assign_valid id request s)
unfolding assign_valid get_transaction_detail category_exists
Ends-valid id request s =
    after_ReadOnly (AssignEnds id request s.db) (check_member member) _ s
      (ReadOnly-check_member member) (λ e t same. unchanged id request s.db e t same)
      (λ _ t _ same.
        after_read (AssignEnds id request s.db) internal _ _ t (λ u same'. inl (same' ∙ same))
          (λ u same'.
            checked (any_row (λ c. c.id == or_membership_fee request.category_id) t.db.categories) u
              (same' ∙ same)))
  where
    member : Option ℕ
    member = requested_member request.member_number

    checked :
        (exists : Bool) (u : Session)
        → u.db ≡ s.db
        → AssignEnds id request s.db (
            (require exists bad_request >>= λ _.
            on_failure (get_transaction_detail id) missing_row >>= λ detail.
            in_transaction internal internal
              (write_assignment id request (months_to_cover request detail.raw.transaction_date))
            >>= λ _. write_transaction_detail id)
              u)
    checked false u same = same
    checked true u same =
        after_row (AssignEnds id request s.db) missing_row (transaction_detail id) _ u
          (λ v same'. inl (same' ∙ same)) (λ v same' _. same' ∙ same)
          (λ d v same' found.
            Ends-write id request d s.db v (sym (ap (transaction_detail id) same) ∙ found)
              (same' ∙ same))

-- AssignTransaction, for a path with an id, ends with a response only when the transaction was there
-- and its row has been given the member, category, comment and the mark of the request; it then
-- covers exactly the months to cover, other transactions cover what they covered, nothing else has
-- changed, and the response shows the transaction as it now is. On 400 and 404 nothing has changed,
-- and on 500 either nothing has, or all of that has been written.
pub assign_transaction-AssignEnds :
    (max_year : ℕ) (path : Option ℤ) (request : AssignTransactionRequest) (s : Session) (id : ℕ)
    → parse_id path ≡ some id
    → AssignEnds id request s.db (assign_transaction max_year path (some request) s)
unfolding assign_transaction
assign_transaction-AssignEnds max_year path request s id h =
    rw h (checked (is_valid max_year request))
  where
    checked :
        (valid : Bool)
        → AssignEnds id request s.db
            ((require valid bad_request >>= λ _. assign_valid id request) s)
    checked true = Ends-valid id request s
    checked false = refl
