-- ===== src/Store/Transactions.antt =====
-- The statements on raw_transactions, processed_transactions and payment_coverage
-- (internal/db/queries.sql.go).
use bank_system_public.Base.{
  ℕ, ◌+◌, String, Bool, true, false, not, ◌&&◌, ◌||◌, Option, none, some, List, [], ◌∷◌, ◌++◌,
  str_eq, ◌==◌, leb, if◌then◌else◌, first_row, any_row, where_rows, update_rows,
}
use bank_system_public.Calendar.{Date, MonthRef, same_month, month_index, on_or_before}
use bank_system_public.Store.Schema.{
  RawTransaction, ProcessedTransaction, Coverage, Category, BankAccount, Db,
}
use bank_system_public.Store.Monad.{
  Result, Failure, ok, err, unique_violation, Query, statement, select, select_one, or_no_rows,
}

-- LEFT JOIN processed_transactions ... WHERE pt.id IS NULL
abbrev pub is_processed : List ProcessedTransaction → RawTransaction → Bool
is_processed processed rt = any_row (λ pt. pt.raw_transaction_id == rt.id) processed

abbrev pub unprocessed : Db → List RawTransaction
unprocessed db = where_rows (λ rt. not (is_processed db.processed rt)) db.raw

unfoldable pub list_unprocessed_transactions : Query (List RawTransaction)
list_unprocessed_transactions = select unprocessed

pub record CreateProcessedTransactionParams : Type 0 where
  pub raw_transaction_id : ℕ
  pub member_number : Option ℕ
  pub category_id : ℕ
  pub direction : String
  pub matched_by : Option String
  pub categorization_rule_id : Option ℕ

-- The row that the INSERT writes: the arguments, and the columns' defaults.
abbrev pub processed_row : ℕ → CreateProcessedTransactionParams → ProcessedTransaction
processed_row id p = record {
  id = id;
  raw_transaction_id = p.raw_transaction_id;
  member_number = p.member_number;
  direction = p.direction;
  matched_by = p.matched_by;
  is_public_visible = false;
  admin_comment = none;
  category_set_manually = false;
  categorization_rule_id = p.categorization_rule_id;
  category_id = p.category_id;
}

-- raw_transaction_id is UNIQUE.
abbrev pub insert_processed :
    CreateProcessedTransactionParams → Db → Result Failure (ProcessedTransaction × Db)
insert_processed p db =
    if any_row (λ pt. pt.raw_transaction_id == p.raw_transaction_id) db.processed
    then err unique_violation
    else ok (
      processed_row db.next_id p,
      record db {
        processed = db.processed ++ processed_row db.next_id p ∷ [];
        next_id = db.next_id + 1;
      },
    )

unfoldable pub create_processed_transaction :
    CreateProcessedTransactionParams → Query ProcessedTransaction
create_processed_transaction p = statement (insert_processed p)

-- ON CONFLICT (processed_transaction_id, covers_year, covers_month) DO NOTHING
abbrev pub same_coverage : Coverage → Coverage → Bool
same_coverage a b =
    a.processed_transaction_id == b.processed_transaction_id && same_month a.covers b.covers

abbrev pub add_coverage : Coverage → List Coverage → List Coverage
add_coverage c rows = if any_row (same_coverage c) rows then rows else rows ++ c ∷ []

unfoldable pub create_payment_coverage : Coverage → Query (Unit {0})
create_payment_coverage c =
    statement (λ db. ok (tt, record db { coverage = add_coverage c db.coverage }))

unfoldable pub insert_coverage_row : Coverage → Query (Unit {0})
insert_coverage_row c =
    statement (λ db. ok (tt, record db { coverage = add_coverage c db.coverage }))

abbrev pub coverage_without : ℕ → List Coverage → List Coverage
coverage_without id = where_rows (λ c. not (c.processed_transaction_id == id))

unfoldable pub delete_coverage_for_transaction : ℕ → Query (Unit {0})
delete_coverage_for_transaction id =
    statement (λ db. ok (tt, record db { coverage = coverage_without id db.coverage }))

-- ORDER BY covers_year, covers_month
insert_by_month : MonthRef → List MonthRef → List MonthRef
insert_by_month m [] = m ∷ []
insert_by_month m (n ∷ ns) =
    let rest = insert_by_month m ns in
    if leb (month_index m) (month_index n) then m ∷ n ∷ ns else n ∷ rest

unfoldable pub sorted_months : List Coverage → List MonthRef
unfolding insert_by_month month_index
sorted_months [] = []
sorted_months (c ∷ cs) = insert_by_month c.covers (sorted_months cs)

unfoldable pub list_coverage_for_transaction : ℕ → Query (List MonthRef)
list_coverage_for_transaction id =
    select (λ db. sorted_months (where_rows (λ c. c.processed_transaction_id == id) db.coverage))

-- `matched_by IS NOT DISTINCT FROM 'manual'`
abbrev pub is_manual_match : Option String → Bool
is_manual_match none = false
is_manual_match (some by) = str_eq by "manual"

-- A row set by hand, which automatic categorization leaves alone.
abbrev pub is_set_by_hand : ProcessedTransaction → Bool
is_set_by_hand pt = pt.category_set_manually || is_manual_match pt.matched_by

pub record Candidate : Type 0 where
  pub id : ℕ
  pub direction : String
  pub category_id : ℕ
  pub member_number : Option ℕ
  pub matched_by : Option String
  pub categorization_rule_id : Option ℕ
  pub transaction_date : Date
  pub amount : String
  pub counter_account_number : Option String
  pub variable_symbol : Option String
  pub constant_symbol : Option String
  pub comment : Option String
  pub user_identification : Option String
  pub message_for_recipient : Option String
  pub transaction_type : Option String

abbrev pub candidate_of : ProcessedTransaction → RawTransaction → Candidate
candidate_of pt rt = record {
  id = pt.id;
  direction = pt.direction;
  category_id = pt.category_id;
  member_number = pt.member_number;
  matched_by = pt.matched_by;
  categorization_rule_id = pt.categorization_rule_id;
  transaction_date = rt.transaction_date;
  amount = rt.amount;
  counter_account_number = rt.counter_account_number;
  variable_symbol = rt.variable_symbol;
  constant_symbol = rt.constant_symbol;
  comment = rt.comment;
  user_identification = rt.user_identification;
  message_for_recipient = rt.message_for_recipient;
  transaction_type = rt.transaction_type;
}

abbrev pub raw_of : List RawTransaction → ProcessedTransaction → Option RawTransaction
raw_of raw pt = first_row (λ rt. rt.id == pt.raw_transaction_id) raw

abbrev pub candidates_with :
    Date → ProcessedTransaction → Option RawTransaction → List Candidate → List Candidate
candidates_with from pt none rest = rest
candidates_with from pt (some rt) rest =
    if not (is_set_by_hand pt) && on_or_before from rt.transaction_date
    then candidate_of pt rt ∷ rest
    else rest

unfoldable pub reapply_candidates :
    Date → List RawTransaction → List ProcessedTransaction → List Candidate
unfolding on_or_before
reapply_candidates from raw [] = []
reapply_candidates from raw (pt ∷ pts) =
    candidates_with from pt (raw_of raw pt) (reapply_candidates from raw pts)

unfoldable pub list_reapply_candidates : Date → Query (List Candidate)
list_reapply_candidates from = select (λ db. reapply_candidates from db.raw db.processed)

pub record ReapplyCategorizationParams : Type 0 where
  pub id : ℕ
  pub category_id : ℕ
  pub member_number : Option ℕ
  pub matched_by : Option String
  pub categorization_rule_id : Option ℕ

abbrev pub is_open_row : ℕ → ProcessedTransaction → Bool
is_open_row id pt = pt.id == id && not (is_set_by_hand pt)

abbrev pub recategorized : ReapplyCategorizationParams → ProcessedTransaction → ProcessedTransaction
recategorized p pt = record pt {
  category_id = p.category_id;
  member_number = p.member_number;
  matched_by = p.matched_by;
  categorization_rule_id = p.categorization_rule_id;
}

-- The answer is whether a row was written (`rows == 0` is false); ids are unique.
unfoldable pub reapply_categorization : ReapplyCategorizationParams → Query Bool
reapply_categorization p = statement (λ db. ok (
  any_row (is_open_row p.id) db.processed,
  record db { processed = update_rows (is_open_row p.id) (recategorized p) db.processed },
))

-- GetTransactionDetail's row: the transaction with its bank data and its category.
pub record TransactionDetail : Type 0 where
  pub transaction : ProcessedTransaction
  pub raw : RawTransaction
  pub category : Category
  pub bank_account_color : Option String

abbrev color_of : Option BankAccount → Option String
color_of none = none
color_of (some account) = account.color

abbrev detail_of :
    Db → ProcessedTransaction → Option RawTransaction → Option Category → Option TransactionDetail
detail_of db pt (some rt) (some tc) = some (record {
  transaction = pt;
  raw = rt;
  category = tc;
  bank_account_color = color_of (first_row (λ ba. ba.id == rt.bank_account_id) db.accounts);
})
detail_of db pt (some rt) none = none
detail_of db pt none c = none

abbrev with_detail : Db → Option ProcessedTransaction → Option TransactionDetail
with_detail db none = none
with_detail db (some pt) =
    detail_of db pt (raw_of db.raw pt) (first_row (λ tc. tc.id == pt.category_id) db.categories)

abbrev pub transaction_detail : ℕ → Db → Option TransactionDetail
transaction_detail id db = with_detail db (first_row (λ pt. pt.id == id) db.processed)

unfoldable pub get_transaction_detail : ℕ → Query TransactionDetail
get_transaction_detail id = select_one (transaction_detail id)

-- UPDATE processed_transactions ... WHERE id = ... RETURNING id
abbrev pub update_processed :
    ℕ → (ProcessedTransaction → ProcessedTransaction) → Db → Result Failure (ℕ × Db)
update_processed id f db =
    or_no_rows (record db { processed = update_rows (λ pt. pt.id == id) f db.processed })
      (if any_row (λ pt. pt.id == id) db.processed then some id else none)

pub record AssignTransactionToMemberParams : Type 0 where
  pub id : ℕ
  pub member_number : Option ℕ
  pub category_id : ℕ
  pub matched_by : Option String
  pub admin_comment : Option String

abbrev pub assigned : AssignTransactionToMemberParams → ProcessedTransaction → ProcessedTransaction
assigned p pt = record pt {
  member_number = p.member_number;
  category_id = p.category_id;
  matched_by = p.matched_by;
  admin_comment = p.admin_comment;
  category_set_manually = true;
}

unfoldable pub assign_transaction_to_member : AssignTransactionToMemberParams → Query ℕ
assign_transaction_to_member p = statement (update_processed p.id (assigned p))

abbrev pub unassigned : ℕ → ProcessedTransaction → ProcessedTransaction
unassigned category_id pt = record pt {
  member_number = none;
  matched_by = none;
  category_id = category_id;
  category_set_manually = false;
}

-- The UPDATE alone; the handler around it is Assignment.unassign_transaction.
unfoldable pub unassign_row : ℕ → ℕ → Query ℕ
unassign_row id category_id = statement (update_processed id (unassigned category_id))
