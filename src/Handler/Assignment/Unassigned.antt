-- ===== src/Handler/Assignment/Unassigned.antt =====
-- What UnassignTransaction leaves, however it ends.
use bank_system_public.Base.{
  ℕ, String, ◌≡◌, refl, ◌∙◌, sym, false, not, ◌&&◌, Option, some, List, [], ◌∷◌, arith, ◌==◌,
  any_row, any_row-deleted, where_rows_idem, update_rows, none, ◌≢◌, ◌⊎◌, inl, inr, Pairs,
  Pairs-update_rows,
}
use mathlib.Core.Path.{subst}
use bank_system_public.Base.Int.{ℤ}
use bank_system_public.Store.{
  Db, ProcessedTransaction, TransactionDetail, transaction_detail, Session, Result, ok, err,
  in_transaction, is_set_by_hand, coverage_without, unassigned, get_transaction_detail,
  unassign_row, delete_coverage_for_transaction,
}
use bank_system_public.Store.Reads.{after_row}
use bank_system_public.Processing.{fallback_category}
use bank_system_public.Processing.FirstMatch.{IsFallback, fallback_category-IsFallback}
use bank_system_public.Handler.Http.{HttpError, internal, missing_row, parse_id}
use bank_system_public.Handler.Assignment.{clear_assignment, unassign_transaction}
use bank_system_public.Handler.Assignment.Writes.{AllOrNothing}

-- The database with the assignment taken back.
abbrev cleared : ℕ → String → Db → Db
cleared id direction db = record db {
  processed =
      update_rows (λ pt. pt.id == id) (unassigned (fallback_category direction)) db.processed;
  coverage = coverage_without id db.coverage;
}

clear_assignment-AllOrNothing :
    (id : ℕ) (direction : String) (s : Session)
    → AllOrNothing s.db
        (cleared id direction s.db)
        (in_transaction internal internal (clear_assignment id direction) s)
unfolding in_transaction clear_assignment unassign_row delete_coverage_for_transaction
clear_assignment-AllOrNothing id direction s = ground arith

-- A row that has been taken back: no member, the fallback category of the direction, not set by hand.
-- The other columns are as they were.
pub record IsTakenBack (direction : String) (pt pt' : ProcessedTransaction) : Type 0 where
  pub no_member : pt'.member_number ≡ none
  pub no_match : pt'.matched_by ≡ none
  pub fallback : IsFallback direction pt'.category_id
  pub not_by_hand : pt'.category_set_manually ≡ false
  pub kept : pt' ≡ record pt {
    member_number = pt'.member_number;
    matched_by = pt'.matched_by;
    category_id = pt'.category_id;
    category_set_manually = pt'.category_set_manually;
  }

-- The row with the id is taken back, any other one is as it was.
abbrev pub TakesBack : ℕ → String → ProcessedTransaction → ProcessedTransaction → Type 0
TakesBack id direction pt pt' =
    ((pt.id ≡ id) × IsTakenBack direction pt pt') ⊎ ((pt.id ≢ id) × (pt' ≡ pt))

-- The row is back in its direction's fallback category, with no member. It is open to automatic
-- categorization again and covers no month. Everything else is as it was.
pub record IsCleared (id : ℕ) (d : TransactionDetail) (db db' : Db) : Type 0 where
  pub rows : Pairs (TakesBack id d.transaction.direction) db.processed db'.processed
  pub reopened : any_row (λ pt. pt.id == id && is_set_by_hand pt) db'.processed ≡ false
  pub no_months : any_row (λ c. c.processed_transaction_id == id) db'.coverage ≡ false
  pub others : coverage_without id db'.coverage ≡ coverage_without id db.coverage
  pub rest : db' ≡ record db { processed = db'.processed; coverage = db'.coverage }

opened :
    (id category : ℕ) (rows : List ProcessedTransaction)
    → any_row
        (λ pt. pt.id == id && is_set_by_hand pt)
        (update_rows (λ pt. pt.id == id) (unassigned category) rows)
      ≡ false
opened id category [] = refl
opened id category (pt ∷ rows) = ground (arith, opened id category rows)

taken_back :
    (id : ℕ) (direction : String) (rows : List ProcessedTransaction)
    → Pairs
        (TakesBack id direction)
        rows
        (update_rows (λ pt. pt.id == id) (unassigned (fallback_category direction)) rows)
taken_back id direction rows =
    Pairs-update_rows (TakesBack id direction) _ _ rows
      (λ pt e. inl (
        ground (arith, e),
        record {
          no_member = refl;
          no_match = refl;
          fallback = fallback_category-IsFallback direction;
          not_by_hand = refl;
          kept = refl;
        },
      ))
      (λ pt e. inr ((λ same. ground (arith, e, same)), refl))

IsCleared-cleared :
    (id : ℕ) (d : TransactionDetail) (db db' : Db)
    → db' ≡ cleared id d.transaction.direction db
    → IsCleared id d db db'
IsCleared-cleared id d db db' e = subst (IsCleared id d db) (sym e) (record {
  rows = taken_back id d.transaction.direction db.processed;
  reopened = opened id (fallback_category d.transaction.direction) db.processed;
  no_months = any_row-deleted (λ c. c.processed_transaction_id == id) db.coverage;
  others = where_rows_idem (λ c. not (c.processed_transaction_id == id)) db.coverage;
  rest = refl;
})

abbrev pub UnassignEnds : ℕ → Db → Result HttpError (Unit {0}) × Session → Type 0
UnassignEnds id db (ok _, s') =
    (d : TransactionDetail) × (transaction_detail id db ≡ some d) × IsCleared id d db s'.db
UnassignEnds id db (err e, s') = s'.db ≡ db

-- UnassignTransaction, for a path with an id, succeeds only when the transaction was there. Then its
-- row has no member, is in the fallback category of its direction and is open to automatic
-- categorization again, it covers no month, and everything else is as it was. An error leaves the
-- database as it was.
pub unassign_transaction-UnassignEnds :
    (path : Option ℤ) (s : Session) (id : ℕ)
    → parse_id path ≡ some id
    → UnassignEnds id s.db (unassign_transaction path s)
unfolding unassign_transaction get_transaction_detail
unassign_transaction-UnassignEnds path s id h = rw h (
    after_row (UnassignEnds id s.db) missing_row (transaction_detail id) _ s (λ t same. same)
      (λ t same _. same)
      (λ d t same found.
        let (r, u) =
          in_transaction internal internal (clear_assignment id d.transaction.direction) t in
        written d t same found r u (clear_assignment-AllOrNothing id d.transaction.direction t)))
  where
    written :
        (d : TransactionDetail) (t : Session)
        → t.db ≡ s.db
        → transaction_detail id s.db ≡ some d
        → (r : Result HttpError (Unit {0})) (u : Session)
        → AllOrNothing t.db (cleared id d.transaction.direction t.db) (r, u)
        → UnassignEnds id s.db (r, u)
    written d t same found (ok _) u e =
        (d, found, IsCleared-cleared id d s.db u.db (e ∙ rw same refl))
    written d t same found (err x) u e = e ∙ same
