-- ===== src/Handler/Assignment/Writes.antt =====
-- What assigning and unassigning a transaction write.
use bank_system_public.Base.{
  ℕ, ◌≡◌, refl, ◌∙◌, Bool, true, false, not, ◌&&◌, ◌||◌, Option, none, some, List, [], ◌∷◌, arith,
  inl, inr, ◌==◌, ==_refl, any_row, any_row-append, where_rows-append, update_rows, Bool-cases,
}
use mathlib.Core.List.{append-nil}
use bank_system_public.Calendar.{MonthRef, same_month}
use bank_system_public.Store.{
  Db, Coverage, Session, Failure, Result, ok, err, continue, later, next_fails, attempt,
  rename_error, in_transaction, add_coverage, same_coverage, coverage_without, assigned,
  assign_transaction_to_member, delete_coverage_for_transaction, insert_coverage_row,
}
use bank_system_public.Handler.Http.{HttpError, internal}
use bank_system_public.Handler.Assignment.{
  AssignTransactionRequest, assignment, requested_member, insert_months, write_assignment,
}

abbrev pub coverage_row : ℕ → ℕ → MonthRef → Coverage
coverage_row id member m = record {
  processed_transaction_id = id;
  member_number = member;
  covers = m;
}

-- The rows after one insert for each month.
unfoldable pub add_months : ℕ → Option ℕ → List MonthRef → List Coverage → List Coverage
add_months id none ms rows = rows
add_months id (some member) [] rows = rows
add_months id (some member) (m ∷ ms) rows =
    add_months id (some member) ms (add_coverage (coverage_row id member m) rows)

abbrev Inserts : ℕ → Option ℕ → List MonthRef → Db → Result HttpError (Unit {0}) × Session → Type 0
Inserts id member ms db (ok _, s') =
    s'.db ≡ record db { coverage = add_months id member ms db.coverage }
Inserts id member ms db (err e, s') = Unit

insert_months-Inserts :
    (id : ℕ) (member : Option ℕ) (ms : List MonthRef) (s : Session)
    → Inserts id member ms s.db (insert_months id member ms s)
unfolding insert_months add_months insert_coverage_row
insert_months-Inserts id none ms s = refl
insert_months-Inserts id (some member) [] s = refl
insert_months-Inserts id (some member) (m ∷ ms) s =
    start (next_fails s.faults) (insert_months-Inserts id (some member) ms inserted)
  where
    insert : Db → Result Failure (Unit {0} × Db)
    insert db =
        ok (tt, record db { coverage = add_coverage (coverage_row id member m) db.coverage })

    inserted : Session
    inserted = record {
      db = record s.db { coverage = add_coverage (coverage_row id member m) s.db.coverage };
      faults = later s.faults;
    }

    start :
        (fails : Bool)
        → Inserts id (some member) ms inserted.db (insert_months id (some member) ms inserted)
        → Inserts id (some member) (m ∷ ms) s.db (
            let (r, t) = attempt fails insert (record s { faults = later s.faults }) in
            continue (rename_error internal r) (λ _. insert_months id (some member) ms) t)
    start true h = tt
    start false h = h

-- The database with the assignment written.
abbrev pub reassigned : ℕ → AssignTransactionRequest → List MonthRef → Db → Db
reassigned id request months db = record db {
  processed = update_rows (λ pt. pt.id == id) (assigned (assignment id request)) db.processed;
  coverage =
      add_months id (requested_member request.member_number) months
        (coverage_without id db.coverage);
}

abbrev pub AllOrNothing : Db → Db → Result HttpError (Unit {0}) × Session → Type 0
AllOrNothing db target (ok _, s') = s'.db ≡ target
AllOrNothing db target (err e, s') = s'.db ≡ db

pub write_assignment-AllOrNothing :
    (id : ℕ) (request : AssignTransactionRequest) (months : List MonthRef) (s : Session)
    → AllOrNothing s.db
        (reassigned id request months s.db)
        (in_transaction internal internal (write_assignment id request months) s)
unfolding in_transaction write_assignment assign_transaction_to_member
    delete_coverage_for_transaction
write_assignment-AllOrNothing id request months s = ground (
  arith,
  insert_months-Inserts id (requested_member request.member_number) months (record {
    db = record s.db {
      processed = update_rows (λ pt. pt.id == id) (assigned (assignment id request)) s.db.processed;
      coverage = coverage_without id s.db.coverage;
    };
    faults = later (later (later s.faults));
  }),
)

-- The transaction covers the month.
abbrev pub covers_for : ℕ → MonthRef → Coverage → Bool
covers_for id m c = c.processed_transaction_id == id && same_month c.covers m

pub coverage_without-add_months :
    (id : ℕ) (member : Option ℕ) (ms : List MonthRef) (rows : List Coverage)
    → coverage_without id (add_months id member ms rows) ≡ coverage_without id rows
unfolding add_months
coverage_without-add_months id none ms rows = refl
coverage_without-add_months id (some member) [] rows = refl
coverage_without-add_months id (some member) (m ∷ ms) rows =
    coverage_without-add_months id (some member) ms (add_coverage row rows) ∙ without-add
  where
    row : Coverage
    row = coverage_row id member m

    without-add : coverage_without id (add_coverage row rows) ≡ coverage_without id rows
    without-add = elim (Bool-cases (any_row (same_coverage row) rows)) [
      | inl e ↦ rw e refl
      | inr e ↦ rw e (
          where_rows-append (λ c. not (c.processed_transaction_id == id)) rows (row ∷ [])
          ∙ rw (==_refl id) (append-nil (coverage_without id rows)))
    ]

covered_by_same :
    (id member : ℕ) (m n : MonthRef) (rows : List Coverage)
    → any_row (same_coverage (coverage_row id member m)) rows ≡ true
    → same_month m n ≡ true
    → any_row (covers_for id n) rows ≡ true
covered_by_same id member m n [] h e = ground arith
covered_by_same id member m n (c ∷ rows) h e = ground (arith, covered_by_same id member m n rows)

covers-add_coverage :
    (id member : ℕ) (m n : MonthRef) (rows : List Coverage)
    → any_row (covers_for id n) (add_coverage (coverage_row id member m) rows)
      ≡ (any_row (covers_for id n) rows || same_month m n)
covers-add_coverage id member m n rows = ground (
  arith,
  covered_by_same id member m n rows,
  any_row-append (covers_for id n) rows (coverage_row id member m ∷ []),
)

pub covers-add_months :
    (id member : ℕ) (n : MonthRef) (ms : List MonthRef) (rows : List Coverage)
    → any_row (covers_for id n) (add_months id (some member) ms rows)
      ≡ (any_row (covers_for id n) rows || any_row (λ m. same_month m n) ms)
unfolding add_months
covers-add_months id member n [] rows = ground arith
covers-add_months id member n (m ∷ ms) rows = ground (
  arith,
  covers-add_months id member n ms (add_coverage (coverage_row id member m) rows),
  covers-add_coverage id member m n rows,
)

pub covers-coverage_without :
    (id : ℕ) (n : MonthRef) (rows : List Coverage)
    → any_row (covers_for id n) (coverage_without id rows) ≡ false
covers-coverage_without id n [] = refl
covers-coverage_without id n (c ∷ rows) = ground (arith, covers-coverage_without id n rows)
