-- ===== src/Processing/Reapply/Writes.antt =====
-- writeOutcome is all or nothing, and what it reports.
use bank_system_public.Base.{
  ◌≡◌, ◌⊎◌, refl, sym, Pairs, Pairs-update_rows, Bool, true, false, Option, none, some, List, arith,
  any_row, update_rows, if◌then◌else◌, Bool-cases, inl, inr,
}
use mathlib.Core.Path.{subst}
use bank_system_public.Store.{
  Db, ProcessedTransaction, Candidate, ReapplyCategorizationParams, recategorized, is_open_row,
  coverage_without, Coverage, Session, Failure, in_transaction, reapply_categorization,
  delete_coverage_for_transaction, create_payment_coverage,
}
use bank_system_public.Processing.{Outcome, cover_default}
use bank_system_public.Processing.Atomicity.{with_default_coverage}
use bank_system_public.Processing.Reapply.{
  Abort, written, equal_number, is_current, move_coverage, rewrite, write_outcome,
}

abbrev pub reapply_params : Candidate → Outcome → ReapplyCategorizationParams
reapply_params c o = record {
  id = c.id;
  category_id = o.category_id;
  member_number = o.member_number;
  matched_by = o.matched_by;
  categorization_rule_id = o.rule_id;
}

abbrev pub moved_coverage : Candidate → Outcome → List Coverage → List Coverage
moved_coverage c o rows =
    if equal_number o.member_number c.member_number
    then rows
    else with_default_coverage c.id o.member_number c.transaction_date (coverage_without c.id rows)

-- The database with the outcome written: the row that is open to automatic categorization has it,
-- and if the member changed, the default coverage of the new member replaces the old one.
abbrev pub rewritten : Candidate → Outcome → Db → Db
rewritten c o db = record db {
  processed = update_rows (is_open_row c.id) (recategorized (reapply_params c o)) db.processed;
  coverage = moved_coverage c o db.coverage;
}

abbrev Ends : Candidate → Outcome → Db → Db → Bool → Option Failure → Type 0
Ends c o db db' true none =
    (any_row (is_open_row c.id) db.processed ≡ true) × (db' ≡ rewritten c o db)
Ends c o db db' true (some e) = db' ≡ db
Ends c o db db' false f = db' ≡ db

rewrite-Ends :
    (c : Candidate) (o : Outcome) (s : Session)
    → let (r, s') = in_transaction Abort.broken Abort.uncommitted (rewrite c o) s in
      Ends c o s.db s'.db (written r).changed (written r).failure
unfolding rewrite move_coverage cover_default in_transaction reapply_categorization
    delete_coverage_for_transaction create_payment_coverage
rewrite-Ends c o s = ground arith

-- The row has the category, the member, the way of matching and the rule of the outcome; its other
-- columns are as they were.
pub record IsRecategorized (o : Outcome) (pt pt' : ProcessedTransaction) : Type 0 where
  pub category : pt'.category_id ≡ o.category_id
  pub member : pt'.member_number ≡ o.member_number
  pub matching : pt'.matched_by ≡ o.matched_by
  pub rule : pt'.categorization_rule_id ≡ o.rule_id
  pub kept : pt' ≡ record pt {
    category_id = pt'.category_id;
    member_number = pt'.member_number;
    matched_by = pt'.matched_by;
    categorization_rule_id = pt'.categorization_rule_id;
  }

-- The candidate's row, if it is open to automatic categorization, has the outcome; any other one is
-- as it was.
abbrev pub Recategorizes :
    Candidate → Outcome → ProcessedTransaction → ProcessedTransaction → Type 0
Recategorizes c o pt pt' =
    ((is_open_row c.id pt ≡ true) × IsRecategorized o pt pt')
    ⊎ ((is_open_row c.id pt ≡ false) × (pt' ≡ pt))

abbrev pub Reported : Candidate → Outcome → Db → Db → Bool → Option Failure → Type 0
Reported c o db db' true none =
    (any_row (is_open_row c.id) db.processed ≡ true)
    × (db' ≡ rewritten c o db)
    × Pairs (Recategorizes c o) db.processed db'.processed
Reported c o db db' true (some e) = db' ≡ db
Reported c o db db' false f = db' ≡ db

Reported-Ends :
    (c : Candidate) (o : Outcome) (db db' : Db) (changed : Bool) (f : Option Failure)
    → Ends c o db db' changed f
    → Reported c o db db' changed f
Reported-Ends c o db db' true none (was_open, e) = (
  was_open,
  e,
  subst (λ d. Pairs (Recategorizes c o) db.processed d.processed) (sym e)
      (Pairs-update_rows (Recategorizes c o) (is_open_row c.id) (recategorized (reapply_params c o))
        db.processed
        (λ pt h.
          inl (
            h,
            record { category = refl; member = refl; matching = refl; rule = refl; kept = refl },
          ))
        (λ pt h. inr (h, refl))),
)
Reported-Ends c o db db' true (some x) e = e
Reported-Ends c o db db' false f e = e

-- A change that writeOutcome reports without an error has been written whole, to a row that was open
-- to automatic categorization; in every other case the database is as it was, also where it reports
-- a change together with the error of COMMIT.
pub write_outcome-Reported :
    (c : Candidate) (o : Outcome) (s : Session)
    → let (w, s') = write_outcome c o s in Reported c o s.db s'.db w.changed w.failure
unfolding write_outcome
write_outcome-Reported c o s = elim (Bool-cases (is_current c o)) [
  | inl e ↦ rw e refl
  | inr e ↦ rw e (
      let (r, s') = in_transaction Abort.broken Abort.uncommitted (rewrite c o) s in
      Reported-Ends c o s.db s'.db (written r).changed (written r).failure (rewrite-Ends c o s))
]
