-- ===== src/Handler/Waivers/Undo.antt =====
-- UnwaivePayment, and that it undoes WaivePayment.
use bank_system_public.Base.{
  ℕ, String, ◌≡◌, refl, ◌∙◌, ap, Bool, true, false, not, Option, some, [], ◌∷◌, ◌++◌, arith, ◌==◌,
  any_row, any_row-append, where_rows, where_rows-append, any_row-deleted, where_rows_idem,
  nothing_deleted, first_row-append,
}
use mathlib.Core.List.{append-nil}
use bank_system_public.Base.Int.{ℤ}
use bank_system_public.Calendar.{MonthRef, IsMonth, month_index}
use bank_system_public.Calendar.Months.{month_from_index-month_index}
use bank_system_public.Store.{
  Db, Waiver, Session, Result, ok, err, calm, ◌>>=◌, require, on_failure, rename_error, continue,
  attempt, next_fails, later, Failure, is_paid, is_waived, waives_month, delete_payment_waiver,
  payment_coverage_exists, create_payment_waiver, get_payment_waiver, member_exists,
}
use bank_system_public.Handler.Http.{
  HttpError, internal, not_found, bad_request, conflict, too_large, bad_gateway, forbidden,
  internal_error, parse_id,
}
use bank_system_public.Handler.Waivers.{
  path_month, unwaive_payment, requested_months, no_months, single, waive_month, waive_months,
  waive_payment, WaiveRequest,
}

-- What UnwaivePayment answers for a month, and what it leaves.
abbrev pub Undone : ℕ → MonthRef → Db → Result HttpError (Unit {0}) × Session → Type 0
Undone member m db (ok _, s') =
    (is_waived db member m ≡ true)
    × (is_waived s'.db member m ≡ false)
    × (where_rows (λ w. not (waives_month member m w)) s'.db.waivers
        ≡ where_rows (λ w. not (waives_month member m w)) db.waivers)
    × (s'.db ≡ record db { waivers = s'.db.waivers })
Undone member m db (err not_found, s') = (is_waived db member m ≡ false) × (s'.db ≡ db)
Undone member m db (err bad_request, s') = ⊥
Undone member m db (err conflict, s') = ⊥
Undone member m db (err too_large, s') = ⊥
Undone member m db (err bad_gateway, s') = ⊥
Undone member m db (err forbidden, s') = ⊥
Undone member m db (err internal_error, s') = s'.db ≡ db

delete_waiver-Undone :
    (member : ℕ) (m : MonthRef) (s : Session)
    → Undone member m s.db (
        (on_failure (delete_payment_waiver member m) internal >>= λ deleted.
        require deleted not_found)
          s)
unfolding delete_payment_waiver
delete_waiver-Undone member m s = start (next_fails s.faults)
  where
    deletes : Db → Result Failure (Bool × Db)
    deletes db = ok (
      is_waived db member m,
      record db { waivers = where_rows (λ w. not (waives_month member m w)) db.waivers },
    )

    answered :
        (b : Bool)
        → is_waived s.db member m ≡ b
        → Undone member m s.db (
            require {E = HttpError} b not_found (record {
              db = record s.db {
                waivers = where_rows (λ w. not (waives_month member m w)) s.db.waivers;
              };
              faults = later s.faults;
            }))
    answered true e = (
      e,
      any_row-deleted (waives_month member m) s.db.waivers,
      where_rows_idem (λ w. not (waives_month member m w)) s.db.waivers,
      refl,
    )
    answered false e = (
      e,
      ap (λ ws. record s.db { waivers = ws })
          (nothing_deleted (waives_month member m) s.db.waivers e),
    )

    start :
        (fails : Bool)
        → Undone member m s.db (
            let (r, t) = attempt fails deletes (record s { faults = later s.faults }) in
            continue (rename_error internal r) (λ deleted. require deleted not_found) t)
    start true = refl
    start false = answered (is_waived s.db member m) refl

-- UnwaivePayment, for a path that passes the checks, answers that it is done only if there was a
-- waiver for the month; then there is none any more, and all other waivers and tables are as they
-- were. It answers 404 only if there was none, and never 400; without success nothing has changed.
pub unwaive_payment-Undone :
    (path year month : Option ℤ) (s : Session) (member : ℕ) (m : MonthRef)
    → parse_id path ≡ some member
    → path_month year month ≡ some m
    → Undone member m s.db (unwaive_payment path year month s)
unfolding unwaive_payment
unwaive_payment-Undone path year month s member m hp hm =
    rw (hp, hm) (delete_waiver-Undone member m s)

abbrev new_waiver : ℕ → MonthRef → String → Db → Waiver
new_waiver member m reason db = record {
  member_number = member;
  covers = m;
  reason = reason;
  created_at = db.now;
}

waives_month-new_waiver :
    (member : ℕ) (m : MonthRef) (reason : String) (db : Db)
    → waives_month member m (new_waiver member m reason db) ≡ true
waives_month-new_waiver member m reason db = ground arith

abbrev one_more : ℕ → MonthRef → String → Db → Db
one_more member m reason db = record db {
  waivers = db.waivers ++ new_waiver member m reason db ∷ [];
}

waive_months-fresh :
    (member : ℕ) (m : MonthRef) (reason : String) (db : Db)
    → IsMonth m
    → is_paid db member m ≡ false
    → is_waived db member m ≡ false
    → (waive_months member reason false 1 (month_index m) (no_months member) (calm db)).1
      ≡ calm (one_more member m reason db)
unfolding waive_months waive_month payment_coverage_exists create_payment_waiver get_payment_waiver
waive_months-fresh member m reason db hm hp hw =
    rw
      (
        month_from_index-month_index m hm,
        hp,
        hw,
        first_row-append (waives_month member m) (new_waiver member m reason db) db.waivers
            (waives_month-new_waiver member m reason db) hw,
      )
      refl

-- Waiving one month and undoing the waiver, with no failing statement, leaves the database as it
-- was. This is for a month that was neither paid nor waived, of a member that exists.
pub unwaive-waive :
    (trim : String → String) (max_year : ℕ) (path year month : Option ℤ) (request : WaiveRequest)
    (db : Db) (member : ℕ) (m : MonthRef)
    → parse_id path ≡ some member
    → requested_months trim max_year request ≡ some (single m)
    → path_month year month ≡ some m
    → IsMonth m
    → any_row (λ x. x.member_number == member) db.members ≡ true
    → is_paid db member m ≡ false
    → is_waived db member m ≡ false
    → unwaive_payment path year month (waive_payment trim max_year path (some request) (calm db)).1
      ≡ (ok tt, calm db)
unfolding waive_payment unwaive_payment member_exists delete_payment_waiver
unwaive-waive trim max_year path year month request db member m hp hr hm ok_month he hu hw =
    rw (hp, hr, hm, he, waive_months-fresh member m reason db ok_month hu hw, one_waived, rest_kept)
      refl
  where
    reason : String
    reason = trim request.reason

    w : Waiver
    w = new_waiver member m reason db

    one_waived : is_waived (one_more member m reason db) member m ≡ true
    one_waived =
        any_row-append (waives_month member m) db.waivers (w ∷ [])
        ∙ rw (hw, waives_month-new_waiver member m reason db) refl

    rest_kept : where_rows (λ x. not (waives_month member m x)) (db.waivers ++ w ∷ []) ≡ db.waivers
    rest_kept =
        where_rows-append (λ x. not (waives_month member m x)) db.waivers (w ∷ [])
        ∙ rw
            (
              nothing_deleted (waives_month member m) db.waivers hw,
              waives_month-new_waiver member m reason db,
            )
            (append-nil db.waivers)
