-- ===== src/Handler/Rules/ClosedYears.antt =====
-- ReapplyCategorizationRule and the years before the current one.
use bank_system_public.Base.{
  ℕ, String, ◌≡◌, refl, sym, ap, ◌∙◌, Bool, true, false, ◌&&◌, Option, none, some, str_eq, arith,
  All-map, if◌then◌else◌,
}
use mathlib.Core.Path.{subst}
use mathlib.Core.Option.{some-injective}
use bank_system_public.Base.Int.{ℤ}
use bank_system_public.Calendar.{Date, before}
use bank_system_public.Auth.{Claims, has_role}
use bank_system_public.Store.{Db, Session, ◌>>=◌, RawTransaction}
use bank_system_public.Processing.Reapply.Earlier.{
  rows_of, coverage_of, is_dated_before, IsEarlier, reapply_rule-earlier,
}
use bank_system_public.Store.{raw_of}
use bank_system_public.Handler.Http.{or_bad_request, parse_id}
use bank_system_public.Handler.Rules.{
  start_of_year, allowed_from, reapply_from_date, role_override_rules, reapplied,
  handle_reapply_rule,
}

before_trans : (a b c : Date) → before a b ≡ true → before c b ≡ false → before a c ≡ true
unfolding before
before_trans a b c h k = ground arith

not_before_itself : (a : Date) → before a a ≡ false
unfolding before
not_before_itself a = ground arith

allowed_from-minimum :
    (minimum : Date) (parsed : Option Date) (from : Date)
    → allowed_from minimum false parsed ≡ some from
    → before from minimum ≡ false
allowed_from-minimum minimum none from h = ground arith
allowed_from-minimum minimum (some d) from h = checked (before d minimum) refl h
  where
    checked :
        (b : Bool)
        → before d minimum ≡ b
        → (if b && true then none else some d) ≡ some from
        → before from minimum ≡ false
    checked true e k = ground arith
    checked false e k = subst (λ x. before x minimum ≡ false) (some-injective d from k) e

reapply_from_date-minimum :
    (parse : String → Option Date) (year : ℕ) (value : String) (from : Date)
    → reapply_from_date parse year false value ≡ some from
    → before from (start_of_year year) ≡ false
unfolding reapply_from_date
reapply_from_date-minimum parse year value from h = chosen (str_eq value "") h
  where
    minimum : Date
    minimum = start_of_year year

    chosen :
        (b : Bool)
        → (if b then some minimum else allowed_from minimum false (parse value)) ≡ some from
        → before from minimum ≡ false
    chosen true k =
        subst (λ x. before x minimum ≡ false) (some-injective minimum from k)
          (not_before_itself minimum)
    chosen false k = allowed_from-minimum minimum (parse value) from k

-- What was before the start of the year was before any later day.
IsEarlier-later :
    (id : ℕ) (minimum from : Date) (db : Db)
    → before from minimum ≡ false
    → IsEarlier id minimum db
    → IsEarlier id from db
IsEarlier-later id minimum from db h earlier =
    All-map _ _ (λ pt dated e. later (raw_of db.raw pt) (dated e)) db.processed earlier
  where
    later :
        (o : Option RawTransaction)
        → is_dated_before minimum o ≡ true
        → is_dated_before from o ≡ true
    later none e = refl
    later (some rt) e = before_trans rt.transaction_date minimum from e h

abbrev pub Untouched : ℕ → Db → Db → Type 0
Untouched id db db' = (rows_of id db' ≡ rows_of id db) × (coverage_of id db' ≡ coverage_of id db)

-- The request, with the first date read of it.
from_date :
    (lower : ℕ → ℕ) (year n id : ℕ) (o : Option Date) (s : Session)
    → ((from : Date) → o ≡ some from → before from (start_of_year year) ≡ false)
    → IsEarlier id (start_of_year year) s.db
    → Untouched id s.db ((or_bad_request o >>= λ from. reapplied lower n from) s).1.db
from_date lower year n id none s h earlier = (refl, refl)
from_date lower year n id (some from) s h earlier =
    reapply_rule-earlier lower n from s id
      (IsEarlier-later id (start_of_year year) from s.db (h from refl) earlier)

-- A request to re-apply a rule, from a caller who does not hold override-rules, changes neither the
-- categorization nor the months of a transaction dated before the current year, whatever date the
-- request names and however it ends.
pub handle_reapply_rule-closed_years :
    (lower : ℕ → ℕ) (parse : String → Option Date) (year : ℕ) (client : String) (path : Option ℤ)
    (body : Option String) (claims : Claims) (s : Session) (id : ℕ)
    → has_role client claims role_override_rules ≡ false
    → IsEarlier id (start_of_year year) s.db
    → Untouched id s.db (handle_reapply_rule lower parse year client path body (some claims) s).1.db
unfolding handle_reapply_rule
handle_reapply_rule-closed_years lower parse year client path body claims s id h earlier =
    parsed (parse_id path) body
  where
    dated : String → Option Date
    dated value = reapply_from_date parse year (has_role client claims role_override_rules) value

    parsed :
        (n : Option ℕ) (v : Option String)
        → Untouched id s.db
            ((or_bad_request n >>= λ m. or_bad_request v >>= λ value.
                or_bad_request (dated value) >>= λ from. reapplied lower m from)
              s).1.db
    parsed none v = (refl, refl)
    parsed (some m) none = (refl, refl)
    parsed (some m) (some value) =
        from_date lower year m id (dated value) s
          (λ from e.
            reapply_from_date-minimum parse year value from
              (ap (λ b. reapply_from_date parse year b value) (sym h) ∙ e))
          earlier
