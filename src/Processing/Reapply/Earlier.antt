-- ===== src/Processing/Reapply/Earlier.antt =====
-- Which rows processing.ReapplyRule never touches: those of transactions before its first date.
use bank_system_public.Base.{
  ℕ, String, ◌≡◌, refl, sym, ◌∙◌, ap, Bool, true, false, not, ◌&&◌, Option, none, some, List, [],
  ◌∷◌, arith, ◌==◌, any_row, where_rows, where_rows-append, where_rows-kept, if◌then◌else◌,
  Bool-cases, inl, inr, All,
}
use mathlib.Core.Path.{subst}
use mathlib.Core.List.{append-nil}
use bank_system_public.Calendar.{Date, before, on_or_before}
use bank_system_public.Store.{
  Db, Candidate, ProcessedTransaction, RawTransaction, CategorizationRule, Coverage,
  ReapplyCategorizationParams, candidates_with, add_coverage, recategorized, is_open_row,
  is_set_by_hand, raw_of, same_coverage, Session, Failure, Result, ok, err, raise,
  list_reapply_candidates, get_categorization_rule, reapply_candidates, reapply_categorization,
  delete_coverage_for_transaction, create_payment_coverage, rule_with_id, on_failure, optional,
}
use bank_system_public.Store.Effects.{
  Preserves, Preserves-write, Preserves-ReadOnly, Preserves-bind, Preserves-on_failure,
  Preserves-in_transaction, ReadOnly-pure, ReadOnly-raise, ReadOnly-select_one, ReadOnly-optional,
  ReadOnly-on_failure, after_ReadOnly,
}
use bank_system_public.Store.Reads.{after_read}
use bank_system_public.Processing.{Outcome, cover_default, apply_rule, load_rules}
use bank_system_public.Processing.Atomicity.{ReadOnly-apply_rule}
use bank_system_public.Processing.Batch.{ReadOnly-load_rules}
use bank_system_public.Processing.Reapply.{
  ReapplyResult, ReapplyError, rule_disabled, database, broken, uncommitted, equal_number,
  is_current, is_decided_earlier, candidate_transaction, move_coverage, unless_kept, rewrite,
  write_outcome, apply_found, reapply_one, reapply_rows, reapply_loaded, reapply_enabled,
  reapply_found, reapply_rule,
}
use bank_system_public.Processing.Reapply.Protected.{where_rows-update_rows}

abbrev pub rows_of : ℕ → Db → List ProcessedTransaction
rows_of id db = where_rows (λ pt. pt.id == id) db.processed

abbrev pub coverage_of : ℕ → Db → List Coverage
coverage_of id db = where_rows (λ c. c.processed_transaction_id == id) db.coverage

-- The transaction and the months it covers are as they were.
abbrev Frozen : ℕ → List ProcessedTransaction → List Coverage → Db → Type 0
Frozen id rows months db = (rows_of id db ≡ rows) × (coverage_of id db ≡ months)

module _ (id : ℕ) (rows : List ProcessedTransaction) (months : List Coverage) where
  Frozen-reapply_categorization :
      (p : ReapplyCategorizationParams)
      → (p.id == id) ≡ false
      → Preserves (Frozen id rows months) (reapply_categorization p)
  unfolding reapply_categorization
  Frozen-reapply_categorization p h =
      Preserves-write _ (λ db. any_row (is_open_row p.id) db.processed) _
        (λ db frozen. (
          where_rows-update_rows (λ pt. pt.id == id) (is_open_row p.id) (recategorized p)
                (λ pt e. ground arith) db.processed
              ∙ frozen.0,
          frozen.1,
        ))

  Frozen-delete_coverage :
      (n : ℕ)
      → (n == id) ≡ false
      → Preserves (Frozen id rows months) (delete_coverage_for_transaction n)
  unfolding delete_coverage_for_transaction
  Frozen-delete_coverage n h =
      Preserves-write _ (λ db. tt) _
        (λ db frozen. (
          frozen.0,
          where_rows-kept (λ c. c.processed_transaction_id == id)
                (λ c. not (c.processed_transaction_id == n)) db.coverage (λ c e. ground arith)
              ∙ frozen.1,
        ))

  Frozen-create_coverage :
      (c : Coverage)
      → (c.processed_transaction_id == id) ≡ false
      → Preserves (Frozen id rows months) (create_payment_coverage c)
  unfolding create_payment_coverage
  Frozen-create_coverage c h =
      Preserves-write _ (λ db. tt) _ (λ db frozen. (frozen.0, added db.coverage ∙ frozen.1))
    where
      added :
          (cs : List Coverage)
          → where_rows (λ x. x.processed_transaction_id == id) (add_coverage c cs)
            ≡ where_rows (λ x. x.processed_transaction_id == id) cs
      added cs = elim (Bool-cases (any_row (same_coverage c) cs)) [
        | inl e ↦ rw e refl
        | inr e ↦ rw e (
            where_rows-append (λ x. x.processed_transaction_id == id) cs (c ∷ [])
            ∙ rw h (append-nil _))
      ]

  Frozen-cover_default :
      (n : ℕ) (member : Option ℕ) (date : Date)
      → (n == id) ≡ false
      → Preserves (Frozen id rows months) (cover_default n member date)
  unfolding cover_default
  Frozen-cover_default n none date h = Preserves-ReadOnly _ _ (ReadOnly-pure tt)
  Frozen-cover_default n (some member) date h = Frozen-create_coverage _ h

  Frozen-move_coverage :
      (c : Candidate) (o : Outcome)
      → (c.id == id) ≡ false
      → Preserves (Frozen id rows months) (move_coverage c o)
  unfolding move_coverage
  Frozen-move_coverage c o h = elim (Bool-cases (equal_number o.member_number c.member_number)) [
    | inl e ↦ rw e (Preserves-ReadOnly _ _ (ReadOnly-pure tt))
    | inr e ↦ rw e (
        Preserves-bind _ _ _ (Frozen-delete_coverage c.id h)
          (λ _. Frozen-cover_default c.id o.member_number c.transaction_date h))
  ]

  Frozen-rewrite :
      (c : Candidate) (o : Outcome)
      → (c.id == id) ≡ false
      → Preserves (Frozen id rows months) (rewrite c o)
  unfolding rewrite
  Frozen-rewrite c o h =
      Preserves-bind _ _ _ (Preserves-on_failure _ _ broken (Frozen-reapply_categorization _ h))
        rest
    where
      rest : (b : Bool) → Preserves (Frozen id rows months) (unless_kept (move_coverage c o) b)
      rest true = Preserves-on_failure _ _ broken (Frozen-move_coverage c o h)
      rest false = Preserves-ReadOnly _ _ (ReadOnly-raise _)

  Frozen-write_outcome :
      (c : Candidate) (o : Outcome) (s : Session)
      → (c.id == id) ≡ false
      → Frozen id rows months s.db
      → Frozen id rows months (write_outcome c o s).1.db
  unfolding write_outcome
  Frozen-write_outcome c o s h frozen = elim (Bool-cases (is_current c o)) [
    | inl e ↦ rw e frozen
    | inr e ↦
        rw e ((Preserves-in_transaction _ broken uncommitted _ (Frozen-rewrite c o h)).at s frozen)
  ]

  Frozen-apply_found :
      (c : Candidate) (r : Result Failure (Option Outcome)) (s : Session) (acc : ReapplyResult)
      → (c.id == id) ≡ false
      → Frozen id rows months s.db
      → Frozen id rows months (apply_found c (r, s) acc).1.db
  Frozen-apply_found c (ok none) s acc h frozen = frozen
  Frozen-apply_found c (ok (some o)) s acc h frozen = Frozen-write_outcome c o s h frozen
  Frozen-apply_found c (err e) s acc h frozen = frozen

  module _ (lower : ℕ → ℕ) (target : CategorizationRule) (rules : List CategorizationRule)
      (accounts : List String) where
    Frozen-reapply_one :
        (c : Candidate) (acc : ReapplyResult) (s : Session)
        → (c.id == id) ≡ false
        → Frozen id rows months s.db
        → Frozen id rows months (reapply_one lower target rules accounts c acc s).1.db
    unfolding reapply_one
    Frozen-reapply_one c acc s h frozen =
        let rt = candidate_transaction c in
        let (r, s') = apply_rule lower target rt c.direction accounts s in
        elim (Bool-cases (is_decided_earlier rules target.id c.categorization_rule_id)) [
          | inl e ↦ rw e frozen
          | inr e ↦ rw e (
              Frozen-apply_found c r s' acc h (
                subst (Frozen id rows months)
                  (sym ((ReadOnly-apply_rule lower target rt c.direction accounts).at s)) frozen))
        ]

    Frozen-reapply_rows :
        (cs : List Candidate) (acc : ReapplyResult) (s : Session)
        → All (λ c. (c.id == id) ≡ false) cs
        → Frozen id rows months s.db
        → Frozen id rows months (reapply_rows lower target rules accounts cs acc s).1.db
    unfolding reapply_rows
    Frozen-reapply_rows [] acc s h frozen = frozen
    Frozen-reapply_rows (c ∷ cs) acc s h frozen =
        let (acc', s') = reapply_one lower target rules accounts c acc s in
        Frozen-reapply_rows cs acc' s' h.1 (Frozen-reapply_one c acc s h.0 frozen)

-- The bank transaction of a row is dated before the day.
abbrev pub is_dated_before : Date → Option RawTransaction → Bool
is_dated_before from none = true
is_dated_before from (some rt) = before rt.transaction_date from

abbrev pub is_earlier : Date → List RawTransaction → ProcessedTransaction → Bool
is_earlier from raw pt = is_dated_before from (raw_of raw pt)

no_earlier_candidates :
    (id : ℕ) (from : Date) (raw : List RawTransaction) (pts : List ProcessedTransaction)
    → All (λ pt. (pt.id == id) ≡ true → is_earlier from raw pt ≡ true) pts
    → All (λ c. (c.id == id) ≡ false) (reapply_candidates from raw pts)
unfolding reapply_candidates on_or_before
no_earlier_candidates id from raw [] h = tt
no_earlier_candidates id from raw (pt ∷ pts) h =
    candidate (raw_of raw pt) refl (no_earlier_candidates id from raw pts h.1)
  where
    other :
        (rt : RawTransaction)
        → raw_of raw pt ≡ some rt
        → (not (is_set_by_hand pt) && on_or_before from rt.transaction_date) ≡ true
        → (pt.id == id) ≡ false
    other rt e t = elim (Bool-cases (pt.id == id)) [
      | inl same ↦
          let dated : before rt.transaction_date from ≡ true =
            ap (is_dated_before from) (sym e) ∙ h.0 same in
          ground arith
      | inr f ↦ f
    ]

    candidate :
        (o : Option RawTransaction)
        → raw_of raw pt ≡ o
        → All (λ c. (c.id == id) ≡ false) (reapply_candidates from raw pts)
        → All
            (λ c. (c.id == id) ≡ false)
            (candidates_with from pt o (reapply_candidates from raw pts))
    candidate none e rest = rest
    candidate (some rt) e rest =
        elim (Bool-cases (not (is_set_by_hand pt) && on_or_before from rt.transaction_date)) [
          | inl t ↦ rw t (other rt e t, rest)
          | inr f ↦ rw f rest
        ]

-- The transactions with the id are all dated before the day; ids are unique.
abbrev pub IsEarlier : ℕ → Date → Db → Type 0
IsEarlier id from db =
    All (λ pt. (pt.id == id) ≡ true → is_earlier from db.raw pt ≡ true) db.processed

Frozen-reapply_enabled :
    (id : ℕ) (lower : ℕ → ℕ) (from : Date) (target : CategorizationRule) (s : Session)
    → IsEarlier id from s.db
    → Frozen id (rows_of id s.db) (coverage_of id s.db) (reapply_enabled lower from target s).1.db
unfolding reapply_enabled reapply_loaded list_reapply_candidates
Frozen-reapply_enabled id lower from target s earlier =
    after_ReadOnly Same (on_failure load_rules database) _ s
      (ReadOnly-on_failure load_rules database ReadOnly-load_rules) (λ x t same. kept t.db same)
      (λ loaded t _ same.
        after_read Same database (λ db. reapply_candidates from db.raw db.processed) _ t
          (λ u same'. kept u.db (same' ∙ same))
          (λ u same'.
            Frozen-reapply_rows id (rows_of id s.db) (coverage_of id s.db) lower target loaded.0
              loaded.1 (reapply_candidates from t.db.raw t.db.processed) _ u
              (no_earlier_candidates id from t.db.raw t.db.processed
                (subst (IsEarlier id from) (sym same) earlier))
              (kept u.db (same' ∙ same))))
  where
    Same : Result ReapplyError ReapplyResult × Session → Type 0
    Same r = Frozen id (rows_of id s.db) (coverage_of id s.db) r.1.db

    kept : (db : Db) → db ≡ s.db → Frozen id (rows_of id s.db) (coverage_of id s.db) db
    kept db e = (ap (rows_of id) e, ap (coverage_of id) e)

-- Re-applying a rule from a day on, however it ends, changes neither the categorization of a
-- transaction before that day nor the months it covers.
pub reapply_rule-earlier :
    (lower : ℕ → ℕ) (rule_id : ℕ) (from : Date) (s : Session) (id : ℕ)
    → IsEarlier id from s.db
    → (rows_of id (reapply_rule lower rule_id from s).1.db ≡ rows_of id s.db)
      × (coverage_of id (reapply_rule lower rule_id from s).1.db ≡ coverage_of id s.db)
unfolding reapply_rule reapply_found get_categorization_rule
reapply_rule-earlier lower rule_id from s id earlier =
    after_ReadOnly Same (on_failure (optional (get_categorization_rule rule_id)) database) _ s
      (ReadOnly-on_failure _ database
        (ReadOnly-optional _ (ReadOnly-select_one (rule_with_id rule_id))))
      (λ x t same. kept t.db same) (λ target t _ same. found target t same)
  where
    Same : Result ReapplyError ReapplyResult × Session → Type 0
    Same r = Frozen id (rows_of id s.db) (coverage_of id s.db) r.1.db

    kept : (db : Db) → db ≡ s.db → Frozen id (rows_of id s.db) (coverage_of id s.db) db
    kept db e = (ap (rows_of id) e, ap (coverage_of id) e)

    checked :
        (target : CategorizationRule) (t : Session)
        → t.db ≡ s.db
        → (b : Bool)
        → Same ((if b then reapply_enabled lower from target else raise rule_disabled) t)
    checked target t same true =
        let rest =
          Frozen-reapply_enabled id lower from target t
            (subst (IsEarlier id from) (sym same) earlier) in
        (rest.0 ∙ ap (rows_of id) same, rest.1 ∙ ap (coverage_of id) same)
    checked target t same false = kept t.db same

    found :
        (target : Option CategorizationRule) (t : Session)
        → t.db ≡ s.db
        → Same (reapply_found lower from target t)
    found none t same = kept t.db same
    found (some target) t same = checked target t same target.enabled
