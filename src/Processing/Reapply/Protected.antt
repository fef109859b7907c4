-- ===== src/Processing/Reapply/Protected.antt =====
-- Which rows processing.ReapplyRule never touches: those set by hand.
use bank_system_public.Base.{
  ℕ, String, ◌≡◌, refl, ◌∙◌, ap, Bool, true, false, Option, none, some, List, [], ◌∷◌, arith,
  where_rows, update_rows, if◌then◌else◌, Bool-cases, inl, inr, str_eq,
}
use bank_system_public.Calendar.{Date}
use bank_system_public.Store.{
  Db, Candidate, ProcessedTransaction, RawTransaction, CategorizationRule, recategorized,
  is_open_row, is_set_by_hand, is_manual_match, Session, Failure, Result, ok, err, Query,
  list_reapply_candidates, get_categorization_rule, find_member_by_variable_symbol,
  reapply_candidates, rule_with_id, on_failure, optional,
}
use bank_system_public.Store.Effects.{
  ReadOnly-select, ReadOnly-select_one, ReadOnly-optional, ReadOnly-on_failure, after_ReadOnly,
}
use bank_system_public.Processing.{
  Outcome, normalize_variable_symbol, member_match, apply_member_rule, apply_rule, load_rules,
}
use bank_system_public.Processing.Atomicity.{ReadOnly-apply_rule, ReadOnly-find_member}
use bank_system_public.Processing.Batch.{ReadOnly-load_rules}
use bank_system_public.Processing.Reapply.{
  ReapplyResult, ReapplyError, database, is_decided_earlier, candidate_transaction, apply_found,
  reapply_one, reapply_rows, reapply_loaded, reapply_enabled, reapply_found, reapply_rule,
}
use bank_system_public.Processing.Reapply.Writes.{
  reapply_params, rewritten, Reported, write_outcome-Reported,
}

-- Rewriting rows of which none is kept, into rows of which none is, leaves the kept rows as they are.
pub where_rows-update_rows :
    (keep q : ProcessedTransaction → Bool) (f : ProcessedTransaction → ProcessedTransaction)
    → ((x : ProcessedTransaction) → q x ≡ true → (keep x ≡ false) × (keep (f x) ≡ false))
    → (rows : List ProcessedTransaction)
    → where_rows keep (update_rows q f rows) ≡ where_rows keep rows
where_rows-update_rows keep q f h [] = refl
where_rows-update_rows keep q f h (x ∷ rows) = elim (Bool-cases (q x)) [
  | inl e ↦ rw (e, (h x e).0, (h x e).1) (where_rows-update_rows keep q f h rows)
  | inr e ↦ rw e (ap (λ t. if keep x then x ∷ t else t) (where_rows-update_rows keep q f h rows))
]

abbrev Automatic : Result Failure (Option Outcome) → Type 0
Automatic (ok (some o)) = is_manual_match o.matched_by ≡ false
Automatic (ok none) = Unit
Automatic (err e) = Unit

-- An outcome of a rule is never one of a manual match.
apply_member_rule-Automatic :
    (rule : CategorizationRule) (symbol : Option String) (date : Date) (s : Session)
    → Automatic (apply_member_rule rule symbol date s).0
unfolding apply_member_rule
apply_member_rule-Automatic rule none date s = tt
apply_member_rule-Automatic rule (some symbol) date s = elim (Bool-cases (str_eq symbol "")) [
  | inl e ↦ rw e tt
  | inr e ↦ rw e (
      after_ReadOnly (λ r. Automatic r.0) (optional find) _ s
        (ReadOnly-optional find (ReadOnly-find_member number date)) (λ x t _. tt)
        (λ member t _ _. matched member))
]
  where
    number : String
    number = normalize_variable_symbol symbol

    find : Query ℕ
    find = find_member_by_variable_symbol number date

    matched : (member : Option ℕ) → Automatic (ok (member_match rule member))
    matched none = tt
    matched (some n) = refl

apply_rule-Automatic :
    (lower : ℕ → ℕ) (rule : CategorizationRule) (rt : RawTransaction) (direction : String)
    (accounts : List String) (s : Session)
    → Automatic (apply_rule lower rule rt direction accounts s).0
unfolding apply_rule
apply_rule-Automatic lower rule rt direction accounts s =
    ground (arith, apply_member_rule-Automatic rule rt.variable_symbol rt.transaction_date s)

abbrev pub by_hand : Db → List ProcessedTransaction
by_hand db = where_rows is_set_by_hand db.processed

by_hand-rewritten :
    (c : Candidate) (o : Outcome) (db : Db)
    → is_manual_match o.matched_by ≡ false
    → by_hand (rewritten c o db) ≡ by_hand db
by_hand-rewritten c o db h =
    where_rows-update_rows is_set_by_hand (is_open_row c.id) (recategorized (reapply_params c o))
      (λ x e. ground arith) db.processed

by_hand-Reported :
    (c : Candidate) (o : Outcome) (db db' : Db) (w : Bool) (f : Option Failure)
    → is_manual_match o.matched_by ≡ false
    → Reported c o db db' w f
    → by_hand db' ≡ by_hand db
by_hand-Reported c o db db' true none h (_, e, _) = ap by_hand e ∙ by_hand-rewritten c o db h
by_hand-Reported c o db db' true (some x) h e = ap by_hand e
by_hand-Reported c o db db' false f h e = ap by_hand e

by_hand-apply_found :
    (c : Candidate) (r : Result Failure (Option Outcome)) (s : Session) (acc : ReapplyResult)
    → Automatic r
    → by_hand (apply_found c (r, s) acc).1.db ≡ by_hand s.db
by_hand-apply_found c (ok none) s acc h = refl
by_hand-apply_found c (ok (some o)) s acc h =
    by_hand-Reported c o s.db _ _ _ h (write_outcome-Reported c o s)
by_hand-apply_found c (err e) s acc h = refl

module _ (lower : ℕ → ℕ) (target : CategorizationRule) (rules : List CategorizationRule)
    (accounts : List String) where
  by_hand-reapply_one :
      (c : Candidate) (acc : ReapplyResult) (s : Session)
      → by_hand (reapply_one lower target rules accounts c acc s).1.db ≡ by_hand s.db
  unfolding reapply_one
  by_hand-reapply_one c acc s =
      let rt = candidate_transaction c in
      let (r, s') = apply_rule lower target rt c.direction accounts s in
      elim (Bool-cases (is_decided_earlier rules target.id c.categorization_rule_id)) [
        | inl e ↦ rw e refl
        | inr e ↦ rw e (
            by_hand-apply_found c r s' acc
              (apply_rule-Automatic lower target rt c.direction accounts s)
            ∙ ap by_hand ((ReadOnly-apply_rule lower target rt c.direction accounts).at s))
      ]

  by_hand-reapply_rows :
      (cs : List Candidate) (acc : ReapplyResult) (s : Session)
      → by_hand (reapply_rows lower target rules accounts cs acc s).1.db ≡ by_hand s.db
  unfolding reapply_rows
  by_hand-reapply_rows [] acc s = refl
  by_hand-reapply_rows (c ∷ cs) acc s =
      let (acc', s') = reapply_one lower target rules accounts c acc s in
      by_hand-reapply_rows cs acc' s' ∙ by_hand-reapply_one c acc s

by_hand-reapply_loaded :
    (lower : ℕ → ℕ) (target : CategorizationRule) (cs : List Candidate)
    (loaded : List CategorizationRule × List String) (s : Session)
    → by_hand (reapply_loaded lower target cs loaded s).1.db ≡ by_hand s.db
unfolding reapply_loaded
by_hand-reapply_loaded lower target cs (rules, accounts) s =
    by_hand-reapply_rows lower target rules accounts cs (record { changed = 0; failed = 0 }) s

by_hand-reapply_enabled :
    (lower : ℕ → ℕ) (from : Date) (target : CategorizationRule) (s : Session)
    → by_hand (reapply_enabled lower from target s).1.db ≡ by_hand s.db
unfolding reapply_enabled list_reapply_candidates
by_hand-reapply_enabled lower from target s =
    after_ReadOnly Same (on_failure load_rules database) _ s
      (ReadOnly-on_failure load_rules database ReadOnly-load_rules) (λ x t same. ap by_hand same)
      (λ loaded t _ same.
        after_ReadOnly Same (on_failure (list_reapply_candidates from) database) _ t
          (ReadOnly-on_failure _ database
            (ReadOnly-select (λ db. reapply_candidates from db.raw db.processed)))
          (λ x u same'. ap by_hand (same' ∙ same))
          (λ cs u _ same'.
            by_hand-reapply_loaded lower target cs loaded u ∙ ap by_hand (same' ∙ same)))
  where
    Same : Result ReapplyError ReapplyResult × Session → Type 0
    Same r = by_hand r.1.db ≡ by_hand s.db

by_hand-reapply_found :
    (lower : ℕ → ℕ) (from : Date) (target : Option CategorizationRule) (s : Session)
    → by_hand (reapply_found lower from target s).1.db ≡ by_hand s.db
unfolding reapply_found
by_hand-reapply_found lower from none s = refl
by_hand-reapply_found lower from (some target) s =
    ground (arith, by_hand-reapply_enabled lower from target s)

-- Re-applying a rule, however it ends, leaves the rows set by hand as they are, in their order, and
-- makes no other row one of them.
pub reapply_rule-by_hand :
    (lower : ℕ → ℕ) (rule_id : ℕ) (from : Date) (s : Session)
    → where_rows is_set_by_hand (reapply_rule lower rule_id from s).1.db.processed
      ≡ where_rows is_set_by_hand s.db.processed
unfolding reapply_rule get_categorization_rule
reapply_rule-by_hand lower rule_id from s =
    after_ReadOnly (λ r. by_hand r.1.db ≡ by_hand s.db)
      (on_failure (optional (get_categorization_rule rule_id)) database) _ s
      (ReadOnly-on_failure _ database
        (ReadOnly-optional _ (ReadOnly-select_one (rule_with_id rule_id))))
      (λ x t same. ap by_hand same)
      (λ target t _ same. by_hand-reapply_found lower from target t ∙ ap by_hand same)
