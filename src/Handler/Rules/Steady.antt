-- ===== src/Handler/Rules/Steady.antt =====
-- What each request that writes rules keeps (internal/handler/rules.go).
use bank_system_public.Base.{
  ℕ, String, Bool, true, false, not, ◌||◌, ◌≡◌, refl, sym, ◌∙◌, Option, none, some, List, str_eq,
  ◌==◌, is_set, inl, inr, Bool-cases, if◌then◌else◌, any_row, first_row-All, arith,
}
use bank_system_public.Base.Int.{ℤ}
use bank_system_public.Store.{
  Db, CategorizationRule, ok, require, ◌>>=◌, or_no_rows, category_exists, get_categorization_rule,
}
use bank_system_public.Store.Effects.{ReadOnly-select_one, ReadOnly-on_failure}
use bank_system_public.Store.Leads
use bank_system_public.Store.Leads.{Leads}
use bank_system_public.Store.Rules as Stored
use bank_system_public.Store.Rules.{rule_row, rule_with_id, is_deletable}
use bank_system_public.Handler.Http.{
  HttpError, Handler, bad_request, not_found, internal, missing_row, parse_id, or_bad_request,
}
use bank_system_public.Handler.Http.Steps.{Leads-given_part, Leads-when}
use bank_system_public.Handler.BudgetText.{trimmed_text}
use bank_system_public.Handler.Rules.{
  optional_rule_field, rule_field_max_length, CategorizationRuleRequest, NormalizedRule,
  has_condition, is_direction, normalize_rule_request, rule_fields, validate_pattern_rule,
  validate_builtin_rule, validate_update, is_same_category, write_rule, handle_create_rule,
  handle_update_rule, handle_delete_rule,
}
use bank_system_public.Handler.Rules.Sound.{
  IsSoundRule, RulesSound, is_pattern, is_builtin, builtin_rules, updated, deleted, Sound-inserted,
  builtin_rules-inserted, Sound-updated, builtin_rules-updated, Sound-deleted,
  builtin_rules-deleted,
}

-- Sound rules with these built-in ones.
abbrev pub Steady : List (ℕ × String × ℕ) → Db → Type 0
Steady builtins db = RulesSound db × (builtin_rules db ≡ builtins)

normalize_rule_request-Leads :
    (P : Db → Type 0) (trim : String → String) (request : CategorizationRuleRequest)
    → Leads P
        (λ rule db. P db × (is_direction rule.direction ≡ true))
        P
        (normalize_rule_request trim request)
unfolding normalize_rule_request
normalize_rule_request-Leads P trim request = part request.priority _ (λ _.
    field request.note _ (λ _. field request.counter_account_number _ (λ _.
      field request.variable_symbol _ (λ _. field request.constant_symbol _ (λ _.
        field request.text_contains _ (λ _. field request.transaction_type_contains _ (λ _.
          part (trimmed_text trim rule_field_max_length request.direction) _ (λ direction.
            Leads-when _ _ _ (is_direction direction) bad_request _ (λ db p. p)
              (λ e. Leads.Leads-pure _ _ _ _ (λ db p. (p, e)))))))))))
  where
    part :
        {A : Type 0} (o : Option A) (f : A → Handler NormalizedRule)
        → ((a : A) → Leads P (λ rule db. P db × (is_direction rule.direction ≡ true)) P (f a))
        → Leads P
            (λ rule db. P db × (is_direction rule.direction ≡ true))
            P
            (or_bad_request o >>= f)
    part o f h = Leads-given_part _ _ _ o f (λ db p. p) (λ a e. h a)

    field :
        (o : Option String) (f : Option String → Handler NormalizedRule)
        → ((a : Option String)
            → Leads P (λ rule db. P db × (is_direction rule.direction ≡ true)) P (f a))
        → Leads P
            (λ rule db. P db × (is_direction rule.direction ≡ true))
            P
            (optional_rule_field trim o >>= f)
    field o f h = part (trimmed_text trim rule_field_max_length o) f h

-- A row with the columns of a request that passes the checks for its kind.
IsSoundRule-fields :
    (id c : ℕ) (kind : String) (rule : NormalizedRule) (db : Db)
    → is_direction rule.direction ≡ true
    → has_condition rule ≡ str_eq kind "pattern"
    → (str_eq kind "pattern" || not (is_set rule.direction)) ≡ true
    → any_row (λ x. x.id == c) db.categories ≡ true
    → IsSoundRule db.categories (rule_row id kind (rule_fields c rule))
unfolding has_condition
IsSoundRule-fields id c kind rule db directed conditioned undirected known = record {
  condition = conditioned;
  no_direction = undirected;
  direction = directed;
  category = known;
}

validate_pattern_rule-Leads :
    (P : Db → Type 0) (rule : NormalizedRule)
    → Leads P
        (λ c db.
          P db × (has_condition rule ≡ true) × (any_row (λ x. x.id == c) db.categories ≡ true))
        P
        (validate_pattern_rule rule)
unfolding validate_pattern_rule category_exists
validate_pattern_rule-Leads P rule =
    Leads-given_part _ _ _ rule.category_id _ (λ db p. p)
      (λ c _.
        Leads-when _ _ _ (has_condition rule) bad_request _ (λ db p. p)
          (λ conditioned.
            Leads.Leads-bind _ _ _ _ _ _
              (Leads.Leads-select P P (λ db. any_row (λ x. x.id == c) db.categories) internal
                (λ db p. p))
              (λ exists.
                Leads-when _ _ _ exists bad_request _ (λ db p. p.0)
                  (λ e. Leads.Leads-pure _ _ _ c (λ db p. (p.0, conditioned, p.1 ∙ e))))))

Keeps-write_rule : (P : Db → Type 0) (id : ℕ) → Leads P (λ _. P) P (write_rule id)
unfolding write_rule get_categorization_rule
Keeps-write_rule P id =
    Leads.Leads-ReadOnly P _
      (ReadOnly-on_failure _ internal (ReadOnly-select_one (rule_with_id id)))

pub handle_create_rule-Steady :
    (builtins : List (ℕ × String × ℕ)) (trim : String → String)
    (body : Option CategorizationRuleRequest)
    → Leads
        (Steady builtins)
        (λ _. Steady builtins)
        (Steady builtins)
        (handle_create_rule trim body)
unfolding handle_create_rule Stored.create_categorization_rule
handle_create_rule-Steady builtins trim body =
    Leads-given_part _ _ _ body _ (λ db p. p)
      (λ request _.
        Leads.Leads-bind _ _ _ _ _ _ (normalize_rule_request-Leads (Steady builtins) trim request)
          (λ rule. Leads.Leads-given _ _ _ _ _ (λ directed.
            Leads.Leads-bind _ _ _ _ _ _ (validate_pattern_rule-Leads (Steady builtins) rule) (λ c.
              Leads.Leads-bind _ (λ _. Steady builtins) _ _ _ _
                (Leads.Leads-statement _ _ _ _ internal (λ db p. p.0)
                  (λ db ((sound, same), conditioned, known). (
                    Sound-inserted (rule_fields c rule) db sound (
                        IsSoundRule-fields db.next_id c "pattern" rule db directed conditioned refl
                          known),
                    builtin_rules-inserted (rule_fields c rule) db ∙ same,
                  )))
                (λ id. Keeps-write_rule (Steady builtins) id)))))

-- What UpdateCategorizationRule has checked before it writes.
abbrev Checked : List (ℕ × String × ℕ) → ℕ → CategorizationRule → NormalizedRule → ℕ → Db → Type 0
Checked builtins id existing rule c db =
    (Steady builtins db × (rule_with_id id db ≡ some existing))
    × (has_condition rule ≡ is_pattern existing)
    × ((is_pattern existing || not (is_set rule.direction)) ≡ true)
    × (any_row (λ x. x.id == c) db.categories ≡ true)
    × (is_builtin existing ≡ true → c ≡ existing.category_id)

validate_update-Leads :
    (builtins : List (ℕ × String × ℕ)) (id : ℕ) (existing : CategorizationRule)
    (rule : NormalizedRule)
    → Leads
        (λ db. Steady builtins db × (rule_with_id id db ≡ some existing))
        (Checked builtins id existing rule)
        (Steady builtins)
        (validate_update existing rule)
unfolding validate_update validate_builtin_rule
validate_update-Leads builtins id existing rule = elim (Bool-cases (is_pattern existing)) [
  | inl e ↦ rw e (
      Leads.Leads-weaken _ _ _ _ _ _ _ (λ db p. p)
        (λ c db (p, conditioned, known).
          (p, conditioned ∙ sym e, rw e refl, known, λ builtin. ground arith))
        (λ db p. p.0)
        (validate_pattern_rule-Leads
          (λ db. Steady builtins db × (rule_with_id id db ≡ some existing)) rule))
  | inr e ↦ rw e (
      Leads-when _ _ _ (is_same_category rule.category_id existing.category_id) bad_request _
        (λ db p. p.0)
        (λ _.
          Leads-when _ _ _ (not (has_condition rule || is_set rule.direction)) bad_request _
            (λ db p. p.0)
            (λ bare. Leads.Leads-pure _ _ _ existing.category_id (λ db p.
              let sound =
                first_row-All (IsSoundRule db.categories) (λ r. r.id == id) db.rules existing
                  p.0.0.each p.1 in
              (p, ground arith, ground arith, sound.category, λ _. refl)))))
]

pub handle_update_rule-Steady :
    (builtins : List (ℕ × String × ℕ)) (trim : String → String) (path : Option ℤ)
    (body : Option CategorizationRuleRequest)
    → Leads
        (Steady builtins)
        (λ _. Steady builtins)
        (Steady builtins)
        (handle_update_rule trim path body)
unfolding handle_update_rule Stored.update_categorization_rule get_categorization_rule
handle_update_rule-Steady builtins trim path body =
    Leads-given_part _ _ _ (parse_id path) _ (λ db p. p)
      (λ id _.
        Leads-given_part _ _ _ body _ (λ db p. p)
          (λ request _.
            Leads.Leads-bind _ _ _ _ _ _
              (normalize_rule_request-Leads (Steady builtins) trim request)
              (λ rule. Leads.Leads-given _ _ _ _ _ (λ directed.
                Leads.Leads-bind _ _ _ _ _ _
                  (Leads.Leads-select_one (Steady builtins) (Steady builtins) (rule_with_id id)
                    missing_row (λ db p. p))
                  (λ existing.
                    Leads.Leads-bind _ _ _ _ _ _ (validate_update-Leads builtins id existing rule)
                      (λ c.
                        Leads.Leads-bind _ (λ _. Steady builtins) _ _ _ _
                          (Leads.Leads-statement _ _ _ _ missing_row (λ db p. p.0.0)
                            (λ db p. written id existing rule c db directed p))
                          (λ n. Keeps-write_rule (Steady builtins) id)))))))
  where
    written :
        (id : ℕ) (existing : CategorizationRule) (rule : NormalizedRule) (c : ℕ) (db : Db)
        → is_direction rule.direction ≡ true
        → Checked builtins id existing rule c db
        → Leads.Written
            (λ _. Steady builtins)
            (or_no_rows
              (updated id (rule_fields c rule) db)
              (if any_row (λ r. r.id == id) db.rules then some id else none))
    written id existing rule c db directed
          (((sound, same), found), conditioned, bare, known, kept) =
        go (any_row (λ r. r.id == id) db.rules)
      where
        go :
            (b : Bool)
            → Leads.Written
                (λ _. Steady builtins)
                (or_no_rows (updated id (rule_fields c rule) db) (if b then some id else none))
        go true = (
          Sound-updated id existing (rule_fields c rule) db sound found (
              IsSoundRule-fields existing.id c existing.kind rule db directed conditioned bare
                known),
          builtin_rules-updated id existing (rule_fields c rule) db sound found kept ∙ same,
        )
        go false = tt

pub handle_delete_rule-Steady :
    (builtins : List (ℕ × String × ℕ)) (path : Option ℤ)
    → Leads (Steady builtins) (λ _. Steady builtins) (Steady builtins) (handle_delete_rule path)
unfolding handle_delete_rule Stored.delete_categorization_rule get_categorization_rule
handle_delete_rule-Steady builtins path =
    Leads-given_part _ _ _ (parse_id path) _ (λ db p. p)
      (λ id _.
        Leads.Leads-bind _ (λ _. Steady builtins) _ _ _ _
          (Leads.Leads-ReadOnly _ _
            (ReadOnly-on_failure _ missing_row (ReadOnly-select_one (rule_with_id id))))
          (λ existing.
            Leads-when _ _ _ (is_pattern existing) bad_request _ (λ db p. p)
              (λ _.
                Leads.Leads-bind _ (λ _. Steady builtins) _ _ _ _
                  (Leads.Leads-statement _ _ _ _ internal (λ db p. p)
                    (λ db (sound, same).
                      gone id db (any_row (is_deletable id) db.rules)
                        (Sound-deleted id db sound, builtin_rules-deleted id db ∙ same)
                        (sound, same)))
                  last)))
  where
    gone :
        (id : ℕ) (db : Db) (b : Bool)
        → Steady builtins (deleted id db)
        → Steady builtins db
        → Leads.Written
            (λ _. Steady builtins)
            (if b then ok (true, deleted id db) else ok (false, db))
    gone id db true p q = p
    gone id db false p q = q

    last :
        (b : Bool)
        → Leads
            (Steady builtins)
            (λ _. Steady builtins)
            (Steady builtins)
            (require {E = HttpError} b not_found)
    last true = Leads.Leads-pure _ _ _ tt (λ db p. p)
    last false = Leads.Leads-raise _ _ _ not_found (λ db p. p)
