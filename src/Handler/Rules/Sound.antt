-- ===== src/Handler/Rules/Sound.antt =====
-- The table of the rules, and what the statements on it keep.
use bank_system_public.Base.{
  ℕ, ◌+◌, ◌<◌, String, Bool, true, false, not, ◌||◌, ◌≡◌, refl, sym, ◌∙◌, ap, some, List, [], ◌∷◌,
  ◌++◌, map, str_eq, ◌==◌, is_set, any_row, where_rows, update_rows, where_rows-append, arith, All,
  All-append, All-map, All-kept, All-first_row, All-rewritten, Apart, Apart-append, Apart-kept,
  Apart-updated, where_rows-kept, map_where-updated,
}
use mathlib.Core.Path.{subst}
use mathlib.Core.List.{append-nil}
use bank_system_public.Store.Schema.{CategorizationRule, Category, Db}
use bank_system_public.Store.Rules.{
  RuleFields, rule_row, rule_with_id, is_deletable, is_decided_by, forget_rule,
}
use bank_system_public.Handler.Rules.{is_direction}

abbrev pub is_pattern : CategorizationRule → Bool
is_pattern r = str_eq r.kind "pattern"

abbrev pub row_has_condition : CategorizationRule → Bool
row_has_condition r =
    is_set r.counter_account_number
    || is_set r.variable_symbol
    || is_set r.constant_symbol
    || is_set r.text_contains
    || is_set r.transaction_type_contains

-- A pattern rule has a condition, a built-in rule neither a condition nor a direction; a direction is
-- one of the two, and the category exists.
pub record IsSoundRule (categories : List Category) (r : CategorizationRule) : Type 0 where
  pub condition : row_has_condition r ≡ is_pattern r
  pub no_direction : (is_pattern r || not (is_set r.direction)) ≡ true
  pub direction : is_direction r.direction ≡ true
  pub category : any_row (λ c. c.id == r.category_id) categories ≡ true

abbrev pub same_id : CategorizationRule → CategorizationRule → Bool
same_id a b = b.id == a.id

-- Every rule is sound, and the ids are distinct and in use.
pub record RulesSound (db : Db) : Type 0 where
  pub each : All (IsSoundRule db.categories) db.rules
  pub distinct : Apart same_id db.rules
  pub used : All (λ r. r.id < db.next_id) db.rules

-- What may not change of a built-in rule.
abbrev pub fixed_part : CategorizationRule → ℕ × String × ℕ
fixed_part r = (r.id, r.kind, r.category_id)

abbrev pub is_builtin : CategorizationRule → Bool
is_builtin r = not (is_pattern r)

abbrev pub builtin_rules : Db → List (ℕ × String × ℕ)
builtin_rules db = map fixed_part (where_rows is_builtin db.rules)

-- A row that a request writes.
abbrev pub inserted : RuleFields → Db → Db
inserted f db = record db {
  rules = db.rules ++ rule_row db.next_id "pattern" f ∷ [];
  next_id = db.next_id + 1;
}

unused :
    (n : ℕ) (r : CategorizationRule) (rules : List CategorizationRule)
    → r.id ≡ n
    → All (λ q. q.id < n) rules
    → any_row (same_id r) rules ≡ false
unused n r [] e h = refl
unused n r (q ∷ qs) e h = let below = h.0 in let rest = unused n r qs e h.1 in ground arith

pub Sound-inserted :
    (f : RuleFields) (db : Db)
    → RulesSound db
    → IsSoundRule db.categories (rule_row db.next_id "pattern" f)
    → RulesSound (inserted f db)
Sound-inserted f db sound h = record {
  each = All-append _ db.rules _ sound.each (h, tt);
  distinct =
      Apart-append same_id db.rules (rule_row db.next_id "pattern" f) (λ r. ground arith)
        (unused db.next_id (rule_row db.next_id "pattern" f) db.rules refl sound.used)
        sound.distinct;
  used =
      All-append _ db.rules _ (All-map _ _ (λ r below. omega (arith, below)) db.rules sound.used)
        (omega arith, tt);
}

pub builtin_rules-inserted :
    (f : RuleFields) (db : Db) → builtin_rules (inserted f db) ≡ builtin_rules db
builtin_rules-inserted f db = ap (map fixed_part) (
    where_rows-append is_builtin db.rules (rule_row db.next_id "pattern" f ∷ [])
    ∙ append-nil (where_rows is_builtin db.rules))

abbrev pub updated : ℕ → RuleFields → Db → Db
updated id f db = record db {
  rules = update_rows (λ r. r.id == id) (λ r. rule_row r.id r.kind f) db.rules;
}

only_rule :
    (id : ℕ) (existing : CategorizationRule) (db : Db)
    → RulesSound db
    → rule_with_id id db ≡ some existing
    → All (λ r. (r.id == id) ≡ true → r ≡ existing) db.rules
only_rule id existing db sound h =
    All-first_row same_id (λ r. r.id == id) db.rules existing (λ a b p q. ground arith)
      sound.distinct h

pub Sound-updated :
    (id : ℕ) (existing : CategorizationRule) (f : RuleFields) (db : Db)
    → RulesSound db
    → rule_with_id id db ≡ some existing
    → IsSoundRule db.categories (rule_row existing.id existing.kind f)
    → RulesSound (updated id f db)
Sound-updated id existing f db sound found h = record {
  each =
      All-rewritten _ _ _ db.rules
        (All-map _ _
          (λ r only e _.
            subst (λ q. IsSoundRule db.categories (rule_row q.id q.kind f)) (sym (only e)) h)
          db.rules (only_rule id existing db sound found))
        sound.each;
  distinct = Apart-updated same_id _ _ db.rules (λ a b. (refl, refl)) sound.distinct;
  used =
      All-rewritten _ _ _ db.rules (All-map _ _ (λ r below e same. same) db.rules sound.used)
        sound.used;
}

pub builtin_rules-updated :
    (id : ℕ) (existing : CategorizationRule) (f : RuleFields) (db : Db)
    → RulesSound db
    → rule_with_id id db ≡ some existing
    → (is_builtin existing ≡ true → f.category_id ≡ existing.category_id)
    → builtin_rules (updated id f db) ≡ builtin_rules db
builtin_rules-updated id existing f db sound found kept =
    map_where-updated fixed_part is_builtin (λ r. r.id == id) (λ r. rule_row r.id r.kind f) db.rules
      (All-map _ _
        (λ r only e. (
          refl,
          λ builtin.
              ap (λ c. (r.id, r.kind, c))
                (kept (subst (λ q. is_builtin q ≡ true) (only e) builtin)
                  ∙ ap (λ q. q.category_id) (sym (only e))),
        ))
        db.rules (only_rule id existing db sound found))

abbrev pub deleted : ℕ → Db → Db
deleted id db = record db {
  rules = where_rows (λ r. not (is_deletable id r)) db.rules;
  processed = update_rows (is_decided_by id) (forget_rule id) db.processed;
}

pub Sound-deleted : (id : ℕ) (db : Db) → RulesSound db → RulesSound (deleted id db)
Sound-deleted id db sound = record {
  each = All-kept _ _ _ db.rules (λ r kept h. h) sound.each;
  distinct = Apart-kept same_id _ db.rules sound.distinct;
  used = All-kept _ _ _ db.rules (λ r kept h. h) sound.used;
}

pub builtin_rules-deleted : (id : ℕ) (db : Db) → builtin_rules (deleted id db) ≡ builtin_rules db
builtin_rules-deleted id db =
    ap (map fixed_part) (
      where_rows-kept is_builtin (λ r. not (is_deletable id r)) db.rules
        (λ r builtin. ground arith))
