-- ===== src/Store/Rules.antt =====
-- The statements on categorization_rules (internal/db/queries.sql.go).
use bank_system_public.Base.{
  ℕ, ◌+◌, String, Bool, true, false, not, ◌&&◌, Option, none, some, List, [], ◌∷◌, ◌++◌, str_eq,
  ◌==◌, if◌then◌else◌, first_row, any_row, where_rows, update_rows,
}
use bank_system_public.Base.Int.{ℤ, ltb_ℤ}
use bank_system_public.Store.Schema.{CategorizationRule, ProcessedTransaction, Db}
use bank_system_public.Store.Monad.{ok, Query, statement, select, select_one, or_no_rows}

-- ORDER BY priority, id: the table is in the order of its ids, so a stable sort by priority.
unfoldable pub insert_by_priority :
    CategorizationRule → List CategorizationRule → List CategorizationRule
insert_by_priority r [] = r ∷ []
insert_by_priority r (q ∷ qs) =
    let rest = insert_by_priority r qs in
    if ltb_ℤ q.priority r.priority then q ∷ rest else r ∷ q ∷ qs

unfoldable pub by_priority : List CategorizationRule → List CategorizationRule
unfolding insert_by_priority
by_priority [] = []
by_priority (r ∷ rs) = insert_by_priority r (by_priority rs)

abbrev pub enabled_rules : Db → List CategorizationRule
enabled_rules db = by_priority (where_rows (λ r. r.enabled) db.rules)

unfoldable pub list_enabled_categorization_rules : Query (List CategorizationRule)
list_enabled_categorization_rules = select enabled_rules

unfoldable pub list_categorization_rules : Query (List CategorizationRule)
list_categorization_rules = select (λ db. by_priority db.rules)

abbrev pub rule_with_id : ℕ → Db → Option CategorizationRule
rule_with_id id db = first_row (λ r. r.id == id) db.rules

unfoldable pub get_categorization_rule : ℕ → Query CategorizationRule
get_categorization_rule id = select_one (rule_with_id id)

-- The editable columns, which CreateCategorizationRule and UpdateCategorizationRule write.
pub record RuleFields : Type 0 where
  pub priority : ℤ
  pub category_id : ℕ
  pub enabled : Bool
  pub counter_account_number : Option String
  pub variable_symbol : Option String
  pub constant_symbol : Option String
  pub text_contains : Option String
  pub transaction_type_contains : Option String
  pub direction : Option String
  pub note : Option String

abbrev pub rule_row : ℕ → String → RuleFields → CategorizationRule
rule_row id kind f = record {
  id = id;
  priority = f.priority;
  kind = kind;
  enabled = f.enabled;
  counter_account_number = f.counter_account_number;
  variable_symbol = f.variable_symbol;
  constant_symbol = f.constant_symbol;
  text_contains = f.text_contains;
  transaction_type_contains = f.transaction_type_contains;
  direction = f.direction;
  note = f.note;
  category_id = f.category_id;
}

unfoldable pub create_categorization_rule : RuleFields → Query ℕ
create_categorization_rule f = statement (λ db. ok (
  db.next_id,
  record db { rules = db.rules ++ rule_row db.next_id "pattern" f ∷ []; next_id = db.next_id + 1 },
))

unfoldable pub update_categorization_rule : ℕ → RuleFields → Query ℕ
update_categorization_rule id f = statement (λ db.
    or_no_rows
      (record db { rules = update_rows (λ r. r.id == id) (λ r. rule_row r.id r.kind f) db.rules })
      (if any_row (λ r. r.id == id) db.rules then some id else none))

abbrev pub is_deletable : ℕ → CategorizationRule → Bool
is_deletable id r = r.id == id && str_eq r.kind "pattern"

-- ON DELETE SET NULL
abbrev pub forget_rule : ℕ → ProcessedTransaction → ProcessedTransaction
forget_rule id pt = record pt { categorization_rule_id = none }

abbrev pub is_decided_by : ℕ → ProcessedTransaction → Bool
is_decided_by id pt = elim pt.categorization_rule_id [ none ↦ false | some r ↦ r == id ]

-- The answer is whether a row was deleted.
unfoldable pub delete_categorization_rule : ℕ → Query Bool
delete_categorization_rule id = statement (λ db.
    if any_row (is_deletable id) db.rules
    then ok (
      true,
      record db {
        rules = where_rows (λ r. not (is_deletable id r)) db.rules;
        processed = update_rows (is_decided_by id) (forget_rule id) db.processed;
      },
    )
    else ok (false, db))
