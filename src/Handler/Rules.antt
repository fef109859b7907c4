-- ===== src/Handler/Rules.antt =====
-- internal/handler/rules.go: the handlers of the categorization rules.
pub mod Sound
pub mod Steady
pub mod Requests
pub mod ClosedYears
use bank_system_public.Base.{
  ℕ, String, Bool, true, not, ◌&&◌, ◌||◌, Option, none, some, List, str_eq, ◌==◌, is_set,
  if◌then◌else◌,
}
use bank_system_public.Base.Int.{ℤ}
use bank_system_public.Calendar.{Date, before}
use bank_system_public.Auth.{Claims, has_role}
use bank_system_public.Store.{
  CategorizationRule, RuleFields, pure, raise, require, ◌>>=◌, on_failure, category_exists,
  get_categorization_rule, list_categorization_rules,
}
use bank_system_public.Store.Rules as Stored
use bank_system_public.Processing.Reapply.{
  ReapplyResult, ReapplyError, rule_not_found, rule_disabled, database, reapply_rule,
}
use bank_system_public.Store.{Result, ok, err}
use bank_system_public.Handler.Http.{
  HttpError, bad_request, not_found, forbidden, internal_error, Handler, internal, missing_row,
  parse_id, or_bad_request,
}
use bank_system_public.Handler.BudgetText.{trimmed_text}

abbrev pub rule_kind_pattern : String
rule_kind_pattern = "pattern"

abbrev pub rule_field_max_length : ℕ
rule_field_max_length = 255

-- A category id is omitted or given.
pub record CategorizationRuleRequest : Type 0 where
  pub priority : Option ℤ
  pub category_id : Option ℕ
  pub enabled : Option Bool
  pub note : Option String
  pub counter_account_number : Option String
  pub variable_symbol : Option String
  pub constant_symbol : Option String
  pub text_contains : Option String
  pub transaction_type_contains : Option String
  pub direction : Option String

pub record NormalizedRule : Type 0 where
  pub priority : ℤ
  pub category_id : Option ℕ
  pub enabled : Bool
  pub note : Option String
  pub counter_account_number : Option String
  pub variable_symbol : Option String
  pub constant_symbol : Option String
  pub text_contains : Option String
  pub transaction_type_contains : Option String
  pub direction : Option String

unfoldable pub has_condition : NormalizedRule → Bool
has_condition rule =
    is_set rule.counter_account_number
    || is_set rule.variable_symbol
    || is_set rule.constant_symbol
    || is_set rule.text_contains
    || is_set rule.transaction_type_contains

-- `request.Enabled == nil || *request.Enabled`
abbrev pub is_enabled : Option Bool → Bool
is_enabled none = true
is_enabled (some enabled) = enabled

-- `direction must be incoming or outgoing`, unless it is absent
abbrev pub is_direction : Option String → Bool
is_direction none = true
is_direction (some text) = str_eq text "incoming" || str_eq text "outgoing"

-- optionalRuleField; strings.TrimSpace is `trim`.
abbrev pub optional_rule_field : (String → String) → Option String → Handler (Option String)
optional_rule_field trim value = or_bad_request (trimmed_text trim rule_field_max_length value)

unfoldable pub normalize_rule_request :
    (String → String) → CategorizationRuleRequest → Handler NormalizedRule
normalize_rule_request trim request = do
  priority ← or_bad_request request.priority
  note ← optional_rule_field trim request.note
  counter_account_number ← optional_rule_field trim request.counter_account_number
  variable_symbol ← optional_rule_field trim request.variable_symbol
  constant_symbol ← optional_rule_field trim request.constant_symbol
  text_contains ← optional_rule_field trim request.text_contains
  transaction_type_contains ← optional_rule_field trim request.transaction_type_contains
  direction ← optional_rule_field trim request.direction
  _ ← require (is_direction direction) bad_request
  pure (record {
    priority = priority;
    category_id = request.category_id;
    enabled = is_enabled request.enabled;
    note = note;
    counter_account_number = counter_account_number;
    variable_symbol = variable_symbol;
    constant_symbol = constant_symbol;
    text_contains = text_contains;
    transaction_type_contains = transaction_type_contains;
    direction = direction;
  })

abbrev pub rule_fields : ℕ → NormalizedRule → RuleFields
rule_fields category_id rule = record {
  priority = rule.priority;
  category_id = category_id;
  enabled = rule.enabled;
  counter_account_number = rule.counter_account_number;
  variable_symbol = rule.variable_symbol;
  constant_symbol = rule.constant_symbol;
  text_contains = rule.text_contains;
  transaction_type_contains = rule.transaction_type_contains;
  direction = rule.direction;
  note = rule.note;
}

-- The category of a pattern rule that passes the checks.
unfoldable pub validate_pattern_rule : NormalizedRule → Handler ℕ
validate_pattern_rule rule = do
  category_id ← or_bad_request rule.category_id
  _ ← require (has_condition rule) bad_request
  exists ← on_failure (category_exists category_id) internal
  _ ← require exists bad_request
  pure category_id

unfoldable pub write_rule : ℕ → Handler CategorizationRule
write_rule id = on_failure (get_categorization_rule id) internal

unfoldable pub handle_list_rules : Handler (List CategorizationRule)
handle_list_rules = on_failure list_categorization_rules internal

unfoldable pub handle_create_rule :
    (String → String) → Option CategorizationRuleRequest → Handler CategorizationRule
handle_create_rule trim body = do
  request ← or_bad_request body
  rule ← normalize_rule_request trim request
  category_id ← validate_pattern_rule rule
  id ← on_failure (Stored.create_categorization_rule (rule_fields category_id rule)) internal
  write_rule id

abbrev pub is_same_category : Option ℕ → ℕ → Bool
is_same_category none existing = true
is_same_category (some id) existing = id == existing

-- A built-in rule keeps its category and takes no conditions.
unfoldable pub validate_builtin_rule : CategorizationRule → NormalizedRule → Handler ℕ
validate_builtin_rule existing rule = do
  _ ← require (is_same_category rule.category_id existing.category_id) bad_request
  _ ← require (not (has_condition rule || is_set rule.direction)) bad_request
  pure existing.category_id

unfoldable pub validate_update : CategorizationRule → NormalizedRule → Handler ℕ
validate_update existing rule =
    if str_eq existing.kind rule_kind_pattern
    then validate_pattern_rule rule
    else validate_builtin_rule existing rule

unfoldable pub handle_update_rule :
    (String → String) → Option ℤ → Option CategorizationRuleRequest → Handler CategorizationRule
handle_update_rule trim path body = do
  id ← or_bad_request (parse_id path)
  request ← or_bad_request body
  rule ← normalize_rule_request trim request
  existing ← on_failure (get_categorization_rule id) missing_row
  category_id ← validate_update existing rule
  _ ← on_failure (Stored.update_categorization_rule id (rule_fields category_id rule)) missing_row
  write_rule id

unfoldable pub handle_delete_rule : Option ℤ → Handler (Unit {0})
handle_delete_rule path = do
  id ← or_bad_request (parse_id path)
  existing ← on_failure (get_categorization_rule id) missing_row
  _ ← require (str_eq existing.kind rule_kind_pattern) bad_request
  deleted ← on_failure (Stored.delete_categorization_rule id) internal
  require deleted not_found

-- startOfCurrentYear of a time in this year
abbrev pub start_of_year : ℕ → Date
start_of_year year = record { year = year; month = 1; day = 1 }

abbrev pub allowed_from : Date → Bool → Option Date → Option Date
allowed_from minimum override none = none
allowed_from minimum override (some from) =
    if before from minimum && not override then none else some from

-- reapplyFromDate; time.Parse of the layout "2006-01-02" is `parse`.
unfoldable pub reapply_from_date : (String → Option Date) → ℕ → Bool → String → Option Date
reapply_from_date parse year override value =
    if str_eq value ""
    then some (start_of_year year)
    else allowed_from (start_of_year year) override (parse value)

abbrev pub reapply_status : ReapplyError → HttpError
reapply_status rule_not_found = not_found
reapply_status rule_disabled = bad_request
reapply_status (database e) = internal_error

abbrev pub answer_reapply : {A : Type 0} → Result ReapplyError A → Result HttpError A
answer_reapply (ok a) = ok a
answer_reapply (err e) = err (reapply_status e)

abbrev pub reapplied : (ℕ → ℕ) → ℕ → Date → Handler ReapplyResult
reapplied lower id from s = let (r, s') = reapply_rule lower id from s in (answer_reapply r, s')

abbrev pub role_override_rules : String
role_override_rules = "override-rules"

abbrev pub or_forbidden : Option Claims → Handler Claims
or_forbidden none = raise forbidden
or_forbidden (some claims) = pure claims

-- ReapplyCategorizationRule; the body is its `from`, "" if the body is empty.
unfoldable pub handle_reapply_rule :
    (ℕ → ℕ)
    → (String → Option Date)
    → ℕ
    → String
    → Option ℤ
    → Option String
    → Option Claims
    → Handler ReapplyResult
handle_reapply_rule lower parse year client path body context = do
  id ← or_bad_request (parse_id path)
  value ← or_bad_request body
  claims ← or_forbidden context
  from ←
      or_bad_request
        (reapply_from_date parse year (has_role client claims role_override_rules) value)
  reapplied lower id from
