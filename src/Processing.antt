-- ===== src/Processing.antt =====
-- internal/processing/processing.go: from raw transactions to processed transactions and coverage.
-- The error messages are not modelled, only that there is an error and what it leaves behind.
pub mod Text
pub mod Symbols
pub mod Matching
pub mod FirstMatch
pub mod Lookup
pub mod Atomicity
pub mod Batch
pub mod Drain
pub mod Reapply
mod Tests
unfoldable pub use Text.*
use bank_system_public.Base.{
  ℕ, zero, suc, ◌+◌, String, Bool, true, false, not, ◌&&◌, ◌||◌, Option, none, some, List, [], ◌∷◌,
  str_eq, ◌==◌, ltb, if◌then◌else◌, any_row, is_set,
}
use bank_system_public.CategoryId
use bank_system_public.Calendar.{Date, covered_month}
use bank_system_public.Store.{
  RawTransaction, ProcessedTransaction, CategorizationRule, Candidate, Failure, failed, Result, ok,
  err, Session, Query, pure, raise, ◌>>=◌, ◌>>◌, optional, on_failure, in_transaction,
  find_member_by_variable_symbol, list_unprocessed_transactions, list_enabled_categorization_rules,
  list_active_bank_account_numbers, create_processed_transaction, create_payment_coverage,
  list_reapply_candidates, reapply_categorization, delete_coverage_for_transaction,
  get_categorization_rule, Action,
}

-- processing.Result
pub record RunResult : Type 0 where
  pub transactions_processed : ℕ
  pub transactions_failed : ℕ

-- What categorize decided: `rule_id` is nil when the fallback applied; the member and `matched_by`
-- are set by the member_variable_symbol rule alone.
pub record Outcome : Type 0 where
  pub category_id : ℕ
  pub rule_id : Option ℕ
  pub member_number : Option ℕ
  pub matched_by : Option String

unfoldable pub transaction_direction : String → String
unfolding is_negative
transaction_direction amount = if is_negative amount then "outgoing" else "incoming"

unfoldable pub fallback_category : String → ℕ
fallback_category direction =
    if str_eq direction "incoming" then CategoryId.other_income else CategoryId.other_expense

abbrev pub fallback : String → Outcome
fallback direction = record {
  category_id = fallback_category direction;
  rule_id = none;
  member_number = none;
  matched_by = none;
}

abbrev pub plain_outcome : CategorizationRule → Outcome
plain_outcome rule = record {
  category_id = rule.category_id;
  rule_id = some rule.id;
  member_number = none;
  matched_by = none;
}

abbrev pub member_outcome : CategorizationRule → ℕ → Outcome
member_outcome rule member = record {
  category_id = rule.category_id;
  rule_id = some rule.id;
  member_number = some member;
  matched_by = some "variable_symbol";
}

abbrev pub contains_account : List String → String → Bool
contains_account accounts number = any_row (λ a. str_eq a number) accounts

-- `rt.CounterAccountNumber != nil && ourAccounts[*rt.CounterAccountNumber]`
unfoldable pub is_own_account : List String → Option String → Bool
is_own_account accounts none = false
is_own_account accounts (some number) = contains_account accounts number

-- One condition of a pattern rule: NULL is not checked.
abbrev pub condition : Option String → (String → Bool) → Bool
condition none test = true
condition (some value) test = test value

abbrev pub same_symbol : Option String → String → Bool
same_symbol none value = false
same_symbol (some symbol) value =
    str_eq (normalize_variable_symbol symbol) (normalize_variable_symbol value)

abbrev pub as_match : Bool → Outcome → Option Outcome
as_match true o = some o
as_match false o = none

abbrev pub member_match : CategorizationRule → Option ℕ → Option Outcome
member_match rule none = none
member_match rule (some member) = some (member_outcome rule member)

-- The member_variable_symbol case: a missing or empty symbol matches nothing.
unfoldable pub apply_member_rule :
    CategorizationRule → Option String → Date → Query (Option Outcome)
apply_member_rule rule none date = pure none
apply_member_rule rule (some symbol) date = if str_eq symbol "" then pure none else do
  member ← optional (find_member_by_variable_symbol (normalize_variable_symbol symbol) date)
  pure (member_match rule member)

abbrev pub same_failure : Failure → Failure
same_failure e = e

-- The default coverage of a matched member: the month before the payment's own.
unfoldable pub cover_default : ℕ → Option ℕ → Date → Query (Unit {0})
cover_default id none date = pure tt
cover_default id (some member) date =
    create_payment_coverage (record {
      processed_transaction_id = id;
      member_number = member;
      covers = covered_month date;
    })

-- The two inserts of one transaction.
unfoldable pub insert_outcome : RawTransaction → Outcome → Query (Unit {0})
insert_outcome rt o =
    create_processed_transaction (record {
      raw_transaction_id = rt.id;
      member_number = o.member_number;
      category_id = o.category_id;
      direction = transaction_direction rt.amount;
      matched_by = o.matched_by;
      categorization_rule_id = o.rule_id;
    })
    >>= λ pt. cover_default pt.id o.member_number rt.transaction_date

unfoldable pub store_outcome : RawTransaction → Outcome → Query (Unit {0})
store_outcome rt o = in_transaction same_failure same_failure (insert_outcome rt o)

-- The enabled rules in evaluation order and our own account numbers.
unfoldable pub load_rules : Query (List CategorizationRule × List String)
load_rules = do
  rules ← list_enabled_categorization_rules
  accounts ← list_active_bank_account_numbers
  pure (rules, accounts)

abbrev pub tally : {A : Type 0} → Result Failure A → RunResult → RunResult
tally (ok a) r = record r { transactions_processed = r.transactions_processed + 1 }
tally (err e) r = record r { transactions_failed = r.transactions_failed + 1 }

module _ (lower : ℕ → ℕ) where
  unfoldable pub matches_pattern : CategorizationRule → RawTransaction → String → Bool
  unfolding equal_field contains_fold
  matches_pattern rule rt direction =
      condition rule.direction (λ d. str_eq d direction)
      && condition rule.counter_account_number (equal_field rt.counter_account_number)
      && condition rule.variable_symbol (same_symbol rt.variable_symbol)
      && condition rule.constant_symbol (equal_field rt.constant_symbol)
      && condition rule.text_contains (λ text.
        contains_fold lower rt.comment text
        || contains_fold lower rt.user_identification text
        || contains_fold lower rt.message_for_recipient text)
      && condition rule.transaction_type_contains (contains_fold lower rt.transaction_type)

  -- One rule against one transaction; `none` is "not matched".
  unfoldable pub apply_rule :
      CategorizationRule → RawTransaction → String → List String → Query (Option Outcome)
  unfolding is_own_account
  apply_rule rule rt direction accounts =
      if str_eq rule.kind "own_account"
      then pure (as_match (is_own_account accounts rt.counter_account_number) (plain_outcome rule))
      else if str_eq rule.kind "member_variable_symbol"
      then apply_member_rule rule rt.variable_symbol rt.transaction_date
      else if str_eq rule.kind "pattern"
      then pure (as_match (matches_pattern rule rt direction) (plain_outcome rule))
      else pure none

  abbrev pub or_else : Query Outcome → Option Outcome → Query Outcome
  or_else rest none = rest
  or_else rest (some o) = pure o

  -- The first rule that matches, or the fallback.
  unfoldable pub categorize :
      RawTransaction → String → List String → List CategorizationRule → Query Outcome
  categorize rt direction accounts [] = pure (fallback direction)
  categorize rt direction accounts (rule ∷ rules) = do
    result ← apply_rule rule rt direction accounts
    or_else (categorize rt direction accounts rules) result

  unfoldable pub process_one :
      RawTransaction → List CategorizationRule → List String → Query (Unit {0})
  process_one rt rules accounts =
      categorize rt (transaction_direction rt.amount) accounts rules >>= store_outcome rt

  -- The loop of processing.Run: a transaction that fails is counted and skipped.
  unfoldable pub run_rows :
      List RawTransaction
      → List CategorizationRule
      → List String
      → RunResult
      → Session
      → RunResult × Session
  run_rows [] rules accounts acc s = (acc, s)
  run_rows (rt ∷ rts) rules accounts acc s =
      let (r, s') = process_one rt rules accounts s in run_rows rts rules accounts (tally r acc) s'

  unfoldable pub run_loaded :
      List RawTransaction → List CategorizationRule × List String → Query RunResult
  run_loaded rows (rules, accounts) s =
      let (r, s') =
        run_rows rows rules accounts
          (record { transactions_processed = 0; transactions_failed = 0 }) s in
      (ok r, s')

  -- processing.Run
  unfoldable pub run : Query RunResult
  run = do rows ← list_unprocessed_transactions; loaded ← load_rules; run_loaded rows loaded
