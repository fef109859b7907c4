-- ===== src/Handler/BudgetTests.antt =====
-- The theorems on budgets and rules, at concrete requests.
use bank_system_public.Base.{
  ℕ, String, ◌≡◌, refl, ◌<◌, ◌^◌, true, false, Bool, none, some, [], ◌∷◌, arith,
}
use bank_system_public.Base.Int.{pos}
use bank_system_public.CategoryId
use bank_system_public.Store.{Db, empty_db, calm}
use bank_system_public.Store.LineCategories.Sound.{BudgetsSound}
use bank_system_public.Handler.BudgetText.{amount_codes}
use bank_system_public.Handler.BudgetText.{budget_amount-bounded}
use bank_system_public.Handler.BudgetRequest.{
  BudgetLineRequest, NormalizedBudgetLine, normalize_budget_line,
}
use bank_system_public.Handler.BudgetLines.{handle_budget_line_save}
use bank_system_public.Handler.BudgetLines.Answers.{SaveEnds, handle_budget_line_save-SaveEnds}
use bank_system_public.Handler.BudgetLines.Requests.{
  create_budget, create_line, delete_line, serve_budgets, serve_budgets-BudgetsSound,
}
use bank_system_public.Handler.Rules.{CategorizationRuleRequest}
use bank_system_public.Base.{List}
use bank_system_public.Handler.Categories.Sound.{CategoriesSound, mandatory}
use bank_system_public.Handler.Categories.Requests.{
  CategoryCall, create_category, delete_category, serve_categories,
  serve_categories-CategoriesSound,
}
use bank_system_public.Handler.Rules.Sound.{RulesSound, builtin_rules}
use bank_system_public.Handler.Rules.Requests.{
  create_rule, delete_rule, serve_rules, serve_rules-RulesSound, builtin_rules-serve_rules,
}

-- In place of strings.TrimSpace, of the order of texts, and of unicode.ToLower.
abbrev trim : String → String
trim text = text

abbrev name_before : String → String → Bool
name_before a b = false

abbrev lower : ℕ → ℕ
lower c = c

-- One category, a budget for 2026 without lines, and a built-in rule.
abbrev db : Db
db = record empty_db {
  categories =
      record {
        id = CategoryId.other_expense;
        name = "other_expense";
        is_mandatory = true;
        parent_id = none;
      }
      ∷ [];
  budgets = record { year = 2026; note = none; created_at = 0 } ∷ [];
  rules =
      record {
        id = 1;
        priority = pos 1;
        kind = "own_account";
        enabled = true;
        counter_account_number = none;
        variable_symbol = none;
        constant_symbol = none;
        text_contains = none;
        transaction_type_contains = none;
        direction = none;
        note = none;
        category_id = CategoryId.other_expense;
      }
      ∷ [];
  next_id = 10;
}

abbrev rent : BudgetLineRequest
rent = record {
  kind = "expense";
  group_name = none;
  name = "Rent";
  budgeted = "60000.50";
  category_ids = some CategoryId.other_expense ∷ some CategoryId.other_expense ∷ [];
  sort_order = pos 0;
  note = none;
}

abbrev rent_line : NormalizedBudgetLine
rent_line = record {
  fields = record {
    kind = "expense";
    group_name = none;
    name = "Rent";
    budgeted_amount = 6000050;
    sort_order = pos 0;
    note = none;
  };
  category_ids = CategoryId.other_expense ∷ [];
}

budget_amount-bounded_example : 6000050 < 10 ^ 14
unfolding amount_codes
budget_amount-bounded_example = budget_amount-bounded trim "60000.50" 6000050 refl

handle_budget_line_save-SaveEnds_example :
    SaveEnds 2026 0 rent_line db
      (handle_budget_line_save trim name_before 2026 0 (some rent) (calm db))
unfolding normalize_budget_line amount_codes
handle_budget_line_save-SaveEnds_example =
    handle_budget_line_save-SaveEnds trim name_before 2026 0 rent rent_line (calm db) refl

-- A line in 2026, a budget for 2027 with a copy of it, and the first line deleted.
serve_budgets-BudgetsSound_example :
    BudgetsSound
      (serve_budgets trim name_before
        (create_line (some (pos 2026)) (some rent)
          ∷ create_budget
              (some (record { year = pos 2027; note = none; copy_from_year = some (pos 2026) }))
          ∷ delete_line (some (pos 2026)) (some (pos 10))
          ∷ [])
        (calm db)).db
serve_budgets-BudgetsSound_example =
    serve_budgets-BudgetsSound trim name_before
      (create_line (some (pos 2026)) (some rent)
        ∷ create_budget
            (some (record { year = pos 2027; note = none; copy_from_year = some (pos 2026) }))
        ∷ delete_line (some (pos 2026)) (some (pos 10))
        ∷ [])
      (calm db) (record { years = tt; lines = tt; categories = tt; apart = tt })

abbrev rent_rule : CategorizationRuleRequest
rent_rule = record {
  priority = some (pos 5);
  category_id = some CategoryId.other_expense;
  enabled = none;
  note = none;
  counter_account_number = none;
  variable_symbol = none;
  constant_symbol = none;
  text_contains = some "rent";
  transaction_type_contains = none;
  direction = some "outgoing";
}

rules_sound : RulesSound db
rules_sound = record {
  each = (record { condition = refl; no_direction = refl; direction = refl; category = refl }, tt);
  distinct = (refl, tt);
  used = (omega arith, tt);
}

-- A rule is created, and deleting the built-in one is tried.
serve_rules-RulesSound_example :
    RulesSound
      (serve_rules trim
        (create_rule (some rent_rule) ∷ delete_rule (some (pos 1)) ∷ [])
        (calm db)).db
serve_rules-RulesSound_example =
    serve_rules-RulesSound trim (create_rule (some rent_rule) ∷ delete_rule (some (pos 1)) ∷ [])
      (calm db) rules_sound

builtin_rules-serve_rules_example :
    builtin_rules
      (serve_rules trim
        (create_rule (some rent_rule) ∷ delete_rule (some (pos 1)) ∷ [])
        (calm db)).db
    ≡ builtin_rules db
builtin_rules-serve_rules_example =
    builtin_rules-serve_rules trim (create_rule (some rent_rule) ∷ delete_rule (some (pos 1)) ∷ [])
      (calm db) rules_sound

-- A sub-category is created, and deleting the mandatory category is tried.
abbrev category_calls : List CategoryCall
category_calls =
    create_category 77 (some (record { name = "Rent"; parent_id = some CategoryId.other_expense }))
    ∷ delete_category (some CategoryId.other_expense)
    ∷ []

serve_categories-CategoriesSound_example :
    CategoriesSound (serve_categories trim category_calls (calm db)).db
    × (mandatory (serve_categories trim category_calls (calm db)).db ≡ mandatory db)
serve_categories-CategoriesSound_example =
    serve_categories-CategoriesSound trim category_calls (calm db)
      (record { nested = (refl, tt); processed = tt; rules = (refl, tt); mapped = tt })
