-- ===== src/Handler/BudgetRequest.antt =====
-- internal/handler/budgets.go: the body of a request that saves a budget line, and
-- normalizeBudgetLine.
use bank_system_public.Base.{
  ℕ, String, Bool, true, false, ◌||◌, Option, none, some, List, [], ◌∷◌, ◌++◌, str_eq, ◌==◌,
  if◌then◌else◌, any_row,
}
use bank_system_public.Base.Int.{ℤ}
use bank_system_public.Store.Budgets.{BudgetLineFields}
use bank_system_public.Handler.BudgetText.{
  budget_note_max_length, optional_budget_text, required_budget_text, trimmed_text, budget_amount,
}

-- A category id may be null in the JSON.
pub record BudgetLineRequest : Type 0 where
  pub kind : String
  pub group_name : Option String
  pub name : String
  pub budgeted : String
  pub category_ids : List (Option ℕ)
  pub sort_order : ℤ
  pub note : Option String

pub record NormalizedBudgetLine : Type 0 where
  pub fields : BudgetLineFields
  pub category_ids : List ℕ

abbrev pub is_listed : ℕ → List ℕ → Bool
is_listed id ids = any_row (λ x. x == id) ids

-- Deduplicated, order kept.
unfoldable pub collect_ids : List ℕ → List (Option ℕ) → Option (List ℕ)
collect_ids kept [] = some kept
collect_ids kept (none ∷ rest) = none
collect_ids kept (some id ∷ rest) =
    collect_ids (if is_listed id kept then kept else kept ++ id ∷ []) rest

infixl 5 ◌>>=◌
abbrev ◌>>=◌ : {A B : Type 0} → Option A → (A → Option B) → Option B
none >>= f = none
some a >>= f = f a

abbrev when : Bool → Option (Unit {0})
when true = some tt
when false = none

abbrev pub is_kind : String → Bool
is_kind kind = str_eq kind "income" || str_eq kind "expense"

-- The order of the checks shows in the error text alone, which is not modelled.
unfoldable pub normalize_budget_line :
    (String → String) → BudgetLineRequest → Option NormalizedBudgetLine
unfolding collect_ids
normalize_budget_line trim request = do
  _ ← when (is_kind request.kind)
  name ← required_budget_text trim request.name
  group_name ← optional_budget_text trim request.group_name
  note ← trimmed_text trim budget_note_max_length request.note
  budgeted ← budget_amount trim request.budgeted
  category_ids ← collect_ids [] request.category_ids
  some (record {
    fields = record {
      kind = request.kind;
      group_name = group_name;
      name = name;
      budgeted_amount = budgeted;
      sort_order = request.sort_order;
      note = note;
    };
    category_ids = category_ids;
  })
