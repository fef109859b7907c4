-- ===== src/Handler/BudgetLines.antt =====
-- internal/handler/budgets.go: the handlers of a budget's lines. How the database compares two texts
-- is the parameter `name_before`, strings.TrimSpace is `trim`.
pub mod Sound
pub mod Kept
pub mod Saved
pub mod Answers
pub mod Requests
use bank_system_public.Base.{
  ℕ, String, Bool, not, ◌&&◌, Option, none, some, List, [], ◌∷◌, ◌==◌, if◌then◌else◌, first_row,
  any_row, where_rows, map,
}
use bank_system_public.Base.Int.{ℤ}
use bank_system_public.Store.{
  BudgetLine, BudgetLineCategory, Failure, no_rows, Action, Result, ok, err, pure, raise, require,
  ◌>>=◌, ◌>>◌, on_failure, in_transaction,
}
use bank_system_public.Store.Budgets as Stored
use bank_system_public.Store.LineCategories.{
  LineMapping, get_category, delete_budget_line_categories, insert_budget_line_category,
  list_budget_line_categories,
}
use bank_system_public.Handler.Http.{
  HttpError, bad_request, conflict, not_found, internal_error, Handler, internal, parse_id,
  or_bad_request,
}
use bank_system_public.Handler.Budgets.{parse_budget_year, duplicate, load_budget}
use bank_system_public.Handler.BudgetRequest.{
  BudgetLineRequest, NormalizedBudgetLine, normalize_budget_line,
}

-- A category that does not exist answers 400.
abbrev pub unknown_category : Failure → HttpError
unknown_category no_rows = bad_request
unknown_category _ = internal_error

unfoldable pub check_known : List ℕ → Handler (Unit {0})
check_known [] = pure tt
check_known (id ∷ ids) = do _ ← on_failure (get_category id) unknown_category; check_known ids

-- Whether one of the mappings gives the category to a line other than this one.
abbrev pub is_taken : ℕ → List LineMapping → ℕ → Bool
is_taken line_id mappings id =
    any_row (λ m. not (m.budget_line_id == line_id) && m.category_id == id) mappings

unfoldable pub check_line_categories :
    (String → String → Bool) → ℕ → ℕ → List ℕ → Handler (Unit {0})
unfolding check_known
check_line_categories name_before year line_id ids = do
  _ ← check_known ids
  mappings ← on_failure (list_budget_line_categories name_before year) internal
  require (not (any_row (is_taken line_id mappings) ids)) conflict

-- saveBudgetLine ends without a line (found is false), or with an error of the database; both roll
-- back.
pub data SaveError : Type 0 where
  line_not_found : SaveError
  query_failed : Failure → SaveError

abbrev pub mapping : ℕ → ℕ → ℕ → BudgetLineCategory
mapping year line_id id = record { budget_line_id = line_id; budget_year = year; category_id = id }

unfoldable pub insert_line_categories : ℕ → ℕ → List ℕ → Action SaveError (Unit {0})
insert_line_categories year line_id [] = pure tt
insert_line_categories year line_id (id ∷ ids) = do
  _ ← on_failure (insert_budget_line_category (mapping year line_id id)) query_failed
  insert_line_categories year line_id ids

unfoldable pub overwrite_line : ℕ → ℕ → NormalizedBudgetLine → Action SaveError ℕ
overwrite_line year line_id line = do
  found ← on_failure (Stored.update_budget_line line_id year line.fields) query_failed
  _ ← require found line_not_found
  _ ← on_failure (delete_budget_line_categories line_id) query_failed
  pure line_id

-- The row: a line id of 0 creates a line, any other overwrites that line and unmaps its categories.
unfoldable pub write_line : ℕ → ℕ → NormalizedBudgetLine → Action SaveError ℕ
write_line year line_id line =
    if line_id == 0
    then on_failure (Stored.create_budget_line year line.fields) query_failed
    else overwrite_line year line_id line

unfoldable pub write_line_with_categories : ℕ → ℕ → NormalizedBudgetLine → Action SaveError ℕ
unfolding insert_line_categories
write_line_with_categories year line_id line = do
  id ← write_line year line_id line
  _ ← insert_line_categories year id line.category_ids
  pure id

unfoldable pub save_budget_line : ℕ → ℕ → NormalizedBudgetLine → Action SaveError ℕ
save_budget_line year line_id line =
    in_transaction query_failed query_failed (write_line_with_categories year line_id line)

pub record BudgetLineResponse : Type 0 where
  pub line : BudgetLine
  pub category_ids : List ℕ

abbrev pub line_response : List LineMapping → Option BudgetLine → Handler BudgetLineResponse
line_response mappings none = raise internal_error
line_response mappings (some line) = pure (record {
  line = line;
  category_ids = map (λ m. m.category_id) (where_rows (λ m. m.budget_line_id == line.id) mappings);
})

unfoldable pub write_budget_line : (String → String → Bool) → ℕ → ℕ → Handler BudgetLineResponse
write_budget_line name_before year id = do
  lines ← on_failure (Stored.list_budget_lines year) internal
  mappings ← on_failure (list_budget_line_categories name_before year) internal
  line_response mappings (first_row (λ l. l.id == id) lines)

abbrev pub save_failed : SaveError → HttpError
save_failed line_not_found = not_found
save_failed (query_failed e) = duplicate e

abbrev pub answer_save : {A : Type 0} → Result SaveError A → Result HttpError A
answer_save (ok a) = ok a
answer_save (err e) = err (save_failed e)

abbrev pub saved : ℕ → ℕ → NormalizedBudgetLine → Handler ℕ
saved year line_id line s =
    let (r, s') = save_budget_line year line_id line s in (answer_save r, s')

-- handleBudgetLineSave, which answers 201 for a new line and 200 for another.
unfoldable pub handle_budget_line_save :
    (String → String)
    → (String → String → Bool)
    → ℕ
    → ℕ
    → Option BudgetLineRequest
    → Handler BudgetLineResponse
handle_budget_line_save trim name_before year line_id body = do
  request ← or_bad_request body
  line ← or_bad_request (normalize_budget_line trim request)
  _ ← load_budget year
  _ ← check_line_categories name_before year line_id line.category_ids
  id ← saved year line_id line
  write_budget_line name_before year id

unfoldable pub handle_create_budget_line :
    (String → String)
    → (String → String → Bool)
    → Option ℤ
    → Option BudgetLineRequest
    → Handler BudgetLineResponse
handle_create_budget_line trim name_before path body = do
  year ← or_bad_request (parse_budget_year path)
  handle_budget_line_save trim name_before year 0 body

unfoldable pub handle_update_budget_line :
    (String → String)
    → (String → String → Bool)
    → Option ℤ
    → Option ℤ
    → Option BudgetLineRequest
    → Handler BudgetLineResponse
handle_update_budget_line trim name_before path id body = do
  year ← or_bad_request (parse_budget_year path)
  line_id ← or_bad_request (parse_id id)
  handle_budget_line_save trim name_before year line_id body

unfoldable pub handle_delete_budget_line : Option ℤ → Option ℤ → Handler (Unit {0})
handle_delete_budget_line path id = do
  year ← or_bad_request (parse_budget_year path)
  line_id ← or_bad_request (parse_id id)
  deleted ← on_failure (Stored.delete_budget_line line_id year) internal
  require deleted not_found
