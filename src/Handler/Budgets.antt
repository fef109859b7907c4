-- ===== src/Handler/Budgets.antt =====
-- internal/handler/budgets.go: the handlers of a year's budget and of its auditor report. GetBudget,
-- which adds up the year's transactions, is not modelled.
use bank_system_public.Base.{
  ℕ, ◌-◌, ◌*◌, ◌^◌, String, Bool, not, ◌||◌, Option, none, some, List, [], ◌∷◌, ltb, if◌then◌else◌,
  length,
}
use bank_system_public.Base.Int.{ℤ, pos, negsuc, ltb_ℤ, pos_part}
use bank_system_public.Store.{
  Budget, Failure, no_rows, unique_violation, pure, raise, require, ◌>>=◌, on_failure,
  in_transaction,
}
use bank_system_public.Store.Budgets as Stored
use bank_system_public.Store.LineCategories.{copy_budget_lines, copy_budget_line_categories}
use bank_system_public.Processing.Text.{has_prefix}
use bank_system_public.Handler.Http.{
  HttpError, bad_request, conflict, too_large, not_found, internal_error, Handler, internal,
  missing_row, or_bad_request,
}
use bank_system_public.Handler.BudgetText.{optional_budget_text}

abbrev pub budget_year_min : ℕ
budget_year_min = 2000

abbrev pub budget_year_max : ℕ
budget_year_max = 2100

abbrev pub is_budget_year : ℤ → Bool
is_budget_year year = not (ltb_ℤ year (pos budget_year_min) || ltb_ℤ (pos budget_year_max) year)

-- The number that strconv.Atoi gave.
abbrev pub parse_budget_year : Option ℤ → Option ℕ
parse_budget_year none = none
parse_budget_year (some year) = if is_budget_year year then some (pos_part year) else none

-- isUniqueViolation(err) answers 409, any other error 500.
abbrev pub duplicate : Failure → HttpError
duplicate unique_violation = conflict
duplicate _ = internal_error

unfoldable pub load_budget : ℕ → Handler Budget
load_budget year = on_failure (Stored.get_budget year) missing_row

unfoldable pub handle_list_budgets : Handler (List Budget)
handle_list_budgets = on_failure Stored.list_budgets internal

pub record CreateBudgetRequest : Type 0 where
  pub year : ℤ
  pub note : Option String
  pub copy_from_year : Option ℤ

-- An int32 by its bits: no row has a negative year, nor one from 2 ^ 31 up.
abbrev pub year_bits : ℤ → ℕ
year_bits (pos n) = n
year_bits (negsuc n) = 2 ^ 32 - 1 - n

-- No budget to copy answers 400.
abbrev pub missing_source : Failure → HttpError
missing_source no_rows = bad_request
missing_source _ = internal_error

abbrev pub check_source : Option ℤ → Handler (Unit {0})
check_source none = pure tt
check_source (some from) = do
  _ ← on_failure (Stored.get_budget (year_bits from)) missing_source
  pure tt

abbrev pub copy_budget : Option ℤ → ℕ → Handler (Unit {0})
copy_budget none year = pure tt
copy_budget (some from) year = do
  _ ← on_failure (copy_budget_lines (year_bits from) year) internal
  on_failure (copy_budget_line_categories (year_bits from) year) internal

-- The statements of CreateBudget's transaction.
unfoldable pub write_budget : ℕ → Option String → Option ℤ → Handler Budget
write_budget year note from = do
  budget ← on_failure (Stored.create_budget year note) duplicate
  _ ← copy_budget from year
  pure budget

unfoldable pub handle_create_budget :
    (String → String) → Option CreateBudgetRequest → Handler Budget
handle_create_budget trim body = do
  request ← or_bad_request body
  _ ← require (is_budget_year request.year) bad_request
  note ← or_bad_request (optional_budget_text trim request.note)
  _ ← check_source request.copy_from_year
  in_transaction internal internal
      (write_budget (pos_part request.year) note request.copy_from_year)

-- The body of UpdateBudget is its note.
unfoldable pub handle_update_budget :
    (String → String) → Option ℤ → Option (Option String) → Handler Budget
handle_update_budget trim path body = do
  year ← or_bad_request (parse_budget_year path)
  request ← or_bad_request body
  note ← or_bad_request (optional_budget_text trim request)
  on_failure (Stored.update_budget_note year note) missing_row

unfoldable pub handle_delete_budget : Option ℤ → Handler (Unit {0})
handle_delete_budget path = do
  year ← or_bad_request (parse_budget_year path)
  deleted ← on_failure (Stored.delete_budget year) internal
  require deleted not_found

abbrev pub max_auditor_report_size : ℕ
max_auditor_report_size = 20 * 2 ^ 20

-- io.ReadAll of a body through http.MaxBytesReader; `none` where reading failed below the limit.
abbrev pub read_report : ℕ → Option (List ℕ) → Handler (List ℕ)
read_report limit none = raise bad_request
read_report limit (some content) =
    if ltb limit (length content) then raise too_large else pure content

-- "%PDF-"
abbrev pub pdf_prefix : List ℕ
pdf_prefix = 0x25 ∷ 0x50 ∷ 0x44 ∷ 0x46 ∷ 0x2D ∷ []

unfoldable pub upload_auditor_report : Option ℤ → Option (List ℕ) → Handler (Unit {0})
upload_auditor_report path body = do
  year ← or_bad_request (parse_budget_year path)
  content ← read_report max_auditor_report_size body
  _ ← require (has_prefix content pdf_prefix) bad_request
  _ ← load_budget year
  on_failure (Stored.upsert_budget_auditor_report year content) internal

unfoldable pub download_auditor_report : Option ℤ → Handler (List ℕ)
download_auditor_report path = do
  year ← or_bad_request (parse_budget_year path)
  on_failure (Stored.get_budget_auditor_report year) missing_row
