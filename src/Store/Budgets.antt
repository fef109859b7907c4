-- ===== src/Store/Budgets.antt =====
-- The statements on budgets, budget_lines and budget_auditor_reports (internal/db/queries.sql.go).
-- Foreign keys are modelled where they cascade.
use bank_system_public.Base.{
  ℕ, ◌+◌, String, Bool, true, false, not, ◌&&◌, Option, none, some, List, [], ◌∷◌, ◌++◌, str_eq,
  ltb, ◌==◌, if◌then◌else◌, first_row, any_row, where_rows, update_rows,
}
use bank_system_public.Base.Int.{ℤ, ltb_ℤ}
use bank_system_public.Store.Schema.{
  Budget, BudgetLine, BudgetLineCategory, BudgetAuditorReport, Db,
}
use bank_system_public.Store.Monad.{
  Result, Failure, ok, err, unique_violation, Query, statement, select, select_one, or_no_rows,
}

abbrev pub is_year : ℕ → Budget → Bool
is_year year b = b.year == year

-- ORDER BY year DESC; a year is unique.
insert_by_year : Budget → List Budget → List Budget
insert_by_year b [] = b ∷ []
insert_by_year b (c ∷ cs) =
    let rest = insert_by_year b cs in if ltb b.year c.year then c ∷ rest else b ∷ c ∷ cs

unfoldable pub newest_first : List Budget → List Budget
unfolding insert_by_year
newest_first [] = []
newest_first (b ∷ bs) = insert_by_year b (newest_first bs)

unfoldable pub list_budgets : Query (List Budget)
list_budgets = select (λ db. newest_first db.budgets)

unfoldable pub get_budget : ℕ → Query Budget
get_budget year = select_one (λ db. first_row (is_year year) db.budgets)

abbrev pub new_budget : ℕ → Option String → ℕ → Budget
new_budget year note now = record { year = year; note = note; created_at = now }

-- The year is the primary key.
abbrev pub insert_budget : ℕ → Option String → Db → Result Failure (Budget × Db)
insert_budget year note db =
    if any_row (is_year year) db.budgets
    then err unique_violation
    else ok (
      new_budget year note db.now,
      record db { budgets = db.budgets ++ new_budget year note db.now ∷ [] },
    )

unfoldable pub create_budget : ℕ → Option String → Query Budget
create_budget year note = statement (insert_budget year note)

abbrev pub with_note : Option String → Budget → Budget
with_note note b = record b { note = note }

unfoldable pub update_budget_note : ℕ → Option String → Query Budget
update_budget_note year note = statement (λ db.
    or_no_rows (record db { budgets = update_rows (is_year year) (with_note note) db.budgets })
      (first_row (is_year year) (update_rows (is_year year) (with_note note) db.budgets)))

-- ON DELETE CASCADE: the lines, their categories and the report go with the budget.
abbrev pub without_budget : ℕ → Db → Db
without_budget year db = record db {
  budgets = where_rows (λ b. not (is_year year b)) db.budgets;
  budget_lines = where_rows (λ l. not (l.budget_year == year)) db.budget_lines;
  line_categories = where_rows (λ lc. not (lc.budget_year == year)) db.line_categories;
  auditor_reports = where_rows (λ r. not (r.budget_year == year)) db.auditor_reports;
}

-- The answer is whether a row was deleted.
unfoldable pub delete_budget : ℕ → Query Bool
delete_budget year =
    statement (λ db. ok (any_row (is_year year) db.budgets, without_budget year db))

-- The columns that CreateBudgetLine and UpdateBudgetLine write.
pub record BudgetLineFields : Type 0 where
  pub kind : String
  pub group_name : Option String
  pub name : String
  pub budgeted_amount : ℕ
  pub sort_order : ℤ
  pub note : Option String

abbrev pub line_row : ℕ → ℕ → BudgetLineFields → BudgetLine
line_row id year f = record {
  id = id;
  budget_year = year;
  kind = f.kind;
  group_name = f.group_name;
  name = f.name;
  budgeted_amount = f.budgeted_amount;
  sort_order = f.sort_order;
  note = f.note;
}

-- UNIQUE (budget_year, name)
abbrev pub is_named : ℕ → String → BudgetLine → Bool
is_named year name l = l.budget_year == year && str_eq l.name name

abbrev pub insert_line : ℕ → BudgetLineFields → Db → Result Failure (ℕ × Db)
insert_line year f db =
    if any_row (is_named year f.name) db.budget_lines
    then err unique_violation
    else ok (
      db.next_id,
      record db {
        budget_lines = db.budget_lines ++ line_row db.next_id year f ∷ [];
        next_id = db.next_id + 1;
      },
    )

unfoldable pub create_budget_line : ℕ → BudgetLineFields → Query ℕ
create_budget_line year f = statement (insert_line year f)

-- WHERE id = ... AND budget_year = ...
abbrev pub is_line : ℕ → ℕ → BudgetLine → Bool
is_line id year l = l.id == id && l.budget_year == year

abbrev pub overwritten : BudgetLineFields → BudgetLine → BudgetLine
overwritten f l = line_row l.id l.budget_year f

-- The answer is whether a row was written; the new name may be that of no other line of the year.
abbrev pub rewrite_line : ℕ → ℕ → BudgetLineFields → Db → Result Failure (Bool × Db)
rewrite_line id year f db =
    if not (any_row (is_line id year) db.budget_lines)
    then ok (false, db)
    else if any_row (λ l. is_named year f.name l && not (is_line id year l)) db.budget_lines
    then err unique_violation
    else ok (
      true,
      record db { budget_lines = update_rows (is_line id year) (overwritten f) db.budget_lines },
    )

unfoldable pub update_budget_line : ℕ → ℕ → BudgetLineFields → Query Bool
update_budget_line id year f = statement (rewrite_line id year f)

abbrev pub is_mapping_of : ℕ → ℕ → BudgetLineCategory → Bool
is_mapping_of id year lc = lc.budget_line_id == id && lc.budget_year == year

-- ON DELETE CASCADE: the line's categories go with it. The answer is whether a row was deleted.
abbrev pub without_line : ℕ → ℕ → Db → Db
without_line id year db = record db {
  budget_lines = where_rows (λ l. not (is_line id year l)) db.budget_lines;
  line_categories = where_rows (λ lc. not (is_mapping_of id year lc)) db.line_categories;
}

unfoldable pub delete_budget_line : ℕ → ℕ → Query Bool
delete_budget_line id year =
    statement (λ db. ok (any_row (is_line id year) db.budget_lines, without_line id year db))

-- ORDER BY sort_order, id: the table is in the order of its ids.
insert_by_order : BudgetLine → List BudgetLine → List BudgetLine
insert_by_order l [] = l ∷ []
insert_by_order l (k ∷ ks) =
    let rest = insert_by_order l ks in
    if ltb_ℤ k.sort_order l.sort_order then k ∷ rest else l ∷ k ∷ ks

unfoldable pub by_sort_order : List BudgetLine → List BudgetLine
unfolding insert_by_order
by_sort_order [] = []
by_sort_order (l ∷ ls) = insert_by_order l (by_sort_order ls)

unfoldable pub list_budget_lines : ℕ → Query (List BudgetLine)
list_budget_lines year =
    select (λ db. by_sort_order (where_rows (λ l. l.budget_year == year) db.budget_lines))

abbrev pub is_report_of : ℕ → BudgetAuditorReport → Bool
is_report_of year r = r.budget_year == year

abbrev new_report : ℕ → List ℕ → ℕ → BudgetAuditorReport
new_report year content now = record { budget_year = year; content = content; uploaded_at = now }

-- ON CONFLICT (budget_year) DO UPDATE
abbrev pub put_report : ℕ → List ℕ → ℕ → List BudgetAuditorReport → List BudgetAuditorReport
put_report year content now rows =
    if any_row (is_report_of year) rows
    then update_rows (is_report_of year) (λ r. new_report r.budget_year content now) rows
    else rows ++ new_report year content now ∷ []

unfoldable pub upsert_budget_auditor_report : ℕ → List ℕ → Query (Unit {0})
upsert_budget_auditor_report year content = statement (λ db.
    ok (tt, record db { auditor_reports = put_report year content db.now db.auditor_reports }))

abbrev content_of : Option BudgetAuditorReport → Option (List ℕ)
content_of none = none
content_of (some r) = some r.content

abbrev pub report_content : ℕ → Db → Option (List ℕ)
report_content year db = content_of (first_row (is_report_of year) db.auditor_reports)

unfoldable pub get_budget_auditor_report : ℕ → Query (List ℕ)
get_budget_auditor_report year = select_one (report_content year)
