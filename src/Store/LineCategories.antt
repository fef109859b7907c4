-- ===== src/Store/LineCategories.antt =====
-- The statements on budget_line_categories, the copying of a budget, and GetCategory
-- (internal/db/queries.sql.go). The constraints modelled are UNIQUE (budget_year, category_id) and the
-- primary key (budget_line_id, category_id).
pub mod Sound
pub mod Copied
use bank_system_public.Base.{
  ℕ, ◌+◌, String, Bool, true, false, not, ◌&&◌, ◌||◌, Option, none, some, List, [], ◌∷◌, ◌++◌,
  str_eq, ltb, ◌==◌, if◌then◌else◌, first_row, any_row, where_rows, map,
}
use bank_system_public.Store.Schema.{BudgetLine, BudgetLineCategory, Category, Db}
use bank_system_public.Store.Monad.{
  Result, Failure, ok, err, unique_violation, Query, statement, select, select_one,
}
use bank_system_public.Store.Budgets.{BudgetLineFields, line_row, is_named}

abbrev pub category_with_id : ℕ → Db → Option Category
category_with_id id db = first_row (λ c. c.id == id) db.categories

unfoldable pub get_category : ℕ → Query Category
get_category id = select_one (category_with_id id)

unfoldable pub delete_budget_line_categories : ℕ → Query (Unit {0})
delete_budget_line_categories id = statement (λ db. ok (
  tt,
  record db {
    line_categories = where_rows (λ lc. not (lc.budget_line_id == id)) db.line_categories;
  },
))

abbrev pub excludes : BudgetLineCategory → BudgetLineCategory → Bool
excludes new lc =
    lc.category_id == new.category_id
    && (lc.budget_year == new.budget_year || lc.budget_line_id == new.budget_line_id)

abbrev pub add_mapping :
    BudgetLineCategory → List BudgetLineCategory → Result Failure (List BudgetLineCategory)
add_mapping new rows =
    if any_row (excludes new) rows then err unique_violation else ok (rows ++ new ∷ [])

abbrev pub with_mappings :
    Db → Result Failure (List BudgetLineCategory) → Result Failure (Unit {0} × Db)
with_mappings db (ok rows) = ok (tt, record db { line_categories = rows })
with_mappings db (err e) = err e

unfoldable pub insert_budget_line_category : BudgetLineCategory → Query (Unit {0})
insert_budget_line_category new =
    statement (λ db. with_mappings db (add_mapping new db.line_categories))

-- A row of ListBudgetLineCategories.
pub record LineMapping : Type 0 where
  pub budget_line_id : ℕ
  pub category_id : ℕ
  pub line_name : String
  pub category_name : String

abbrev pub line_with_id : ℕ → List BudgetLine → Option BudgetLine
line_with_id id lines = first_row (λ l. l.id == id) lines

abbrev joined :
    BudgetLineCategory → Option BudgetLine → Option Category → List LineMapping → List LineMapping
joined lc (some l) (some c) rest =
    record {
      budget_line_id = lc.budget_line_id;
      category_id = lc.category_id;
      line_name = l.name;
      category_name = c.name;
    }
    ∷ rest
joined lc (some l) none rest = rest
joined lc none c rest = rest

-- The joins; ids are unique.
unfoldable pub mappings_in : Db → ℕ → List BudgetLineCategory → List LineMapping
mappings_in db year [] = []
mappings_in db year (lc ∷ rest) =
    let others = mappings_in db year rest in
    if lc.budget_year == year
    then joined lc (line_with_id lc.budget_line_id db.budget_lines)
        (category_with_id lc.category_id db) others
    else others

-- ORDER BY budget_line_id, name; how the database compares texts is a parameter.
module _ (name_before : String → String → Bool) where
  abbrev pub mapping_before : LineMapping → LineMapping → Bool
  mapping_before a b =
      ltb a.budget_line_id b.budget_line_id
      || a.budget_line_id == b.budget_line_id && name_before a.category_name b.category_name

  unfoldable pub insert_mapping : LineMapping → List LineMapping → List LineMapping
  insert_mapping m [] = m ∷ []
  insert_mapping m (n ∷ ns) =
      let rest = insert_mapping m ns in if mapping_before n m then n ∷ rest else m ∷ n ∷ ns

  unfoldable pub sort_mappings : List LineMapping → List LineMapping
  unfolding insert_mapping
  sort_mappings [] = []
  sort_mappings (m ∷ ms) = insert_mapping m (sort_mappings ms)

  abbrev pub year_mappings : ℕ → Db → List LineMapping
  year_mappings year db = sort_mappings (mappings_in db year db.line_categories)

  unfoldable pub list_budget_line_categories : ℕ → Query (List LineMapping)
  list_budget_line_categories year = select (year_mappings year)

-- INSERT INTO budget_lines ... SELECT: the rows take the next ids one by one.
abbrev pub fields_of : BudgetLine → BudgetLineFields
fields_of l = record {
  kind = l.kind;
  group_name = l.group_name;
  name = l.name;
  budgeted_amount = l.budgeted_amount;
  sort_order = l.sort_order;
  note = l.note;
}

unfoldable pub numbered_copies : ℕ → ℕ → List BudgetLine → List BudgetLine
numbered_copies id year [] = []
numbered_copies id year (l ∷ ls) = line_row id year (fields_of l) ∷ numbered_copies (id + 1) year ls

abbrev pub after_ids : ℕ → List BudgetLine → ℕ
after_ids id [] = id
after_ids id (l ∷ ls) = after_ids (id + 1) ls

abbrev pub lines_of : ℕ → List BudgetLine → List BudgetLine
lines_of year = where_rows (λ l. l.budget_year == year)

-- Whether the name of a new line is already taken in the year.
abbrev pub any_named : ℕ → List BudgetLine → List BudgetLine → Bool
any_named year new lines = any_row (λ l. any_row (is_named year l.name) lines) new

abbrev pub copy_lines : ℕ → ℕ → Db → Result Failure (Unit {0} × Db)
copy_lines from to db =
    if any_named to (lines_of from db.budget_lines) db.budget_lines
    then err unique_violation
    else ok (
      tt,
      record db {
        budget_lines =
            db.budget_lines ++ numbered_copies db.next_id to (lines_of from db.budget_lines);
        next_id = after_ids db.next_id (lines_of from db.budget_lines);
      },
    )

unfoldable pub copy_budget_lines : ℕ → ℕ → Query (Unit {0})
copy_budget_lines from to = statement (copy_lines from to)

-- The rows of the SELECT for one mapping: one for each line of the new year with the old line's name.
abbrev mapped_to : ℕ → BudgetLine → BudgetLineCategory
mapped_to category l = record {
  budget_line_id = l.id;
  budget_year = l.budget_year;
  category_id = category;
}

abbrev copied_mapping :
    ℕ → ℕ → List BudgetLine → BudgetLineCategory → Option BudgetLine → List BudgetLineCategory
copied_mapping from to lines lc none = []
copied_mapping from to lines lc (some old) =
    if old.budget_year == from
    then map (mapped_to lc.category_id) (where_rows (is_named to old.name) lines)
    else []

unfoldable pub copied_mappings :
    ℕ → ℕ → List BudgetLine → List BudgetLineCategory → List BudgetLineCategory
copied_mappings from to lines [] = []
copied_mappings from to lines (lc ∷ rest) =
    copied_mapping from to lines lc (line_with_id lc.budget_line_id lines)
    ++ copied_mappings from to lines rest

abbrev pub then_add :
    (List BudgetLineCategory → Result Failure (List BudgetLineCategory))
    → Result Failure (List BudgetLineCategory)
    → Result Failure (List BudgetLineCategory)
then_add f (ok rows) = f rows
then_add f (err e) = err e

unfoldable pub add_mappings :
    List BudgetLineCategory → List BudgetLineCategory → Result Failure (List BudgetLineCategory)
add_mappings [] rows = ok rows
add_mappings (new ∷ rest) rows = then_add (add_mappings rest) (add_mapping new rows)

unfoldable pub copy_budget_line_categories : ℕ → ℕ → Query (Unit {0})
unfolding copied_mappings add_mappings
copy_budget_line_categories from to = statement (λ db.
    with_mappings db (
      add_mappings (copied_mappings from to db.budget_lines db.line_categories) db.line_categories))
