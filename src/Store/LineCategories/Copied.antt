-- ===== src/Store/LineCategories/Copied.antt =====
-- CopyBudgetLines and CopyBudgetLineCategories keep the tables of the budgets sound.
use bank_system_public.Base.{
  ℕ, ◌+◌, true, ◌≡◌, Option, none, some, List, [], ◌∷◌, ◌++◌, map, ◌==◌, inl, inr, Bool-cases,
  any_row, arith, All, All-append, All-map, any_row-more, All-kept, All-any_row,
}
use bank_system_public.Store.Schema.{Budget, BudgetLine, BudgetLineCategory, Db}
use bank_system_public.Store.Leads.{Written}
use bank_system_public.Store.Budgets.{is_year, is_named, is_line}
use bank_system_public.Store.LineCategories.{
  excludes, with_mappings, numbered_copies, lines_of, line_with_id, any_named, copy_lines,
  mapped_to, copied_mapping, copied_mappings, add_mappings,
}
use bank_system_public.Store.LineCategories.Sound.{BudgetsSound, Refers, Sound-added}

numbered_copies-years :
    (budgets : List Budget) (year : ℕ)
    → any_row (is_year year) budgets ≡ true
    → (id : ℕ) (ls : List BudgetLine)
    → All (λ l. any_row (is_year l.budget_year) budgets ≡ true) (numbered_copies id year ls)
unfolding numbered_copies
numbered_copies-years budgets year h id [] = tt
numbered_copies-years budgets year h id (l ∷ ls) =
    (h, numbered_copies-years budgets year h (id + 1) ls)

pub Sound-copy_lines :
    (from to : ℕ) (db : Db)
    → BudgetsSound db
    → any_row (is_year to) db.budgets ≡ true
    → Written (λ _ db'. BudgetsSound db') (copy_lines from to db)
Sound-copy_lines from to db sound open_year =
    elim (Bool-cases (any_named to (lines_of from db.budget_lines) db.budget_lines)) [
      | inl e ↦ rw e tt
      | inr e ↦ rw e (record {
        years = All-append _ db.budget_lines _ sound.years (
            numbered_copies-years db.budgets to open_year db.next_id
              (lines_of from db.budget_lines));
        lines =
            All-map _ _
              (λ lc h. any_row-more (is_line lc.budget_line_id lc.budget_year) db.budget_lines _ h)
              db.line_categories sound.lines;
        categories = sound.categories;
        apart = sound.apart;
      })
    ]

Sound-add_mappings :
    (news : List BudgetLineCategory) (db : Db)
    → BudgetsSound db
    → All (Refers db) news
    → Written (λ _ db'. BudgetsSound db') (with_mappings db (add_mappings news db.line_categories))
unfolding add_mappings
Sound-add_mappings [] db sound h = sound
Sound-add_mappings (new ∷ rest) db sound h =
    elim (Bool-cases (any_row (excludes new) db.line_categories)) [
      | inl e ↦ rw e tt
      | inr e ↦ rw e (
          Sound-add_mappings rest (record db { line_categories = db.line_categories ++ new ∷ [] })
            (Sound-added new db sound h.0 e) h.1)
    ]

Refers-mapped_to :
    (db : Db) (category : ℕ)
    → any_row (λ c. c.id == category) db.categories ≡ true
    → (ls : List BudgetLine)
    → All (λ l. any_row (is_line l.id l.budget_year) db.budget_lines ≡ true) ls
    → All (Refers db) (map (mapped_to category) ls)
Refers-mapped_to db category known [] h = tt
Refers-mapped_to db category known (l ∷ ls) h =
    ((h.0, known), Refers-mapped_to db category known ls h.1)

Refers-copied_mapping :
    (from to : ℕ) (db : Db) (lc : BudgetLineCategory) (o : Option BudgetLine)
    → any_row (λ c. c.id == lc.category_id) db.categories ≡ true
    → All (Refers db) (copied_mapping from to db.budget_lines lc o)
Refers-copied_mapping from to db lc none known = tt
Refers-copied_mapping from to db lc (some old) known = elim (Bool-cases (old.budget_year == from)) [
  | inl e ↦ rw e (
      Refers-mapped_to db lc.category_id known _ (
        All-kept _ _ (is_named to old.name) db.budget_lines (λ l q h. h)
          (All-any_row (λ l. is_line l.id l.budget_year) db.budget_lines (λ l. ground arith))))
  | inr e ↦ rw e tt
]

Refers-copied_mappings :
    (from to : ℕ) (db : Db) (rows : List BudgetLineCategory)
    → All (λ lc. any_row (λ c. c.id == lc.category_id) db.categories ≡ true) rows
    → All (Refers db) (copied_mappings from to db.budget_lines rows)
unfolding copied_mappings
Refers-copied_mappings from to db [] h = tt
Refers-copied_mappings from to db (lc ∷ rest) h =
    All-append _ _ _
      (Refers-copied_mapping from to db lc (line_with_id lc.budget_line_id db.budget_lines) h.0)
      (Refers-copied_mappings from to db rest h.1)

pub Sound-copy_line_categories :
    (from to : ℕ) (db : Db)
    → BudgetsSound db
    → Written
        (λ _ db'. BudgetsSound db')
        (with_mappings db (
          add_mappings
            (copied_mappings from to db.budget_lines db.line_categories)
            db.line_categories))
Sound-copy_line_categories from to db sound =
    Sound-add_mappings (copied_mappings from to db.budget_lines db.line_categories) db sound
      (Refers-copied_mappings from to db db.line_categories sound.categories)
