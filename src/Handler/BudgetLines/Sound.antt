-- ===== src/Handler/BudgetLines/Sound.antt =====
-- Every request on budgets keeps the tables of the budgets sound: CreateBudget and the saving of a
-- line.
use bank_system_public.Base.{
  ℕ, String, Bool, true, ◌≡◌, ◌∙◌, Option, none, some, List, [], ◌∷◌, ◌==◌, inl, inr, Bool-cases,
  any_row, All,
}
use bank_system_public.Base.Int.{ℤ}
use bank_system_public.Store.{Db, Category}
use bank_system_public.Store.Leads
use bank_system_public.Store.Leads.{Leads}
use bank_system_public.Store.Budgets as Stored
use bank_system_public.Store.Budgets.{is_line, is_year}
use bank_system_public.Store.LineCategories.{
  with_mappings, add_mapping, excludes, copy_budget_lines, copy_budget_line_categories,
  insert_budget_line_category, delete_budget_line_categories,
}
use bank_system_public.Store.LineCategories.Sound.{BudgetsSound}
use bank_system_public.Store.LineCategories.Sound as Rows
use bank_system_public.Store.LineCategories.Copied as Copies
use bank_system_public.Handler.Budgets.{write_budget, copy_budget, year_bits, duplicate}
use bank_system_public.Handler.Http.{internal}
use bank_system_public.Handler.BudgetRequest.{NormalizedBudgetLine}
use bank_system_public.Handler.BudgetLines.{
  query_failed, line_not_found, mapping, overwrite_line, insert_line_categories, write_line,
  write_line_with_categories, save_budget_line,
}

abbrev Anything : Db → Type 0
Anything db = Unit

abbrev Open : ℕ → Db → Type 0
Open year db = BudgetsSound db × (any_row (is_year year) db.budgets ≡ true)

copy_budget-Sound :
    (from : Option ℤ) (year : ℕ)
    → Leads (Open year) (λ _. BudgetsSound) Anything (copy_budget from year)
unfolding copy_budget_lines copy_budget_line_categories
copy_budget-Sound none year = Leads.Leads-pure _ _ _ tt (λ db o. o.0)
copy_budget-Sound (some from) year =
    Leads.Leads-bind _ (λ _. BudgetsSound) _ _ _ _
      (Leads.Leads-statement _ _ _ _ internal (λ db o. tt)
        (λ db o. Copies.Sound-copy_lines (year_bits from) year db o.0 o.1))
      (λ _.
        Leads.Leads-statement _ _ _ _ internal (λ db sound. tt)
          (λ db sound. Copies.Sound-copy_line_categories (year_bits from) year db sound))

pub write_budget-Sound :
    (year : ℕ) (remark : Option String) (from : Option ℤ)
    → Leads BudgetsSound (λ _. BudgetsSound) Anything (write_budget year remark from)
unfolding write_budget Stored.create_budget
write_budget-Sound year remark from =
    Leads.Leads-bind _ (λ _. Open year) _ _ _ _
      (Leads.Leads-statement _ _ _ _ duplicate (λ db sound. tt)
        (λ db sound. Rows.Sound-insert_budget year remark db sound))
      (λ budget.
        Leads.Leads-bind _ (λ _. BudgetsSound) _ _ _ _ (copy_budget-Sound from year)
          (λ _. Leads.Leads-pure _ _ _ budget (λ db sound. sound)))

-- The line is there for its mappings.
abbrev Ready : List Category → ℕ → ℕ → Db → Type 0
Ready categories id year db =
    BudgetsSound db
    × (any_row (is_line id year) db.budget_lines ≡ true)
    × (db.categories ≡ categories)

insert_line_categories-Sound :
    (categories : List Category) (year id : ℕ) (ids : List ℕ)
    → All (λ id. any_row (λ c. c.id == id) categories ≡ true) ids
    → Leads
        (Ready categories id year)
        (λ _. BudgetsSound)
        Anything
        (insert_line_categories year id ids)
unfolding insert_line_categories insert_budget_line_category
insert_line_categories-Sound categories year id [] known =
    Leads.Leads-pure _ _ _ tt (λ db ready. ready.0)
insert_line_categories-Sound categories year id (c ∷ ids) known =
    Leads.Leads-bind _ (λ _. Ready categories id year) _ _ _ _
      (Leads.Leads-statement _ _ _ _ query_failed (λ db ready. tt) (λ db ready. added db ready))
      (λ _. insert_line_categories-Sound categories year id ids known.1)
  where
    added :
        (db : Db)
        → Ready categories id year db
        → Leads.Written
            (λ _. Ready categories id year)
            (with_mappings db (add_mapping (mapping year id c) db.line_categories))
    added db (sound, there, same) =
        elim (Bool-cases (any_row (excludes (mapping year id c)) db.line_categories)) [
          | inl e ↦ rw e tt
          | inr e ↦ rw e (
            Rows.Sound-added (mapping year id c) db sound (there, rw same known.0) e,
            there,
            same,
          )
        ]

abbrev pub Prepared : List Category → ℕ → Db → Type 0
Prepared categories year db = Open year db × (db.categories ≡ categories)

overwrite_line-Sound :
    (categories : List Category) (year id : ℕ) (line : NormalizedBudgetLine)
    → Leads
        (Prepared categories year)
        (λ n. Ready categories n year)
        Anything
        (overwrite_line year id line)
unfolding Stored.update_budget_line delete_budget_line_categories overwrite_line
overwrite_line-Sound categories year id line =
    Leads.Leads-bind _
      (λ found db.
        BudgetsSound db
        × (any_row (is_line id year) db.budget_lines ≡ found)
        × (db.categories ≡ categories))
      _ _ _ _
      (Leads.Leads-statement _ _ _ _ query_failed (λ db p. tt)
        (λ db p. Rows.Sound-rewrite_line categories id year line.fields db p.0.0 p.1))
      (λ found.
        Leads.Leads-bind _ (λ _. Found found) _ _ _ _
          (Leads.Leads-require _ _ found line_not_found (λ db p. tt))
          (λ _.
            Leads.Leads-bind _ (λ _. Ready categories id year) _ _ _ _
              (Leads.Leads-statement _ _ _ _ query_failed (λ db p. tt)
                (λ db ((sound, there, same), e).
                  (Rows.Sound-without_mappings id db sound, there ∙ e, same)))
              (λ _. Leads.Leads-pure _ _ _ id (λ db ready. ready))))
  where
    Found : Bool → Db → Type 0
    Found found db =
        (BudgetsSound db
          × (any_row (is_line id year) db.budget_lines ≡ found)
          × (db.categories ≡ categories))
        × (found ≡ true)

write_line-Sound :
    (categories : List Category) (year id : ℕ) (line : NormalizedBudgetLine)
    → Leads
        (Prepared categories year)
        (λ n. Ready categories n year)
        Anything
        (write_line year id line)
unfolding write_line Stored.create_budget_line
write_line-Sound categories year id line = elim (Bool-cases (id == 0)) [
  | inl e ↦ rw e (
      Leads.Leads-statement _ _ _ _ query_failed (λ db p. tt)
        (λ db p. Rows.Sound-insert_line categories year line.fields db p.0.0 p.0.1 p.1))
  | inr e ↦ rw e (overwrite_line-Sound categories year id line)
]

write_line_with_categories-Sound :
    (categories : List Category) (year id : ℕ) (line : NormalizedBudgetLine)
    → All (λ id. any_row (λ c. c.id == id) categories ≡ true) line.category_ids
    → Leads
        (Prepared categories year)
        (λ _. BudgetsSound)
        Anything
        (write_line_with_categories year id line)
unfolding write_line_with_categories
write_line_with_categories-Sound categories year id line known =
    Leads.Leads-bind _ (λ n. Ready categories n year) _ _ _ _
      (write_line-Sound categories year id line)
      (λ n.
        Leads.Leads-bind _ (λ _. BudgetsSound) _ _ _ _
          (insert_line_categories-Sound categories year n line.category_ids known)
          (λ _. Leads.Leads-pure _ _ _ n (λ db sound. sound)))

pub save_budget_line-Sound :
    (categories : List Category) (year id : ℕ) (line : NormalizedBudgetLine)
    → All (λ id. any_row (λ c. c.id == id) categories ≡ true) line.category_ids
    → Leads
        (Prepared categories year)
        (λ _. BudgetsSound)
        BudgetsSound
        (save_budget_line year id line)
unfolding save_budget_line
save_budget_line-Sound categories year id line known =
    Leads.Leads-in_transaction _ _ _ query_failed query_failed _ (λ db p. p.0.0)
      (write_line_with_categories-Sound categories year id line known)
