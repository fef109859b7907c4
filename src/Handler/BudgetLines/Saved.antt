-- ===== src/Handler/BudgetLines/Saved.antt =====
-- What the statements of saveBudgetLine write.
use bank_system_public.Base.{
  ℕ, Bool, true, false, not, ◌&&◌, ◌≡◌, refl, sym, ◌∙◌, ap, List, [], ◌∷◌, ◌++◌, ◌⊎◌, inl, inr,
  ◌==◌, Bool-cases, if◌then◌else◌, any_row, where_rows, update_rows, map, arith,
}
use mathlib.Core.List.{append-nil, append_assoc}
use bank_system_public.Store.{Db, with_mappings, add_mapping, excludes}
use bank_system_public.Store.Leads
use bank_system_public.Store.Leads.{Leads}
use bank_system_public.Store.Schema.{BudgetLine, BudgetLineCategory}
use bank_system_public.Store.Budgets as Stored
use bank_system_public.Store.Budgets.{
  BudgetLineFields, is_line, is_named, line_row, overwritten, insert_line, rewrite_line,
}
use bank_system_public.Store.LineCategories.{
  delete_budget_line_categories, insert_budget_line_category,
}
use bank_system_public.Handler.BudgetRequest.{NormalizedBudgetLine}
use bank_system_public.Handler.BudgetLines.{
  line_not_found, query_failed, mapping, overwrite_line, write_line, insert_line_categories,
}

abbrev pub is_of : ℕ → BudgetLineCategory → Bool
is_of id lc = lc.budget_line_id == id

-- The row with the columns of the request.
abbrev pub requested_row : ℕ → ℕ → BudgetLineFields → BudgetLine
requested_row id year f = record {
  id = id;
  budget_year = year;
  kind = f.kind;
  group_name = f.group_name;
  name = f.name;
  budgeted_amount = f.budgeted_amount;
  sort_order = f.sort_order;
  note = f.note;
}

-- The row of the line is written, and only that one.
pub record WritesLine (year line_id : ℕ) (line : NormalizedBudgetLine) (before : Db) (id : ℕ)
    (after : Db) : Type 0 where
  pub number : id ≡ (if line_id == 0 then before.next_id else line_id)
  pub there : (line_id == 0) ≡ true ⊎ any_row (is_line line_id year) before.budget_lines ≡ true
  pub rows : after.budget_lines ≡ (
      if line_id == 0
      then before.budget_lines ++ requested_row before.next_id year line.fields ∷ []
      else update_rows
          (is_line line_id year)
          (λ l. requested_row l.id l.budget_year line.fields)
          before.budget_lines)
  pub mappings : after.line_categories ≡ (
      if line_id == 0
      then before.line_categories
      else where_rows (λ lc. not (is_of line_id lc)) before.line_categories)
  pub rest : after ≡ record before {
    budget_lines = after.budget_lines;
    line_categories = after.line_categories;
    next_id = after.next_id;
  }

abbrev pub Nothing : Db → Type 0
Nothing db = Unit

overwrite_line-WritesLine :
    (year line_id : ℕ) (line : NormalizedBudgetLine) (before : Db)
    → (line_id == 0) ≡ false
    → Leads
        (λ db. db ≡ before)
        (WritesLine year line_id line before)
        Nothing
        (overwrite_line year line_id line)
unfolding overwrite_line Stored.update_budget_line delete_budget_line_categories
overwrite_line-WritesLine year line_id line before h =
    Leads.Leads-bind _ Updated _ _ _ _
      (Leads.Leads-statement _ _ _ _ query_failed (λ db p. tt) (λ db p. rw p updated))
      (λ found.
        Leads.Leads-bind _ (λ _ db. Updated found db × (found ≡ true)) _ _ _ _
          (Leads.Leads-require _ _ found line_not_found (λ db p. tt))
          (λ _.
            Leads.Leads-bind _ (λ _. WritesLine year line_id line before line_id) _ _ _ _
              (Leads.Leads-statement _ _ _ _ query_failed (λ db p. tt)
                (λ db (f, e). finished (f e).0 db (f e).1))
              (λ _. Leads.Leads-pure _ _ _ line_id (λ db p. p))))
  where
    Updated : Bool → Db → Type 0
    Updated found db =
        (found ≡ true)
        → (any_row (is_line line_id year) before.budget_lines ≡ true)
          × (db ≡ record before {
            budget_lines =
                update_rows (is_line line_id year) (overwritten line.fields) before.budget_lines;
          })

    updated : Leads.Written Updated (rewrite_line line_id year line.fields before)
    updated = elim (Bool-cases (any_row (is_line line_id year) before.budget_lines)) [
      | inl e ↦
          rw e
            (elim (Bool-cases (
              any_row (λ l. is_named year line.fields.name l && not (is_line line_id year l))
                before.budget_lines)) [
                  | inl taken ↦ rw taken tt
                  | inr free ↦ rw free (λ _. (e, refl))
                ])
      | inr e ↦ rw e (λ f. ground arith)
    ]

    finished :
        any_row (is_line line_id year) before.budget_lines ≡ true
        → (db : Db)
        → db ≡ record before {
          budget_lines =
              update_rows (is_line line_id year) (overwritten line.fields) before.budget_lines;
        }
        → WritesLine year line_id line before line_id (record db {
          line_categories = where_rows (λ lc. not (is_of line_id lc)) db.line_categories;
        })
    finished e db same = rw same (record {
      number = rw h refl;
      there = inr e;
      rows = rw h refl;
      mappings = rw h refl;
      rest = refl;
    })

pub write_line-WritesLine :
    (year line_id : ℕ) (line : NormalizedBudgetLine) (before : Db)
    → Leads
        (λ db. db ≡ before)
        (WritesLine year line_id line before)
        Nothing
        (write_line year line_id line)
unfolding write_line Stored.create_budget_line
write_line-WritesLine year line_id line before = elim (Bool-cases (line_id == 0)) [
  | inl e ↦
      rw e (Leads.Leads-statement _ _ _ _ query_failed (λ db p. tt) (λ db p. rw p (inserted e)))
  | inr e ↦ rw e (overwrite_line-WritesLine year line_id line before e)
]
  where
    inserted :
        (line_id == 0) ≡ true
        → Leads.Written (WritesLine year line_id line before) (insert_line year line.fields before)
    inserted zero =
        elim (Bool-cases (any_row (is_named year line.fields.name) before.budget_lines)) [
          | inl e ↦ rw e tt
          | inr e ↦ rw e (record {
            number = rw zero refl;
            there = inl zero;
            rows = rw zero refl;
            mappings = rw zero refl;
            rest = refl;
          })
        ]

pub insert_line_categories-adds :
    (year id : ℕ) (ids : List ℕ) (before : Db)
    → Leads
        (λ db. db ≡ before)
        (λ _ db.
          db
          ≡ record before { line_categories = before.line_categories ++ map (mapping year id) ids })
        Nothing
        (insert_line_categories year id ids)
unfolding insert_line_categories insert_budget_line_category
insert_line_categories-adds year id [] before = Leads.Leads-pure _ _ _ tt (λ db p.
    p
    ∙ ap (λ rows. record before { line_categories = rows })
        (sym (append-nil before.line_categories)))
insert_line_categories-adds year id (c ∷ ids) before =
    Leads.Leads-bind _ (λ _ db. db ≡ one_more) _ _ _ _
      (Leads.Leads-statement _ _ _ _ query_failed (λ db p. tt) (λ db p. rw p added))
      (λ _.
        Leads.Leads-weaken _ _ _ _ _ _ _ (λ db p. p) (λ _ db p. p ∙ all_added) (λ db p. p)
          (insert_line_categories-adds year id ids one_more))
  where
    one_more : Db
    one_more = record before { line_categories = before.line_categories ++ mapping year id c ∷ [] }

    added :
        Leads.Written
          (λ _ db. db ≡ one_more)
          (with_mappings before (add_mapping (mapping year id c) before.line_categories))
    added = elim (Bool-cases (any_row (excludes (mapping year id c)) before.line_categories)) [
      | inl e ↦ rw e tt
      | inr e ↦ rw e refl
    ]

    all_added :
        record one_more { line_categories = one_more.line_categories ++ map (mapping year id) ids }
        ≡ record before {
          line_categories = before.line_categories ++ map (mapping year id) (c ∷ ids);
        }
    all_added =
        ap (λ rows. record before { line_categories = rows })
          (append_assoc before.line_categories (mapping year id c ∷ []) (map (mapping year id) ids))
