-- ===== src/Store/LineCategories/Sound.antt =====
-- The tables of the budgets, and what the statements on them keep.
use bank_system_public.Base.{
  ℕ, String, Bool, true, false, not, ◌&&◌, ◌≡◌, refl, ◌∙◌, Option, List, [], ◌∷◌, ◌++◌, ◌==◌,
  ==_refl, any_row-last, inl, inr, Bool-cases, any_row, where_rows, update_rows, arith, All,
  All-append, All-map, any_row-more, any_row-updated, any_row-kept, All-kept, All-updated, Apart,
  Apart-append, Apart-kept,
}
use bank_system_public.Store.Schema.{BudgetLine, BudgetLineCategory, Category, Db}
use bank_system_public.Store.Leads.{Written}
use bank_system_public.Store.Budgets.{
  is_year, new_budget, insert_budget, with_note, without_budget, BudgetLineFields, line_row,
  is_named, insert_line, is_line, overwritten, rewrite_line, without_line,
}
use bank_system_public.Store.LineCategories.{excludes}

abbrev pub has_budget : Db → BudgetLine → Bool
has_budget db l = any_row (is_year l.budget_year) db.budgets

abbrev pub has_line : Db → BudgetLineCategory → Bool
has_line db lc = any_row (is_line lc.budget_line_id lc.budget_year) db.budget_lines

abbrev pub has_category : Db → BudgetLineCategory → Bool
has_category db lc = any_row (λ c. c.id == lc.category_id) db.categories

-- Lines are of years that have a budget, categories are mapped to lines of the mapping's year, and
-- no category feeds two lines of a year.
pub record BudgetsSound (db : Db) : Type 0 where
  pub years : All (λ l. has_budget db l ≡ true) db.budget_lines
  pub lines : All (λ lc. has_line db lc ≡ true) db.line_categories
  pub categories : All (λ lc. has_category db lc ≡ true) db.line_categories
  pub apart : Apart excludes db.line_categories

pub Sound-insert_budget :
    (year : ℕ) (remark : Option String) (db : Db)
    → BudgetsSound db
    → Written
        (λ _ db'. BudgetsSound db' × (any_row (is_year year) db'.budgets ≡ true))
        (insert_budget year remark db)
Sound-insert_budget year remark db sound = elim (Bool-cases (any_row (is_year year) db.budgets)) [
  | inl e ↦ rw e tt
  | inr e ↦ rw e (
    record {
      years =
          All-map _ _ (λ l h. any_row-more (is_year l.budget_year) db.budgets _ h) db.budget_lines
            sound.years;
      lines = sound.lines;
      categories = sound.categories;
      apart = sound.apart;
    },
    any_row-last (is_year year) db.budgets (new_budget year remark db.now) (==_refl year),
  )
]

pub Sound-with_note :
    (year : ℕ) (remark : Option String) (db : Db)
    → BudgetsSound db
    → BudgetsSound
        (record db { budgets = update_rows (is_year year) (with_note remark) db.budgets })
Sound-with_note year remark db sound = record {
  years =
      All-map _ _
        (λ l h.
          any_row-updated (is_year l.budget_year) (is_year year) (with_note remark) db.budgets
            (λ b. refl)
          ∙ h)
        db.budget_lines sound.years;
  lines = sound.lines;
  categories = sound.categories;
  apart = sound.apart;
}

pub Sound-without_budget :
    (year : ℕ) (db : Db) → BudgetsSound db → BudgetsSound (without_budget year db)
Sound-without_budget year db sound = record {
  years =
      All-kept _ _ _ db.budget_lines
        (λ l kept h. any_row-kept (is_year l.budget_year) _ db.budgets (λ b same. ground arith) ∙ h)
        sound.years;
  lines =
      All-kept _ _ _ db.line_categories
        (λ lc kept h.
          any_row-kept (is_line lc.budget_line_id lc.budget_year) _ db.budget_lines
            (λ l same. ground arith)
          ∙ h)
        sound.lines;
  categories = All-kept _ _ _ db.line_categories (λ lc kept h. h) sound.categories;
  apart = Apart-kept excludes _ db.line_categories sound.apart;
}

pub Sound-insert_line :
    (categories : List Category) (year : ℕ) (f : BudgetLineFields) (db : Db)
    → BudgetsSound db
    → any_row (is_year year) db.budgets ≡ true
    → db.categories ≡ categories
    → Written
        (λ id db'.
          BudgetsSound db'
          × (any_row (is_line id year) db'.budget_lines ≡ true)
          × (db'.categories ≡ categories))
        (insert_line year f db)
Sound-insert_line categories year f db sound open_year same =
    elim (Bool-cases (any_row (is_named year f.name) db.budget_lines)) [
      | inl e ↦ rw e tt
      | inr e ↦ rw e (
        record {
          years = All-append _ db.budget_lines _ sound.years (open_year, tt);
          lines =
              All-map _ _
                (λ lc h.
                  any_row-more (is_line lc.budget_line_id lc.budget_year) db.budget_lines _ h)
                db.line_categories sound.lines;
          categories = sound.categories;
          apart = sound.apart;
        },
        any_row-last (is_line db.next_id year) db.budget_lines (line_row db.next_id year f)
            (ground arith),
        same,
      )
    ]

pub Sound-rewrite_line :
    (categories : List Category) (id year : ℕ) (f : BudgetLineFields) (db : Db)
    → BudgetsSound db
    → db.categories ≡ categories
    → Written
        (λ found db'.
          BudgetsSound db'
          × (any_row (is_line id year) db'.budget_lines ≡ found)
          × (db'.categories ≡ categories))
        (rewrite_line id year f db)
Sound-rewrite_line categories id year f db sound same =
    elim (Bool-cases (any_row (is_line id year) db.budget_lines)) [
      | inl e ↦
          rw e
            (elim (Bool-cases
              (any_row (λ l. is_named year f.name l && not (is_line id year l)) db.budget_lines)) [
                | inl taken ↦ rw taken tt
                | inr free ↦ rw free (
                  record {
                    years =
                        All-updated _ (is_line id year) (overwritten f) db.budget_lines (λ l h. h)
                          sound.years;
                    lines =
                        All-map _ _ (λ lc h. unseen lc.budget_line_id lc.budget_year ∙ h)
                          db.line_categories sound.lines;
                    categories = sound.categories;
                    apart = sound.apart;
                  },
                  unseen id year ∙ e,
                  same,
                )
              ])
      | inr e ↦ rw e (sound, e, same)
    ]
  where
    unseen :
        (n y : ℕ)
        → any_row (is_line n y) (update_rows (is_line id year) (overwritten f) db.budget_lines)
          ≡ any_row (is_line n y) db.budget_lines
    unseen n y =
        any_row-updated (is_line n y) (is_line id year) (overwritten f) db.budget_lines (λ l. refl)

pub Sound-without_line :
    (id year : ℕ) (db : Db) → BudgetsSound db → BudgetsSound (without_line id year db)
Sound-without_line id year db sound = record {
  years = All-kept _ _ _ db.budget_lines (λ l kept h. h) sound.years;
  lines =
      All-kept _ _ _ db.line_categories
        (λ lc kept h.
          any_row-kept (is_line lc.budget_line_id lc.budget_year) _ db.budget_lines
            (λ l same. ground arith)
          ∙ h)
        sound.lines;
  categories = All-kept _ _ _ db.line_categories (λ lc kept h. h) sound.categories;
  apart = Apart-kept excludes _ db.line_categories sound.apart;
}

-- The categories of a line are deleted; what is left is as sound as before.
pub Sound-without_mappings :
    (id : ℕ) (db : Db)
    → BudgetsSound db
    → BudgetsSound (record db {
      line_categories = where_rows (λ lc. not (lc.budget_line_id == id)) db.line_categories;
    })
Sound-without_mappings id db sound = record {
  years = sound.years;
  lines = All-kept _ _ _ db.line_categories (λ lc kept h. h) sound.lines;
  categories = All-kept _ _ _ db.line_categories (λ lc kept h. h) sound.categories;
  apart = Apart-kept excludes _ db.line_categories sound.apart;
}

excludes_sym : (a b : BudgetLineCategory) → excludes a b ≡ excludes b a
excludes_sym a b = ground arith

-- What the foreign keys of a mapping ask for.
abbrev pub Refers : Db → BudgetLineCategory → Type 0
Refers db lc = (has_line db lc ≡ true) × (has_category db lc ≡ true)

pub Sound-added :
    (new : BudgetLineCategory) (db : Db)
    → BudgetsSound db
    → Refers db new
    → any_row (excludes new) db.line_categories ≡ false
    → BudgetsSound (record db { line_categories = db.line_categories ++ new ∷ [] })
Sound-added new db sound refers free = record {
  years = sound.years;
  lines = All-append _ db.line_categories _ sound.lines (refers.0, tt);
  categories = All-append _ db.line_categories _ sound.categories (refers.1, tt);
  apart = Apart-append excludes db.line_categories new (λ lc. excludes_sym lc new) free sound.apart;
}
