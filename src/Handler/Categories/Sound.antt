-- ===== src/Handler/Categories/Sound.antt =====
-- The table of the categories, and what the statements that write it keep.
use bank_system_public.Base.{
  ℕ, String, Bool, true, false, not, ◌&&◌, ◌||◌, ◌≡◌, refl, ◌∙◌, Option, none, some, List, [], ◌∷◌,
  ◌++◌, str_eq, ◌==◌, is_set, inl, inr, Bool-cases, any_row, where_rows, where_rows-append,
  where_rows-kept, arith, All, All-append, All-map, All-kept, any_row-more, any_row-kept,
}
use mathlib.Core.List.{append-nil}
use bank_system_public.Store.{Db, Category}
use bank_system_public.Store.Leads
use bank_system_public.Store.Leads.{Leads}
use bank_system_public.Store.Categories.{
  is_child_of, new_category, insert_category, is_removable, is_referenced, remove_category,
}

abbrev pub is_top : ℕ → Category → Bool
is_top id c = c.id == id && not (is_set c.parent_id)

-- The parent, if there is one, is a category without a parent.
abbrev pub has_top_parent : List Category → Option ℕ → Bool
has_top_parent categories none = true
has_top_parent categories (some p) = any_row (is_top p) categories

abbrev pub exists_in : List Category → ℕ → Bool
exists_in categories id = any_row (λ c. c.id == id) categories

-- One level of nesting, and every reference to a category is to one that exists.
pub record CategoriesSound (db : Db) : Type 0 where
  pub nested : All (λ c. has_top_parent db.categories c.parent_id ≡ true) db.categories
  pub processed : All (λ pt. exists_in db.categories pt.category_id ≡ true) db.processed
  pub rules : All (λ r. exists_in db.categories r.category_id ≡ true) db.rules
  pub mapped : All (λ lc. exists_in db.categories lc.category_id ≡ true) db.line_categories

-- The mandatory categories.
abbrev pub mandatory : Db → List Category
mandatory db = where_rows (λ c. c.is_mandatory) db.categories

abbrev pub Steady : List Category → Db → Type 0
Steady fixed db = CategoriesSound db × (mandatory db ≡ fixed)

has_top_parent-more :
    (categories more : List Category) (o : Option ℕ)
    → has_top_parent categories o ≡ true
    → has_top_parent (categories ++ more) o ≡ true
has_top_parent-more categories more none h = refl
has_top_parent-more categories more (some p) h = any_row-more (is_top p) categories more h

pub Steady-insert_category :
    (fixed : List Category) (id : ℕ) (name : String) (parent : Option ℕ) (db : Db)
    → Steady fixed db
    → has_top_parent db.categories parent ≡ true
    → Leads.Written (λ _. Steady fixed) (insert_category id name parent db)
Steady-insert_category fixed id name parent db (sound, same) top =
    elim (Bool-cases (any_row (λ c. c.id == id || str_eq c.name name) db.categories)) [
      | inl e ↦ rw e tt
      | inr e ↦ rw e (
        record {
          nested =
              All-append _ db.categories _
                (All-map _ _ (λ c h. has_top_parent-more db.categories _ c.parent_id h)
                  db.categories sound.nested)
                (has_top_parent-more db.categories _ parent top, tt);
          processed =
              All-map _ _ (λ pt h. any_row-more _ db.categories _ h) db.processed sound.processed;
          rules = All-map _ _ (λ r h. any_row-more _ db.categories _ h) db.rules sound.rules;
          mapped =
              All-map _ _ (λ lc h. any_row-more _ db.categories _ h) db.line_categories
                sound.mapped;
        },
        where_rows-append (λ c. c.is_mandatory) db.categories (new_category id name parent ∷ [])
            ∙ append-nil (mandatory db)
            ∙ same,
      )
    ]

-- What refers to no removed category.
exists_in-kept :
    {A : Type 0} (category : A → ℕ) (id : ℕ) (categories : List Category) (rows : List A)
    → any_row (λ x. category x == id) rows ≡ false
    → All (λ x. exists_in categories (category x) ≡ true) rows
    → All
        (λ x. exists_in (where_rows (λ c. not (is_removable id c)) categories) (category x) ≡ true)
        rows
exists_in-kept category id categories [] free h = tt
exists_in-kept category id categories (x ∷ xs) free h = (
  any_row-kept (λ c. c.id == category x) _ categories (λ c e. ground arith) ∙ h.0,
  exists_in-kept category id categories xs (ground arith) h.1,
)

has_top_parent-kept :
    (id : ℕ) (categories : List Category) (o : Option ℕ)
    → elim o [ none ↦ false | some p ↦ p == id ] ≡ false
    → has_top_parent categories o ≡ true
    → has_top_parent (where_rows (λ x. not (is_removable id x)) categories) o ≡ true
has_top_parent-kept id categories none free h = refl
has_top_parent-kept id categories (some p) free h =
    any_row-kept (is_top p) _ categories (λ c e. ground arith) ∙ h

nested-kept :
    (id : ℕ) (categories rows : List Category)
    → any_row (is_child_of id) rows ≡ false
    → All (λ c. has_top_parent categories c.parent_id ≡ true) rows
    → All
        (λ c.
          has_top_parent (where_rows (λ x. not (is_removable id x)) categories) c.parent_id ≡ true)
        rows
nested-kept id categories [] free h = tt
nested-kept id categories (c ∷ cs) free h = (
  has_top_parent-kept id categories c.parent_id (ground arith) h.0,
  nested-kept id categories cs (ground arith) h.1,
)

Steady-removed :
    (fixed : List Category) (id : ℕ) (db : Db)
    → Steady fixed db
    → is_referenced id db ≡ false
    → Steady fixed
        (record db { categories = where_rows (λ c. not (is_removable id c)) db.categories })
Steady-removed fixed id db (sound, same) free = (
  record {
    nested =
        All-kept _ _ _ db.categories (λ c kept h. h)
          (nested-kept id db.categories db.categories (ground arith) sound.nested);
    processed =
        exists_in-kept (λ pt. pt.category_id) id db.categories db.processed (ground arith)
          sound.processed;
    rules =
        exists_in-kept (λ r. r.category_id) id db.categories db.rules (ground arith) sound.rules;
    mapped =
        exists_in-kept (λ lc. lc.category_id) id db.categories db.line_categories (ground arith)
          sound.mapped;
  },
  where_rows-kept (λ c. c.is_mandatory) _ db.categories (λ c e. ground arith) ∙ same,
)

pub Steady-remove_category :
    (fixed : List Category) (id : ℕ) (db : Db)
    → Steady fixed db
    → Leads.Written (λ _. Steady fixed) (remove_category id db)
Steady-remove_category fixed id db steady =
    elim (Bool-cases (any_row (is_removable id) db.categories)) [
      | inl e ↦ rw e (elim (Bool-cases (is_referenced id db)) [
        | inl used ↦ rw used tt
        | inr free ↦ rw free (Steady-removed fixed id db steady free)
      ])
      | inr e ↦ rw e steady
    ]
