-- ===== src/Store/Categories.antt =====
-- The statements that write transaction_categories (internal/db/queries.sql.go).
use bank_system_public.Base.{
  ℕ, String, Bool, true, false, not, ◌&&◌, ◌||◌, Option, none, some, [], ◌∷◌, ◌++◌, str_eq, ◌==◌,
  if◌then◌else◌, any_row, where_rows,
}
use bank_system_public.Store.Schema.{Category, Db}
use bank_system_public.Store.Monad.{
  Result, Failure, ok, err, unique_violation, foreign_key_violation, Query, statement, select,
}

abbrev pub is_child_of : ℕ → Category → Bool
is_child_of id c = elim c.parent_id [ none ↦ false | some p ↦ p == id ]

unfoldable pub category_has_children : ℕ → Query Bool
category_has_children id = select (λ db. any_row (is_child_of id) db.categories)

abbrev pub new_category : ℕ → String → Option ℕ → Category
new_category id name parent_id = record {
  id = id;
  name = name;
  is_mandatory = false;
  parent_id = parent_id;
}

-- The id is the primary key, and the name is UNIQUE. The id that the database makes up is an argument.
abbrev pub insert_category : ℕ → String → Option ℕ → Db → Result Failure (Category × Db)
insert_category id name parent_id db =
    if any_row (λ c. c.id == id || str_eq c.name name) db.categories
    then err unique_violation
    else ok (
      new_category id name parent_id,
      record db { categories = db.categories ++ new_category id name parent_id ∷ [] },
    )

unfoldable pub create_category : ℕ → String → Option ℕ → Query Category
create_category id name parent_id = statement (insert_category id name parent_id)

abbrev pub is_removable : ℕ → Category → Bool
is_removable id c = c.id == id && not c.is_mandatory

-- The foreign keys to transaction_categories.
abbrev pub is_referenced : ℕ → Db → Bool
is_referenced id db =
    any_row (λ pt. pt.category_id == id) db.processed
    || any_row (λ r. r.category_id == id) db.rules
    || any_row (λ lc. lc.category_id == id) db.line_categories
    || any_row (is_child_of id) db.categories

-- The answer is whether a row was deleted.
abbrev pub remove_category : ℕ → Db → Result Failure (Bool × Db)
remove_category id db =
    if not (any_row (is_removable id) db.categories)
    then ok (false, db)
    else if is_referenced id db
    then err foreign_key_violation
    else ok
        (true, record db { categories = where_rows (λ c. not (is_removable id c)) db.categories })

unfoldable pub delete_category : ℕ → Query Bool
delete_category id = statement (remove_category id)
