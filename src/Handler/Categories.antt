-- ===== src/Handler/Categories.antt =====
-- internal/handler/categories.go: CreateCategory and DeleteCategory.
pub mod Sound
pub mod Requests
use bank_system_public.Base.{
  ℕ, String, Bool, true, false, not, ◌||◌, Option, none, some, List, [], ◌∷◌, str_eq, ltb, is_set,
  if◌then◌else◌,
}
use bank_system_public.Store.{
  Category, Failure, no_rows, unique_violation, foreign_key_violation, Session, Action, pure, raise,
  require, ◌>>=◌, ◌>>◌, on_failure, get_category,
}
use bank_system_public.Store.Categories as Stored
use bank_system_public.Handler.Http.{
  HttpError, bad_request, not_found, conflict, internal_error, Handler, internal, missing_row,
  or_bad_request,
}
use bank_system_public.Handler.Budgets.{duplicate}
use bank_system_public.Handler.BudgetText.{byte_length}

abbrev pub category_name_max_length : ℕ
category_name_max_length = 64

pub record CreateCategoryRequest : Type 0 where
  pub name : String
  pub parent_id : Option ℕ

-- The trimmed name is neither empty nor too long.
abbrev pub is_category_name : String → Bool
is_category_name name = not (str_eq name "" || ltb category_name_max_length (byte_length name))

-- A parent that does not exist answers 400.
abbrev pub missing_parent : Failure → HttpError
missing_parent no_rows = bad_request
missing_parent _ = internal_error

-- The parent is a top-level category.
unfoldable pub check_parent : Option ℕ → Handler (Unit {0})
check_parent none = pure tt
check_parent (some id) = do
  parent ← on_failure (get_category id) missing_parent
  require (not (is_set parent.parent_id)) bad_request

-- `uuid` is the id that the database makes up, strings.TrimSpace is `trim`.
unfoldable pub handle_create_category :
    (String → String) → ℕ → Option CreateCategoryRequest → Handler Category
unfolding check_parent
handle_create_category trim uuid body = do
  request ← or_bad_request body
  _ ← require (is_category_name (trim request.name)) bad_request
  _ ← check_parent request.parent_id
  on_failure (Stored.create_category uuid (trim request.name) request.parent_id) duplicate

abbrev pub in_use : Failure → HttpError
in_use foreign_key_violation = conflict
in_use _ = internal_error

-- The id is what categoryid.Parse reads in the path.
unfoldable pub handle_delete_category : Option ℕ → Handler (Unit {0})
handle_delete_category path = do
  id ← or_bad_request path
  category ← on_failure (get_category id) missing_row
  _ ← require (not category.is_mandatory) bad_request
  has_children ← on_failure (Stored.category_has_children id) internal
  _ ← require (not has_children) conflict
  deleted ← on_failure (Stored.delete_category id) in_use
  require deleted not_found
