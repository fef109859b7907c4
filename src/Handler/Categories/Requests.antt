-- ===== src/Handler/Categories/Requests.antt =====
-- The requests that write categories (internal/handler/categories.go), and what each sequence of them
-- keeps.
use bank_system_public.Base.{
  ℕ, String, Bool, true, false, not, ◌≡◌, refl, sym, ◌∙◌, Option, none, some, List, [], ◌∷◌, ◌==◌,
  is_set, inl, inr, Bool-cases, first_row, any_row, arith,
}
use mathlib.Core.Path.{subst}
use bank_system_public.Store.{Category, Session, require, category_with_id, get_category}
use bank_system_public.Store.Effects.{ReadOnly-select, ReadOnly-select_one, ReadOnly-on_failure}
use bank_system_public.Store.Leads
use bank_system_public.Store.Leads.{Leads}
use bank_system_public.Store.Categories as Stored
use bank_system_public.Store.Categories.{
  is_child_of, new_category, insert_category, is_removable, is_referenced, remove_category,
}
use bank_system_public.Handler.Http.{
  HttpError, bad_request, not_found, conflict, internal, missing_row,
}
use bank_system_public.Handler.Http.Steps.{Leads-given_part, Leads-when}
use bank_system_public.Handler.Budgets.{duplicate}
use bank_system_public.Handler.Categories.Sound.{
  is_top, has_top_parent, CategoriesSound, mandatory, Steady, Steady-insert_category,
  Steady-remove_category,
}
use bank_system_public.Handler.Categories.{
  CreateCategoryRequest, is_category_name, missing_parent, check_parent, in_use,
  handle_create_category, handle_delete_category,
}

check_parent-Leads :
    (fixed : List Category) (parent : Option ℕ)
    → Leads
        (Steady fixed)
        (λ _ db. Steady fixed db × (has_top_parent db.categories parent ≡ true))
        (Steady fixed)
        (check_parent parent)
unfolding check_parent get_category
check_parent-Leads fixed none = Leads.Leads-pure _ _ _ tt (λ db p. (p, refl))
check_parent-Leads fixed (some id) =
    Leads.Leads-bind _ _ _ _ _ _
      (Leads.Leads-select_one (Steady fixed) (Steady fixed) (category_with_id id) missing_parent
        (λ db p. p))
      (λ parent.
        Leads.Leads-weaken _ _ _ _ _ _ _ (λ db p. p)
          (λ _ db ((p, found), top). (p, top_row db.categories id parent found top)) (λ db p. p)
          (Leads.Leads-require _ (Steady fixed) (not (is_set parent.parent_id)) bad_request
            (λ db p. p.0)))
  where
    top_row :
        (rows : List Category) (id : ℕ) (parent : Category)
        → first_row (λ c. c.id == id) rows ≡ some parent
        → not (is_set parent.parent_id) ≡ true
        → any_row (is_top id) rows ≡ true
    top_row [] id parent e top = ground arith
    top_row (c ∷ cs) id parent e top = elim (Bool-cases (c.id == id)) [
      | inl t ↦
          let same : c ≡ parent = ground arith in
          let bare = subst (λ x. not (is_set x.parent_id) ≡ true) (sym same) top in ground arith
      | inr f ↦ ground (arith, top_row cs id parent)
    ]

handle_create_category-Steady :
    (fixed : List Category) (trim : String → String) (uuid : ℕ)
    (body : Option CreateCategoryRequest)
    → Leads
        (Steady fixed)
        (λ _. Steady fixed)
        (Steady fixed)
        (handle_create_category trim uuid body)
unfolding handle_create_category Stored.create_category
handle_create_category-Steady fixed trim uuid body =
    Leads-given_part _ _ _ body _ (λ db p. p)
      (λ request _.
        Leads-when _ _ _ (is_category_name (trim request.name)) bad_request _ (λ db p. p)
          (λ _. Leads.Leads-bind _ _ _ _ _ _ (check_parent-Leads fixed request.parent_id) (λ _.
            Leads.Leads-statement _ _ _ _ duplicate (λ db p. p.0)
              (λ db p.
                Steady-insert_category fixed uuid (trim request.name) request.parent_id db p.0
                  p.1))))

handle_delete_category-Steady :
    (fixed : List Category) (path : Option ℕ)
    → Leads (Steady fixed) (λ _. Steady fixed) (Steady fixed) (handle_delete_category path)
unfolding handle_delete_category get_category Stored.category_has_children Stored.delete_category
handle_delete_category-Steady fixed path =
    Leads-given_part _ _ _ path _ (λ db p. p)
      (λ id _.
        Leads.Leads-bind _ (λ _. Steady fixed) _ _ _ _
          (Leads.Leads-ReadOnly _ _
            (ReadOnly-on_failure _ missing_row (ReadOnly-select_one (category_with_id id))))
          (λ category.
            Leads-when _ _ _ (not category.is_mandatory) bad_request _ (λ db p. p)
              (λ _.
                Leads.Leads-bind _ (λ _. Steady fixed) _ _ _ _
                  (Leads.Leads-ReadOnly _ _ (ReadOnly-on_failure _ internal (ReadOnly-select _)))
                  (λ has_children.
                    Leads-when _ _ _ (not has_children) conflict _ (λ db p. p)
                      (λ _.
                        Leads.Leads-bind _ (λ _. Steady fixed) _ _ _ _
                          (Leads.Leads-statement _ _ _ _ in_use (λ db p. p)
                            (λ db p. Steady-remove_category fixed id db p))
                          last)))))
  where
    last :
        (b : Bool)
        → Leads
            (Steady fixed)
            (λ _. Steady fixed)
            (Steady fixed)
            (require {E = HttpError} b not_found)
    last true = Leads.Leads-pure _ _ _ tt (λ db p. p)
    last false = Leads.Leads-raise _ _ _ not_found (λ db p. p)

-- A request that writes categories, with what was read of it and the id made up for a new one.
pub data CategoryCall : Type 0 where
  create_category : ℕ → Option CreateCategoryRequest → CategoryCall
  delete_category : Option ℕ → CategoryCall

module _ (trim : String → String) where
  -- The session after a request has been served.
  unfoldable pub serve_category : CategoryCall → Session → Session
  serve_category (create_category uuid body) s = (handle_create_category trim uuid body s).1
  serve_category (delete_category path) s = (handle_delete_category path s).1

  unfoldable pub serve_categories : List CategoryCall → Session → Session
  unfolding serve_category
  serve_categories [] s = s
  serve_categories (call ∷ calls) s = serve_categories calls (serve_category call s)

  serve_category-Steady :
      (fixed : List Category) (call : CategoryCall) (s : Session)
      → Steady fixed s.db
      → Steady fixed (serve_category call s).db
  unfolding serve_category
  serve_category-Steady fixed (create_category uuid body) s p =
      Leads.after _ _ s (handle_create_category-Steady fixed trim uuid body) p
  serve_category-Steady fixed (delete_category path) s p =
      Leads.after _ _ s (handle_delete_category-Steady fixed path) p

  -- No sequence of requests that create and delete categories, with whatever failing statements,
  -- changes or removes a mandatory category or adds one. If sub-categories are of top-level
  -- categories, and transactions, rules and budget lines of categories that exist, then all of this
  -- holds afterwards.
  pub serve_categories-CategoriesSound :
      (calls : List CategoryCall) (s : Session)
      → CategoriesSound s.db
      → CategoriesSound (serve_categories calls s).db
        × (mandatory (serve_categories calls s).db ≡ mandatory s.db)
  unfolding serve_categories
  serve_categories-CategoriesSound [] s sound = (sound, refl)
  serve_categories-CategoriesSound (call ∷ calls) s sound =
      let first = serve_category-Steady (mandatory s.db) call s (sound, refl) in
      let rest = serve_categories-CategoriesSound calls (serve_category call s) first.0 in
      (rest.0, rest.1 ∙ first.1)
