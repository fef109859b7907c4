-- ===== src/Handler/BudgetLines/Answers.antt =====
-- What CreateBudgetLine and UpdateBudgetLine leave in the database, and what they answer.
use bank_system_public.Base.{
  ℕ, String, Bool, true, false, not, ◌≡◌, refl, sym, ◌∙◌, ap, Option, none, some, List, [], ◌∷◌,
  ◌++◌, ◌⊎◌, inl, inr, ◌==◌, ==_iff, first_row-holds, if◌then◌else◌, first_row, any_row, where_rows,
  update_rows, map, arith,
}
use mathlib.Core.Path.{subst}
use bank_system_public.Store.{
  Db, Session, no_rows, failed, foreign_key_violation, unique_violation, continue, Result, ok, err,
  require, ◌>>=◌, on_failure,
}
use bank_system_public.Store.Reads.{after_read, after_row}
use bank_system_public.Store.Leads
use bank_system_public.Store.Leads.{Leads}
use bank_system_public.Store.Schema.{BudgetLine}
use bank_system_public.Store.Budgets as Stored
use bank_system_public.Store.Budgets.{
  is_year, by_sort_order, is_line, is_named, line_row, overwritten, insert_line, rewrite_line,
}
use bank_system_public.Store.LineCategories.{
  LineMapping, lines_of, category_with_id, get_category, list_budget_line_categories, year_mappings,
}
use bank_system_public.Handler.BudgetLines.Saved.{
  requested_row, is_of, WritesLine, Nothing, write_line-WritesLine, insert_line_categories-adds,
}
use bank_system_public.Handler.Http.{
  HttpError, internal, bad_request, not_found, conflict, too_large, bad_gateway, forbidden,
  internal_error, missing_row,
}
use bank_system_public.Handler.Budgets.{load_budget}
use bank_system_public.Handler.BudgetRequest.{
  BudgetLineRequest, NormalizedBudgetLine, normalize_budget_line,
}
use bank_system_public.Handler.BudgetLines.{
  SaveError, line_not_found, query_failed, mapping, insert_line_categories,
  write_line_with_categories, save_budget_line, saved, answer_save, BudgetLineResponse,
  line_response, write_budget_line, check_known, check_line_categories, unknown_category, is_taken,
  handle_budget_line_save,
}

-- What saving a line writes: a new line, or the line of that id and year with the request's columns,
-- and the request's categories in place of those that the line had.
pub record IsSaved (year line_id : ℕ) (line : NormalizedBudgetLine) (before : Db) (id : ℕ)
    (after : Db) : Type 0 where
  pub number : id ≡ (if line_id == 0 then before.next_id else line_id)
  pub there : (line_id == 0) ≡ true ⊎ any_row (is_line line_id year) before.budget_lines ≡ true
  pub rows : after.budget_lines ≡ (
      if line_id == 0
      then before.budget_lines ++ requested_row before.next_id year line.fields ∷ []
      else update_rows
          (is_line line_id year)
          (λ l. requested_row l.id l.budget_year line.fields)
          before.budget_lines)
  pub mappings :
      after.line_categories
      ≡ (if line_id == 0
          then before.line_categories
          else where_rows (λ lc. not (is_of line_id lc)) before.line_categories)
        ++ map (mapping year id) line.category_ids
  pub rest : after ≡ record before {
    budget_lines = after.budget_lines;
    line_categories = after.line_categories;
    next_id = after.next_id;
  }

IsSaved-mapped :
    (year line_id : ℕ) (line : NormalizedBudgetLine) (before middle after : Db) (id : ℕ)
    → WritesLine year line_id line before id middle
    → after ≡ record middle {
      line_categories = middle.line_categories ++ map (mapping year id) line.category_ids;
    }
    → IsSaved year line_id line before id after
IsSaved-mapped year line_id line before middle after id w e = rw e (record {
  number = w.number;
  there = w.there;
  rows = w.rows;
  mappings = ap (λ rows. rows ++ map (mapping year id) line.category_ids) w.mappings;
  rest =
      ap {A = Db}
        (λ db. record db {
          line_categories = middle.line_categories ++ map (mapping year id) line.category_ids;
        })
        w.rest;
})

write_line_with_categories-IsSaved :
    (year line_id : ℕ) (line : NormalizedBudgetLine) (before : Db)
    → Leads
        (λ db. db ≡ before)
        (IsSaved year line_id line before)
        Nothing
        (write_line_with_categories year line_id line)
unfolding write_line_with_categories
write_line_with_categories-IsSaved year line_id line before =
    Leads.Leads-bind _ (WritesLine year line_id line before) _ _ _ _
      (write_line-WritesLine year line_id line before)
      (λ id.
        Leads.Leads-bind _ (λ _. IsSaved year line_id line before id) _ _ _ _
          (Leads.Leads-from _ _ _ (λ db. db) _ (mapped id))
          (λ _. Leads.Leads-pure _ _ _ id (λ db p. p)))
  where
    mapped :
        (id : ℕ) (middle : Db)
        → Leads
            (λ db. WritesLine year line_id line before id db × (db ≡ middle))
            (λ _. IsSaved year line_id line before id)
            Nothing
            (insert_line_categories year id line.category_ids)
    mapped id middle =
        Leads.Leads-weaken (λ db. (db ≡ middle) × WritesLine year line_id line before id middle) _ _
          _ _ _ _ (λ db (w, e). (e, subst (WritesLine year line_id line before id) e w))
          (λ _ db p. p) (λ db p. p)
          (Leads.Leads-given _ _ _ _ _ (λ w.
            Leads.Leads-weaken _ _ _ _ _ _ _ (λ db p. p)
              (λ _ db e. IsSaved-mapped year line_id line before middle db id w e) (λ db p. p)
              (insert_line_categories-adds year id line.category_ids middle)))

save_budget_line-IsSaved :
    (year line_id : ℕ) (line : NormalizedBudgetLine) (before : Db)
    → Leads
        (λ db. db ≡ before)
        (IsSaved year line_id line before)
        (λ db. db ≡ before)
        (save_budget_line year line_id line)
unfolding save_budget_line
save_budget_line-IsSaved year line_id line before =
    Leads.Leads-in_transaction _ _ _ query_failed query_failed _ (λ db e. e)
      (write_line_with_categories-IsSaved year line_id line before)

-- The answers of the checks on a line's categories.
abbrev may_refuse : HttpError → Bool
may_refuse bad_request = true
may_refuse conflict = true
may_refuse internal_error = true
may_refuse _ = false

abbrev Checked : {A : Type 0} → Db → Result HttpError A × Session → Type 0
Checked db (ok a, t) = t.db ≡ db
Checked db (err e, t) = (t.db ≡ db) × (may_refuse e ≡ true)

check_known-Checked :
    (db : Db) (ids : List ℕ) (s : Session) → s.db ≡ db → Checked db (check_known ids s)
unfolding check_known get_category
check_known-Checked db [] s e = e
check_known-Checked db (id ∷ ids) s e =
    after_row (Checked db) unknown_category (category_with_id id) _ s (λ t same. (same ∙ e, refl))
      (λ t same none_found. (same ∙ e, refl))
      (λ c t same found. check_known-Checked db ids t (same ∙ e))

check_line_categories-Checked :
    (name_before : String → String → Bool) (year line_id : ℕ) (ids : List ℕ) (s : Session)
    → Checked s.db (check_line_categories name_before year line_id ids s)
unfolding check_line_categories list_budget_line_categories
check_line_categories-Checked name_before year line_id ids s =
    go (check_known ids s).0 (check_known ids s).1 (check_known-Checked s.db ids s refl)
  where
    answer : (b : Bool) (t : Session) → t.db ≡ s.db → Checked s.db (require b conflict t)
    answer true t e = e
    answer false t e = (e, refl)

    go :
        (r : Result HttpError (Unit {0})) (t : Session)
        → Checked s.db (r, t)
        → Checked s.db (
            continue r
              (λ _.
                on_failure (list_budget_line_categories name_before year) internal >>= λ mappings.
                require (not (any_row (is_taken line_id mappings) ids)) conflict)
              t)
    go (ok _) t e =
        after_read (Checked s.db) internal (year_mappings name_before year) _ t
          (λ u same. (same ∙ e, refl))
          (λ u same.
            answer (not (any_row (is_taken line_id (year_mappings name_before year t.db)) ids)) u
              (same ∙ e))
    go (err x) t e = e

-- What the handler answers. The 500 may come after the line has been saved, from reading it back.
abbrev pub SaveEnds :
    ℕ → ℕ → NormalizedBudgetLine → Db → Result HttpError BudgetLineResponse × Session → Type 0
SaveEnds year line_id line db (ok response, s') =
    IsSaved year line_id line db response.line.id s'.db
SaveEnds year line_id line db (err internal_error, s') =
    (s'.db ≡ db) ⊎ ((id : ℕ) × IsSaved year line_id line db id s'.db)
SaveEnds year line_id line db (err bad_request, s') = s'.db ≡ db
SaveEnds year line_id line db (err not_found, s') = s'.db ≡ db
SaveEnds year line_id line db (err conflict, s') = s'.db ≡ db
SaveEnds year line_id line db (err too_large, s') = ⊥
SaveEnds year line_id line db (err bad_gateway, s') = ⊥
SaveEnds year line_id line db (err forbidden, s') = ⊥

SaveEnds-refused :
    (year line_id : ℕ) (line : NormalizedBudgetLine) (db : Db) (e : HttpError) (t : Session)
    → t.db ≡ db
    → may_refuse e ≡ true
    → SaveEnds year line_id line db (err e, t)
SaveEnds-refused year line_id line db bad_request t same h = same
SaveEnds-refused year line_id line db conflict t same h = same
SaveEnds-refused year line_id line db internal_error t same h = inl same
SaveEnds-refused year line_id line db not_found t same h = same
SaveEnds-refused year line_id line db too_large t same h = ground arith
SaveEnds-refused year line_id line db bad_gateway t same h = ground arith
SaveEnds-refused year line_id line db forbidden t same h = ground arith

module _ (name_before : String → String → Bool) (year line_id : ℕ) (line : NormalizedBudgetLine)
    (db : Db) where
  -- Reading the saved line back.
  answered :
      (id : ℕ) (t : Session)
      → IsSaved year line_id line db id t.db
      → SaveEnds year line_id line db (write_budget_line name_before year id t)
  unfolding write_budget_line Stored.list_budget_lines list_budget_line_categories
  answered id t done =
      after_read Ends internal (λ d. by_sort_order (lines_of year d.budget_lines)) _ t
        (λ u same. inr (id, subst Saves (sym same) done))
        (λ u same.
          after_read Ends internal (year_mappings name_before year) _ u
            (λ v same'. inr (id, subst Saves (sym (same' ∙ same)) done))
            (λ v same'.
              shown (year_mappings name_before year u.db)
                (first_row (λ l. l.id == id) (by_sort_order (lines_of year t.db.budget_lines))) refl
                v (subst Saves (sym (same' ∙ same)) done)))
    where
      Saves : Db → Type 0
      Saves after = IsSaved year line_id line db id after

      Ends : Result HttpError BudgetLineResponse × Session → Type 0
      Ends = SaveEnds year line_id line db

      shown :
          (mappings : List LineMapping) (o : Option BudgetLine)
          → first_row (λ l. l.id == id) (by_sort_order (lines_of year t.db.budget_lines)) ≡ o
          → (v : Session) → Saves v.db
          → Ends (line_response mappings o v)
      shown mappings none e v h = inr (id, h)
      shown mappings (some l) e v h =
          subst (λ n. IsSaved year line_id line db n v.db)
            (sym (
              (==_iff l.id id).0 (
                first_row-holds (λ l. l.id == id) (by_sort_order (lines_of year t.db.budget_lines))
                  l e)))
            h

  -- The transaction, and what follows it.
  stored :
      (r : Result SaveError ℕ) (t : Session)
      → Leads.Reached (IsSaved year line_id line db) (λ after. after ≡ db) (r, t)
      → SaveEnds year line_id line db
          (continue (answer_save r) (write_budget_line name_before year) t)
  stored (ok id) t done = answered id t done
  stored (err line_not_found) t e = e
  stored (err (query_failed unique_violation)) t e = e
  stored (err (query_failed no_rows)) t e = inl e
  stored (err (query_failed failed)) t e = inl e
  stored (err (query_failed foreign_key_violation)) t e = inl e

  checked :
      (r : Result HttpError (Unit {0})) (t : Session)
      → Checked db (r, t)
      → SaveEnds year line_id line db
          (continue r (λ _. saved year line_id line >>= write_budget_line name_before year) t)
  checked (ok _) t same =
      let (r, u) = save_budget_line year line_id line t in
      stored r u ((save_budget_line-IsSaved year line_id line db).at t same)
  checked (err e) t (same, h) = SaveEnds-refused year line_id line db e t same h

-- A request to save a line, the body of which is valid, answers with a line only if that line has
-- been saved: the row with the columns of the request, and the categories of the request in place of
-- those the line had; no other row of any table has changed. Answering 400, 404 or 409 it has changed
-- nothing, and it never answers 403, 413 or 502. Answering 500 it has changed nothing or saved the line.
pub handle_budget_line_save-SaveEnds :
    (trim : String → String) (name_before : String → String → Bool) (year line_id : ℕ)
    (request : BudgetLineRequest) (line : NormalizedBudgetLine) (s : Session)
    → normalize_budget_line trim request ≡ some line
    → SaveEnds year line_id line s.db
        (handle_budget_line_save trim name_before year line_id (some request) s)
unfolding handle_budget_line_save load_budget Stored.get_budget
handle_budget_line_save-SaveEnds trim name_before year line_id request line s h = rw h (
    after_row (SaveEnds year line_id line s.db) missing_row
      (λ db. first_row (is_year year) db.budgets) _ s (λ t same. inl same)
      (λ t same none_found. same)
      (λ b t same found.
        let (r, u) = check_line_categories name_before year line_id line.category_ids t in
        checked name_before year line_id line s.db r u (
          subst (λ db. Checked db (r, u)) same
            (check_line_categories-Checked name_before year line_id line.category_ids t))))
