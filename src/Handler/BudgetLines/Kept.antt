-- ===== src/Handler/BudgetLines/Kept.antt =====
-- Every request on budgets keeps the tables of the budgets sound: the checks on the categories of a
-- line, and what follows them.
use bank_system_public.Base.{
  ℕ, String, Bool, true, false, ◌≡◌, sym, Option, none, some, List, [], ◌∷◌, ◌==◌, first_row,
  any_row, any_row-first, All,
}
use bank_system_public.Store.{Db, Category, Session, Result, ok, err, Action, require, ◌>>=◌}
use bank_system_public.Store.Effects.{
  ReadOnly, ReadOnly-select, ReadOnly-bind, ReadOnly-on_failure, ReadOnly-raise, ReadOnly-pure,
}
use bank_system_public.Store.Leads
use bank_system_public.Store.Leads.{Leads}
use bank_system_public.Store.Schema.{BudgetLine}
use bank_system_public.Store.Budgets as Stored
use bank_system_public.Store.Budgets.{is_year}
use bank_system_public.Store.LineCategories.{
  LineMapping, get_category, category_with_id, list_budget_line_categories, year_mappings,
}
use bank_system_public.Store.LineCategories.Sound.{BudgetsSound}
use bank_system_public.Handler.Http.{
  HttpError, Handler, bad_request, conflict, internal, or_bad_request,
}
use bank_system_public.Handler.BudgetRequest.{NormalizedBudgetLine}
use bank_system_public.Handler.BudgetLines.{
  SaveError, answer_save, unknown_category, check_known, check_line_categories, save_budget_line,
  saved, line_response, write_budget_line,
}
use bank_system_public.Handler.BudgetLines.Sound.{Prepared, save_budget_line-Sound}

abbrev pub Keeps : {E A : Type 0} → Action E A → Type 0
Keeps m = Leads BudgetsSound (λ _. BudgetsSound) BudgetsSound m

-- A part of a request that must be there.
pub Keeps-or_bad_request :
    {A B : Type 0} (o : Option A) (f : A → Handler B)
    → ((a : A) → Keeps (f a))
    → Keeps (or_bad_request o >>= f)
Keeps-or_bad_request none f h = Leads.Leads-raise _ _ _ bad_request (λ db sound. sound)
Keeps-or_bad_request (some a) f h = h a

pub Keeps-require :
    {B : Type 0} (b : Bool) (e : HttpError) (f : Unit {0} → Handler B)
    → ((u : Unit {0}) → Keeps (f u))
    → Keeps (require b e >>= f)
Keeps-require true e f h = h tt
Keeps-require false e f h = Leads.Leads-raise _ _ _ e (λ db sound. sound)

pub Keeps-then :
    {A B : Type 0} (m : Handler A) (f : A → Handler B)
    → Keeps m
    → ((a : A) → Keeps (f a))
    → Keeps (m >>= f)
Keeps-then m f hm hf = Leads.Leads-bind _ (λ _. BudgetsSound) _ _ m f hm hf

pub Keeps-ReadOnly : {E A : Type 0} (m : Action E A) → ReadOnly m → Keeps m
Keeps-ReadOnly m h = Leads.Leads-ReadOnly BudgetsSound m h

check_known-Leads :
    (categories : List Category) (year : ℕ) (ids : List ℕ)
    → Leads
        (Prepared categories year)
        (λ _ db.
          Prepared categories year db × All (λ id. any_row (λ c. c.id == id) categories ≡ true) ids)
        BudgetsSound
        (check_known ids)
unfolding check_known get_category
check_known-Leads categories year [] = Leads.Leads-pure _ _ _ tt (λ db p. (p, tt))
check_known-Leads categories year (id ∷ ids) =
    Leads.Leads-bind _
      (λ c db. Prepared categories year db × (any_row (λ x. x.id == id) categories ≡ true)) _ _ _ _
      (Leads.Leads-weaken _ _ _ _ _ _ _ (λ db p. p)
        (λ c db (p, e). (p, rw (sym p.1) (any_row-first (λ x. x.id == id) db.categories c e)))
        (λ db p. p)
        (Leads.Leads-select_one (Prepared categories year) BudgetsSound (category_with_id id)
          unknown_category (λ db p. p.0.0)))
      (λ c. Leads.Leads-given _ _ _ _ _ (λ known.
        Leads.Leads-weaken _ _ _ _ _ _ _ (λ db p. p) (λ _ db (p, rest). (p, (known, rest)))
          (λ db p. p) (check_known-Leads categories year ids)))

check_line_categories-Leads :
    (name_before : String → String → Bool) (categories : List Category) (year id : ℕ) (ids : List ℕ)
    → Leads
        (Prepared categories year)
        (λ _ db.
          Prepared categories year db × All (λ id. any_row (λ c. c.id == id) categories ≡ true) ids)
        BudgetsSound
        (check_line_categories name_before year id ids)
unfolding check_line_categories list_budget_line_categories
check_line_categories-Leads name_before categories year id ids =
    Leads.Leads-bind _ _ _ _ _ _ (check_known-Leads categories year ids) (λ _.
      Leads.Leads-given _ _ _ _ _ (λ known.
        Leads.Leads-bind _
          (λ mappings db.
            Prepared categories year db × (year_mappings name_before year db ≡ mappings))
          _ _ _ _ (Leads.Leads-select _ _ (year_mappings name_before year) internal (λ db p. p.0.0))
          (λ mappings.
            Leads.Leads-weaken _ _ _ _ _ _ _ (λ db p. p) (λ _ db p. (p.0.0, known)) (λ db p. p)
              (Leads.Leads-require _ _ _ conflict (λ db p. p.0.0.0)))))

saved-Leads :
    (P : Db → Type 0) (year id : ℕ) (line : NormalizedBudgetLine)
    → Leads P (λ _. BudgetsSound) BudgetsSound (save_budget_line year id line)
    → Leads P (λ _. BudgetsSound) BudgetsSound (saved year id line)
saved-Leads P year id line h = record {
  at = λ s p. go (save_budget_line year id line s).0 _ (h.at s p);
}
  where
    go :
        (r : Result SaveError ℕ) (t : Session)
        → Leads.Reached (λ _. BudgetsSound) BudgetsSound (r, t)
        → Leads.Reached (λ _. BudgetsSound) BudgetsSound (answer_save r, t)
    go (ok n) t sound = sound
    go (err e) t sound = sound

ReadOnly-write_budget_line :
    (name_before : String → String → Bool) (year id : ℕ)
    → ReadOnly (write_budget_line name_before year id)
unfolding write_budget_line Stored.list_budget_lines list_budget_line_categories
ReadOnly-write_budget_line name_before year id =
    ReadOnly-bind _ _ (ReadOnly-on_failure _ internal (ReadOnly-select _)) (λ lines.
      ReadOnly-bind _ _ (ReadOnly-on_failure _ internal (ReadOnly-select _))
        (λ mappings. answer mappings (first_row (λ l. l.id == id) lines)))
  where
    answer :
        (mappings : List LineMapping) (o : Option BudgetLine) → ReadOnly (line_response mappings o)
    answer mappings none = ReadOnly-raise _
    answer mappings (some line) = ReadOnly-pure _

-- The part of handleBudgetLineSave that reads the categories and writes the line.
pub Keeps-save :
    (name_before : String → String → Bool) (year id : ℕ) (line : NormalizedBudgetLine)
    → Leads
        (λ db. BudgetsSound db × (any_row (is_year year) db.budgets ≡ true))
        (λ _. BudgetsSound)
        BudgetsSound
        (check_line_categories name_before year id line.category_ids >>= λ _.
          saved year id line >>= λ n. write_budget_line name_before year n)
Keeps-save name_before year id line =
    Leads.Leads-from _ _ _ (λ db. db.categories) _
      (λ categories.
        Leads.Leads-bind _ _ _ _ _ _
          (check_line_categories-Leads name_before categories year id line.category_ids)
          (λ _. Leads.Leads-given _ _ _ _ _ (λ known.
            Leads.Leads-bind _ (λ _. BudgetsSound) _ _ _ _
              (saved-Leads _ year id line (save_budget_line-Sound categories year id line known))
              (λ n. Keeps-ReadOnly _ (ReadOnly-write_budget_line name_before year n)))))
