-- ===== src/Handler/BudgetLines/Requests.antt =====
-- The requests on budgets (internal/handler/budgets.go), and what each sequence of them keeps.
use bank_system_public.Base.{
  ℕ, String, Bool, true, false, ◌≡◌, Option, none, some, List, [], ◌∷◌, first_row, any_row,
  any_row-first, update_rows, ltb, length, if◌then◌else◌,
}
use bank_system_public.Base.Int.{ℤ, pos_part}
use bank_system_public.Store.{Db, Budget, Session, or_no_rows, pure, raise, require}
use bank_system_public.Store.Effects.{
  ReadOnly, ReadOnly-select_one, ReadOnly-bind, ReadOnly-on_failure, ReadOnly-raise, ReadOnly-pure,
}
use bank_system_public.Store.Leads
use bank_system_public.Store.Leads.{Leads}
use bank_system_public.Store.Budgets as Stored
use bank_system_public.Store.Budgets.{is_year}
use bank_system_public.Store.LineCategories.Sound.{BudgetsSound}
use bank_system_public.Store.LineCategories.Sound as Rows
use bank_system_public.Handler.Http.{
  too_large, HttpError, Handler, not_found, internal, missing_row, parse_id,
}
use bank_system_public.Handler.Budgets.{
  CreateBudgetRequest, load_budget, check_source, missing_source, is_budget_year, parse_budget_year,
  handle_create_budget, handle_update_budget, handle_delete_budget, upload_auditor_report,
  read_report, max_auditor_report_size, pdf_prefix,
}
use bank_system_public.Handler.BudgetRequest.{BudgetLineRequest, normalize_budget_line}
use bank_system_public.Processing.Text.{has_prefix}
use bank_system_public.Handler.BudgetText.{optional_budget_text}
use bank_system_public.Handler.BudgetLines.{
  handle_budget_line_save, handle_create_budget_line, handle_update_budget_line,
  handle_delete_budget_line,
}
use bank_system_public.Handler.BudgetLines.Kept.{
  Keeps, Keeps-or_bad_request, Keeps-require, Keeps-then, Keeps-ReadOnly, Keeps-save,
}
use bank_system_public.Handler.BudgetLines.Sound.{write_budget-Sound}

module _ (trim : String → String) (name_before : String → String → Bool) where
  Keeps-handle_budget_line_save :
      (year id : ℕ) (body : Option BudgetLineRequest)
      → Keeps (handle_budget_line_save trim name_before year id body)
  unfolding handle_budget_line_save load_budget Stored.get_budget
  Keeps-handle_budget_line_save year id body = Keeps-or_bad_request body _ (λ request.
      Keeps-or_bad_request (normalize_budget_line trim request) _ (λ line.
        Leads.Leads-bind _ (λ _ db. BudgetsSound db × (any_row (is_year year) db.budgets ≡ true)) _
          _ _ _
          (Leads.Leads-weaken _ _ _ _ _ _ _ (λ db p. p)
            (λ b db p. (p.0, any_row-first (is_year year) db.budgets b p.1)) (λ db p. p)
            (Leads.Leads-select_one BudgetsSound BudgetsSound
              (λ db. first_row (is_year year) db.budgets) missing_row (λ db p. p)))
          (λ b. Keeps-save name_before year id line)))

  Keeps-handle_create_budget :
      (body : Option CreateBudgetRequest) → Keeps (handle_create_budget trim body)
  unfolding handle_create_budget Stored.get_budget
  Keeps-handle_create_budget body = Keeps-or_bad_request body _ (λ request.
      Keeps-require (is_budget_year request.year) _ _ (λ _.
        Keeps-or_bad_request (optional_budget_text trim request.note) _ (λ remark.
          Keeps-then _ _ (Keeps-ReadOnly _ (ReadOnly-check_source request.copy_from_year)) (λ _.
            Leads.Leads-in_transaction _ _ _ internal internal _ (λ db sound. sound)
              (write_budget-Sound (pos_part request.year) remark request.copy_from_year)))))
    where
      ReadOnly-check_source : (from : Option ℤ) → ReadOnly (check_source from)
      ReadOnly-check_source none = ReadOnly-pure tt
      ReadOnly-check_source (some from) =
          ReadOnly-bind _ _ (ReadOnly-on_failure _ missing_source (ReadOnly-select_one _))
            (λ _. ReadOnly-pure tt)

  Keeps-handle_update_budget :
      (path : Option ℤ) (body : Option (Option String))
      → Keeps (handle_update_budget trim path body)
  unfolding handle_update_budget Stored.update_budget_note
  Keeps-handle_update_budget path body = Keeps-or_bad_request (parse_budget_year path) _ (λ year.
      Keeps-or_bad_request body _ (λ request.
        Keeps-or_bad_request (optional_budget_text trim request) _ (λ remark.
          Leads.Leads-statement _ _ _ _ missing_row (λ db sound. sound)
            (λ db sound. noted year remark db (Rows.Sound-with_note year remark db sound) (
              first_row (is_year year)
                (update_rows (is_year year) (Stored.with_note remark) db.budgets))))))
    where
      noted :
          (year : ℕ) (remark : Option String) (db : Db)
          → BudgetsSound (record db {
            budgets = update_rows (is_year year) (Stored.with_note remark) db.budgets;
          })
          → (o : Option Budget)
          → Leads.Written
              (λ _. BudgetsSound)
              (or_no_rows
                (record db {
                  budgets = update_rows (is_year year) (Stored.with_note remark) db.budgets;
                })
                o)
      noted year remark db sound none = tt
      noted year remark db sound (some b) = sound

  -- The last part of a deletion.
  Keeps-deleted : (b : Bool) → Keeps (require {E = HttpError} b not_found)
  Keeps-deleted true = Leads.Leads-pure _ _ _ tt (λ db sound. sound)
  Keeps-deleted false = Leads.Leads-raise _ _ _ not_found (λ db sound. sound)

  Keeps-handle_delete_budget : (path : Option ℤ) → Keeps (handle_delete_budget path)
  unfolding handle_delete_budget Stored.delete_budget
  Keeps-handle_delete_budget path = Keeps-or_bad_request (parse_budget_year path) _ (λ year.
      Keeps-then _ _
        (Leads.Leads-statement _ _ _ _ internal (λ db sound. sound)
          (λ db sound. Rows.Sound-without_budget year db sound))
        Keeps-deleted)

  Keeps-handle_delete_budget_line : (path id : Option ℤ) → Keeps (handle_delete_budget_line path id)
  unfolding handle_delete_budget_line Stored.delete_budget_line
  Keeps-handle_delete_budget_line path id = Keeps-or_bad_request (parse_budget_year path) _ (λ year.
      Keeps-or_bad_request (parse_id id) _ (λ line_id.
        Keeps-then _ _
          (Leads.Leads-statement _ _ _ _ internal (λ db sound. sound)
            (λ db sound. Rows.Sound-without_line line_id year db sound))
          Keeps-deleted))

  Keeps-upload_auditor_report :
      (path : Option ℤ) (body : Option (List ℕ)) → Keeps (upload_auditor_report path body)
  unfolding upload_auditor_report load_budget Stored.get_budget Stored.upsert_budget_auditor_report
  Keeps-upload_auditor_report path body = Keeps-or_bad_request (parse_budget_year path) _ (λ year.
      Keeps-then _ _ (Keeps-ReadOnly _ (ReadOnly-read_report max_auditor_report_size body))
        (λ content. Keeps-require (has_prefix content pdf_prefix) _ _ (λ _.
          Keeps-then _ _
            (Keeps-ReadOnly _ (ReadOnly-on_failure _ missing_row (ReadOnly-select_one _)))
            (λ b.
              Leads.Leads-statement _ _ _ _ internal (λ db sound. sound)
                (λ db sound. record {
                  years = sound.years;
                  lines = sound.lines;
                  categories = sound.categories;
                  apart = sound.apart;
                })))))
    where
      ReadOnly-read_report :
          (limit : ℕ) (body : Option (List ℕ)) → ReadOnly (read_report limit body)
      ReadOnly-read_report limit none = ReadOnly-raise _
      ReadOnly-read_report limit (some content) = checked (ltb limit (length content))
        where
          checked : (b : Bool) → ReadOnly (if b then raise too_large else pure content)
          checked true = ReadOnly-raise _
          checked false = ReadOnly-pure content

-- A request on a budget with what was read of it.
pub data BudgetCall : Type 0 where
  create_budget : Option CreateBudgetRequest → BudgetCall
  update_budget : Option ℤ → Option (Option String) → BudgetCall
  delete_budget : Option ℤ → BudgetCall
  upload_report : Option ℤ → Option (List ℕ) → BudgetCall
  create_line : Option ℤ → Option BudgetLineRequest → BudgetCall
  update_line : Option ℤ → Option ℤ → Option BudgetLineRequest → BudgetCall
  delete_line : Option ℤ → Option ℤ → BudgetCall

module _ (trim : String → String) (name_before : String → String → Bool) where
  -- The session after a request has been served.
  unfoldable pub serve_budget : BudgetCall → Session → Session
  serve_budget (create_budget body) s = (handle_create_budget trim body s).1
  serve_budget (update_budget path body) s = (handle_update_budget trim path body s).1
  serve_budget (delete_budget path) s = (handle_delete_budget path s).1
  serve_budget (upload_report path body) s = (upload_auditor_report path body s).1
  serve_budget (create_line path body) s =
      (handle_create_budget_line trim name_before path body s).1
  serve_budget (update_line path id body) s =
      (handle_update_budget_line trim name_before path id body s).1
  serve_budget (delete_line path id) s = (handle_delete_budget_line path id s).1

  unfoldable pub serve_budgets : List BudgetCall → Session → Session
  unfolding serve_budget
  serve_budgets [] s = s
  serve_budgets (call ∷ calls) s = serve_budgets calls (serve_budget call s)

  sound_after :
      {A : Type 0} (m : Handler A) (s : Session)
      → Keeps m
      → BudgetsSound s.db
      → BudgetsSound (m s).1.db
  sound_after m s keeps sound = Leads.after BudgetsSound m s keeps sound

  serve_budget-BudgetsSound :
      (call : BudgetCall) (s : Session) → BudgetsSound s.db → BudgetsSound (serve_budget call s).db
  unfolding serve_budget handle_create_budget_line handle_update_budget_line
  serve_budget-BudgetsSound (create_budget body) s =
      sound_after _ s (Keeps-handle_create_budget trim name_before body)
  serve_budget-BudgetsSound (update_budget path body) s =
      sound_after _ s (Keeps-handle_update_budget trim name_before path body)
  serve_budget-BudgetsSound (delete_budget path) s =
      sound_after _ s (Keeps-handle_delete_budget trim name_before path)
  serve_budget-BudgetsSound (upload_report path body) s =
      sound_after _ s (Keeps-upload_auditor_report trim name_before path body)
  serve_budget-BudgetsSound (create_line path body) s = sound_after _ s (
      Keeps-or_bad_request (parse_budget_year path) _
        (λ year. Keeps-handle_budget_line_save trim name_before year 0 body))
  serve_budget-BudgetsSound (update_line path id body) s = sound_after _ s (
      Keeps-or_bad_request (parse_budget_year path) _ (λ year.
        Keeps-or_bad_request (parse_id id) _
          (λ n. Keeps-handle_budget_line_save trim name_before year n body)))
  serve_budget-BudgetsSound (delete_line path id) s =
      sound_after _ s (Keeps-handle_delete_budget_line trim name_before path id)

  -- Whatever requests on budgets are served one after the other, and whatever statements fail
  -- meanwhile: if lines are of years that have a budget, categories are mapped to existing lines of
  -- the mapping's year and exist themselves, and no category feeds two lines of a year, then all of
  -- this holds afterwards.
  pub serve_budgets-BudgetsSound :
      (calls : List BudgetCall) (s : Session)
      → BudgetsSound s.db
      → BudgetsSound (serve_budgets calls s).db
  unfolding serve_budgets
  serve_budgets-BudgetsSound [] s sound = sound
  serve_budgets-BudgetsSound (call ∷ calls) s sound =
      serve_budgets-BudgetsSound calls (serve_budget call s)
        (serve_budget-BudgetsSound call s sound)
