-- ===== src/Handler/Audit.antt =====
-- internal/handler/audit.go: the AuditLog middleware, around a route behind RequireRole
-- (internal/handler/auth.go). The context of a request is not modelled, but for the record that
-- withClaims fills in. ListAuditLogs is not modelled.
pub mod Recorded
mod Tests
use bank_system_public.Base.{
  ℕ, zero, suc, String, Bool, true, false, ◌||◌, Option, none, some, List, [], ◌∷◌, str_eq,
  first_row, if◌then◌else◌,
}
use bank_system_public.Store.{Session, CreateAuditLogParams, create_audit_log}
use bank_system_public.Auth.{Claims, Token, Guarded, unauthorized, forbidden, passed, require_role}

-- A call of a handler on its ResponseWriter.
pub data Write : Type 0 where
  write_header : ℕ → Write
  write_body : Write

-- What a route does: its calls on the ResponseWriter, and the session after it.
abbrev pub Handling : Type 0
Handling = Session → List Write × Session

-- auditRoutes: category and action by the pattern of the route.
abbrev pub audit_routes : List (String × (String × String))
audit_routes =
    ("POST /account", ("bank_account", "create_bank_account"))
    ∷ ("PATCH /account/{id}", ("bank_account", "update_bank_account"))
    ∷ ("DELETE /account/{id}", ("bank_account", "delete_bank_account"))
    ∷ ("POST /account/{id}/sync", ("bank_account", "sync_bank_account"))
    ∷ ("POST /account/{id}/backfill", ("bank_account", "backfill_bank_account"))
    ∷ ("POST /processing/run", ("processing", "run_processing"))
    ∷ ("PUT /transactions/{id}/assignment", ("transaction", "assign_transaction"))
    ∷ ("DELETE /transactions/{id}/assignment", ("transaction", "unassign_transaction"))
    ∷ ("POST /categories", ("category", "create_category"))
    ∷ ("DELETE /categories/{id}", ("category", "delete_category"))
    ∷ ("POST /categorization-rules", ("categorization_rule", "create_categorization_rule"))
    ∷ ("PUT /categorization-rules/{id}", ("categorization_rule", "update_categorization_rule"))
    ∷ ("DELETE /categorization-rules/{id}", ("categorization_rule", "delete_categorization_rule"))
    ∷ (
      "POST /categorization-rules/{id}/reapply",
      ("categorization_rule", "reapply_categorization_rule"),
    )
    ∷ ("POST /payments/{member_number}/waive", ("waiver", "create_waiver"))
    ∷ ("DELETE /payments/{member_number}/waive/{year}/{month}", ("waiver", "delete_waiver"))
    ∷ ("POST /budgets", ("budget", "create_budget"))
    ∷ ("PATCH /budgets/{year}", ("budget", "update_budget"))
    ∷ ("DELETE /budgets/{year}", ("budget", "delete_budget"))
    ∷ ("POST /budgets/{year}/lines", ("budget", "create_budget_line"))
    ∷ ("PUT /budgets/{year}/lines/{id}", ("budget", "update_budget_line"))
    ∷ ("DELETE /budgets/{year}/lines/{id}", ("budget", "delete_budget_line"))
    ∷ ("PUT /budgets/{year}/auditor-report", ("budget", "upload_auditor_report"))
    ∷ []

-- A route that is not in the table has the category other, and its pattern as the action.
abbrev pub or_other : String → Option (String × (String × String)) → String × String
or_other route none = ("other", route)
or_other route (some r) = r.1

abbrev pub audit_action : String → String × String
audit_action route = or_other route (first_row (λ r. str_eq r.0 route) audit_routes)

-- statusRecorder: the status of the first call; 0 before it.
abbrev pub record_status : ℕ → Write → ℕ
record_status (suc n) w = suc n
record_status zero (write_header n) = n
record_status zero write_body = 200

unfoldable pub recorded : ℕ → List Write → ℕ
recorded status [] = status
recorded status (w ∷ ws) = recorded (record_status status w) ws

-- `if status == 0 { status = http.StatusOK }`
abbrev pub or_ok : ℕ → ℕ
or_ok zero = 200
or_ok (suc n) = suc n

abbrev pub is_mutating : String → Bool
is_mutating method =
    str_eq method "POST" || str_eq method "PUT" || str_eq method "PATCH" || str_eq method "DELETE"

-- nonEmpty
abbrev pub non_empty : String → Option String
non_empty s = if str_eq s "" then none else some s

abbrev pub audit_params : Claims → String → String → String → ℕ → CreateAuditLogParams
audit_params claims method route path status = record {
  actor_sub = claims.subject;
  actor_email = non_empty claims.email;
  category = (audit_action route).0;
  action = (audit_action route).1;
  method = method;
  route = route;
  path = path;
  status_code = status;
}

-- An error of the statement is only logged.
abbrev pub record_audit : Option Claims → String → String → String → ℕ → Session → Session
record_audit none method route path status s = s
record_audit (some claims) method route path status s =
    (create_audit_log (audit_params claims method route path status) s).1

-- A route of the mux: what withClaims reports, the calls on the ResponseWriter, the session after.
abbrev pub Route : Type 0
Route = Session → Option Claims × (List Write × Session)

-- `route` is the pattern of the route that the mux has matched.
unfoldable pub audit_log : String → String → String → Route → Handling
audit_log method route path next s =
    let (caller, (writes, s')) = next s in
    if is_mutating method
    then (writes, record_audit caller method route path (or_ok (recorded 0 writes)) s')
    else (writes, s')

-- writeError, which is writeJSON
abbrev pub write_error : ℕ → List Write
write_error status = write_header status ∷ write_body ∷ []

abbrev pub reported : Claims → List Write × Session → Option Claims × (List Write × Session)
reported claims r = (some claims, r)

-- A handler behind RequireRole: only the claims of a caller who passes are reported.
abbrev pub answer_guarded : Guarded (Claims × Handling) → Route
answer_guarded unauthorized s = (none, (write_error 401, s))
answer_guarded forbidden s = (none, (write_error 403, s))
answer_guarded (passed (claims, handle)) s = reported claims (handle s)

module _ (verify : Token → Option Claims) (client role : String)
    (handle : Claims → Token → Handling) where
  abbrev pub guard : String → Guarded (Claims × Handling)
  guard header =
      require_role verify client (λ claims token. (claims, handle claims token)) role header

  unfoldable pub role_route : String → Route
  role_route header = answer_guarded (guard header)
