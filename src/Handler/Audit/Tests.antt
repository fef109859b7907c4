-- ===== src/Handler/Audit/Tests.antt =====
-- The theorem on the audit log, at a request to create a category.
use bank_system_public.Base.{◌≡◌, refl, Option, some, [], ◌∷◌, arith}
use bank_system_public.Store.{empty_db, calm}
use bank_system_public.Auth.{Claims, Token}
use bank_system_public.Handler.Audit.{
  Handling, write_header, write_body, audit_action, audit_log, guard, role_route,
}
use bank_system_public.Handler.Audit.Recorded.{IsFinal, AuditEnds, audit_log-AuditEnds}

abbrev editor : Claims
editor = record {
  subject = "editor";
  email = "";
  resource_access = ("bank", "manage-transactions" ∷ []) ∷ [];
}

abbrev verify : Token → Option Claims
verify token = some editor

-- A handler that answers 201 and changes nothing.
abbrev created : Claims → Token → Handling
created claims token s = (write_header 201 ∷ write_body ∷ [], s)

audit_log-AuditEnds_example :
    AuditEnds "POST" "POST /categories" "/categories"
      (calm empty_db)
      (guard verify "bank" "manage-transactions" created "Bearer abc")
      (audit_log "POST" "POST /categories" "/categories"
        (role_route verify "bank" "manage-transactions" created "Bearer abc")
        (calm empty_db))
unfolding IsFinal
audit_log-AuditEnds_example =
    audit_log-AuditEnds verify "bank" "manage-transactions" created "Bearer abc" "POST"
      "POST /categories" "/categories" (calm empty_db)
      (λ claims token. ((omega arith, omega arith), (tt, tt)))

known_action : audit_action "POST /categories" ≡ ("category", "create_category")
known_action = refl

other_action : audit_action "POST /other" ≡ ("other", "POST /other")
other_action = refl
