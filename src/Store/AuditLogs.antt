-- ===== src/Store/AuditLogs.antt =====
-- The statement that writes audit_logs (internal/db/queries.sql.go).
use bank_system_public.Base.{ℕ, suc, String, Option, [], ◌∷◌, ◌++◌}
use bank_system_public.Store.Schema.{AuditLog, Db}
use bank_system_public.Store.Monad.{ok, Query, statement}

pub record CreateAuditLogParams : Type 0 where
  pub actor_sub : String
  pub actor_email : Option String
  pub category : String
  pub action : String
  pub method : String
  pub route : String
  pub path : String
  pub status_code : ℕ

abbrev pub audit_log_row : CreateAuditLogParams → Db → AuditLog
audit_log_row p db = record {
  id = db.next_id;
  created_at = db.now;
  actor_sub = p.actor_sub;
  actor_email = p.actor_email;
  category = p.category;
  action = p.action;
  method = p.method;
  route = p.route;
  path = p.path;
  status_code = p.status_code;
}

abbrev pub add_audit_log : CreateAuditLogParams → Db → Db
add_audit_log p db = record db {
  audit_logs = db.audit_logs ++ audit_log_row p db ∷ [];
  next_id = suc db.next_id;
}

unfoldable pub create_audit_log : CreateAuditLogParams → Query (Unit {0})
create_audit_log p = statement (λ db. ok (tt, add_audit_log p db))
