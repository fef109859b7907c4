-- ===== src/Handler/Audit/Recorded.antt =====
-- Which requests are recorded, and with which status (internal/handler/audit.go).
use bank_system_public.Base.{
  ℕ, zero, suc, ◌≤◌, String, ◌≡◌, refl, Bool, true, false, Option, none, some, List, [], ◌∷◌, All,
  Bool-cases, if◌then◌else◌, inl, inr, arith, ap, sym, ◌∙◌, ◌++◌, ◌⊎◌, ◌≢◌, any_row, first_row,
  str_eq, eq_iff,
}
use mathlib.Core.Path.{subst}
use bank_system_public.Store.{
  Session, Db, AuditLog, audit_log_row, ok, next_fails, later, attempt, CreateAuditLogParams,
  add_audit_log, create_audit_log,
}
use bank_system_public.Auth.{
  Claims, Token, Guarded, unauthorized, forbidden, passed, has_role, bearer_token, after_verify,
  with_token, require_role,
}
use bank_system_public.Handler.Audit.{
  Write, write_header, write_body, Handling, recorded, or_ok, is_mutating, audit_params,
  audit_routes, audit_action, or_other, non_empty, record_audit, audit_log, answer_guarded, guard,
  role_route,
}

-- A final status: net/http sends one of the 1xx as information and goes on waiting for the final one.
unfoldable pub IsFinal : Write → Type 0
IsFinal (write_header n) = (200 ≤ n) × (n ≤ 999)
IsFinal write_body = Unit

-- The status that the caller gets for calls with final statuses: net/http sends the first one, and 200
-- when a body or the end comes before any.
abbrev pub answered : List Write → ℕ
answered [] = 200
answered (write_header n ∷ ws) = n
answered (write_body ∷ ws) = 200

recorded-kept : (n : ℕ) (ws : List Write) → recorded (suc n) ws ≡ suc n
unfolding recorded
recorded-kept n [] = refl
recorded-kept n (w ∷ ws) = recorded-kept n ws

recorded-answered : (ws : List Write) → All IsFinal ws → or_ok (recorded 0 ws) ≡ answered ws
unfolding recorded IsFinal
recorded-answered [] valid = refl
recorded-answered (write_body ∷ ws) valid = ap or_ok (recorded-kept 199 ws)
recorded-answered (write_header zero ∷ ws) (status, valid) = ground (arith, status)
recorded-answered (write_header (suc n) ∷ ws) valid = ap or_ok (recorded-kept n ws)

-- The category and the action of a route: those of its line in the table, or other and its pattern if
-- it has none.
unfoldable pub IsClassified : String → String → String → Type 0
IsClassified route category action =
    ((before : List (String × (String × String))) × (after : List (String × (String × String)))
      × (audit_routes ≡ before ++ (route, (category, action)) ∷ after))
    ⊎ ((any_row (λ r. str_eq r.0 route) audit_routes ≡ false)
        × (category ≡ "other")
        × (action ≡ route))

-- The entry of a request: who has sent it, what it is, and which status the caller got.
pub record IsEntry (claims : Claims) (verb pattern url : String) (status : ℕ) (entry : AuditLog)
    : Type 0 where
  pub actor_sub : entry.actor_sub ≡ claims.subject
  pub actor_email :
      ((claims.email ≡ "") × (entry.actor_email ≡ none))
      ⊎ ((claims.email ≢ "") × (entry.actor_email ≡ some claims.email))
  pub classified : IsClassified pattern entry.category entry.action
  pub method : entry.method ≡ verb
  pub route : entry.route ≡ pattern
  pub path : entry.path ≡ url
  pub status_code : entry.status_code ≡ status

-- The tables after the insert, by whether the method is one that is recorded and whether the
-- insert fails.
unfoldable pub Logged : Bool → Bool → (AuditLog → Type 0) → Db → Db → Type 0
Logged true false P db db' =
    (entry : AuditLog) × P entry
    × (db' ≡ record db { audit_logs = db.audit_logs ++ entry ∷ []; next_id = suc db.next_id })
Logged true true P db db' = db' ≡ db
Logged false fails P db db' = db' ≡ db

-- The first row that a test picks stands in the list.
found_row :
    {A : Type 0} (p : A → Bool) (xs : List A) (x : A)
    → first_row p xs ≡ some x
    → (p x ≡ true) × ((before : List A) × (after : List A) × (xs ≡ before ++ x ∷ after))
found_row p [] x h = ground arith
found_row p (y ∷ ys) x h = elim (Bool-cases (p y)) [
  | inl e ↦
      let same : y ≡ x = ground arith in
      (subst (λ z. p z ≡ true) same e, ([], ys, ap (λ z. z ∷ ys) same))
  | inr e ↦
      let (picked, (before, after, split)) = found_row p ys x (ground arith) in
      (picked, (y ∷ before, after, ap (λ zs. y ∷ zs) split))
]

no_row : {A : Type 0} (p : A → Bool) (xs : List A) → first_row p xs ≡ none → any_row p xs ≡ false
no_row p [] h = refl
no_row p (y ∷ ys) h = ground (arith, no_row p ys)

audit_action-IsClassified :
    (route : String) → IsClassified route (audit_action route).0 (audit_action route).1
unfolding IsClassified
audit_action-IsClassified route = by_row (first_row (λ r. str_eq r.0 route) audit_routes) refl
  where
    by_row :
        (o : Option (String × (String × String)))
        → o ≡ first_row (λ r. str_eq r.0 route) audit_routes
        → IsClassified route (or_other route o).0 (or_other route o).1
    by_row none e = inr (no_row (λ r. str_eq r.0 route) audit_routes (sym e), refl, refl)
    by_row (some r) e =
        let (picked, (before, after, split)) =
          found_row (λ r. str_eq r.0 route) audit_routes r (sym e) in
        inl (
          before,
          after,
          split ∙ ap (λ name. before ++ (name, r.1) ∷ after) ((eq_iff r.0 route).0 picked),
        )

non_empty-cases :
    (email : String)
    → ((email ≡ "") × (non_empty email ≡ none)) ⊎ ((email ≢ "") × (non_empty email ≡ some email))
non_empty-cases email = elim (Bool-cases (str_eq email "")) [
  | inl e ↦ inl ((eq_iff email "").0 e, rw e refl)
  | inr e ↦ inr ((λ same. let clash = (eq_iff email "").1 same in ground arith), rw e refl)
]

record_audit-Logged :
    (claims : Claims) (method route path : String) (status : ℕ) (s : Session)
    → Logged true
        (next_fails s.faults)
        (IsEntry claims method route path status)
        s.db
        (record_audit (some claims) method route path status s).db
unfolding Logged create_audit_log
record_audit-Logged claims method route path status s = after_insert (next_fails s.faults)
  where
    p : CreateAuditLogParams
    p = audit_params claims method route path status

    after_insert :
        (fails : Bool)
        → Logged true fails
            (IsEntry claims method route path status)
            s.db
            (attempt fails
              (λ db. ok (tt, add_audit_log p db))
              (record s { faults = later s.faults })).1.db
    after_insert true = refl
    after_insert false = (
      audit_log_row p s.db,
      record {
        actor_sub = refl;
        actor_email = non_empty-cases claims.email;
        classified = audit_action-IsClassified route;
        method = refl;
        route = refl;
        path = refl;
        status_code = refl;
      },
      refl,
    )

-- How a request ends, by what RequireRole decides on it.
unfoldable pub AuditEnds :
    String → String → String → Session → Guarded (Claims × Handling) → List Write × Session → Type 0
AuditEnds method route path s unauthorized out = (answered out.0 ≡ 401) × (out.1 ≡ s)
AuditEnds method route path s forbidden out = (answered out.0 ≡ 403) × (out.1 ≡ s)
AuditEnds method route path s (passed (claims, handle)) out =
    (out.0 ≡ (handle s).0)
    × Logged (is_mutating method) (next_fails (handle s).1.faults)
        (IsEntry claims method route path (answered out.0)) (handle s).1.db out.1.db

-- The handler of a caller who passes sends only statuses.
unfoldable pub Sends : Session → Guarded (Claims × Handling) → Type 0
unfolding IsFinal
Sends s unauthorized = Unit
Sends s forbidden = Unit
Sends s (passed (claims, handle)) = All IsFinal (handle s).0

audit_log-guarded :
    (method route path : String) (s : Session) (g : Guarded (Claims × Handling))
    → Sends s g
    → AuditEnds method route path s g (audit_log method route path (answer_guarded g) s)
unfolding audit_log AuditEnds Sends Logged recorded
audit_log-guarded method route path s unauthorized sends = elim (Bool-cases (is_mutating method)) [
  | inl e ↦ rw e (refl, refl)
  | inr e ↦ rw e (refl, refl)
]
audit_log-guarded method route path s forbidden sends = elim (Bool-cases (is_mutating method)) [
  | inl e ↦ rw e (refl, refl)
  | inr e ↦ rw e (refl, refl)
]
audit_log-guarded method route path s (passed (claims, handle)) sends =
    elim (Bool-cases (is_mutating method)) [
      | inl e ↦ rw e (
        refl,
        rw (recorded-answered (handle s).0 sends)
            (record_audit-Logged claims method route path (answered (handle s).0) (handle s).1),
      )
      | inr e ↦ rw e (refl, refl)
    ]

module _ (verify : Token → Option Claims) (client role : String)
    (handle : Claims → Token → Handling) where
  guard-Sends :
      (header : String) (s : Session)
      → ((claims : Claims) (token : Token) → All IsFinal (handle claims token s).0)
      → Sends s (guard verify client role handle header)
  unfolding require_role Sends
  guard-Sends header s valid = from_token (bearer_token header)
    where
      allowed :
          (claims : Claims) (token : Token) (b : Bool)
          → Sends s (if b then passed (claims, handle claims token) else forbidden)
      allowed claims token true = valid claims token
      allowed claims token false = tt

      verified :
          (token : Token) (c : Option Claims)
          → Sends s (
              after_verify verify client
                (λ claims token. (claims, handle claims token))
                (λ claims. has_role client claims role)
                token
                c)
      verified token none = tt
      verified token (some claims) = allowed claims token (has_role client claims role)

      from_token :
          (t : Option Token)
          → Sends s (
              with_token verify client
                (λ claims token. (claims, handle claims token))
                (λ claims. has_role client claims role)
                t)
      from_token none = tt
      from_token (some token) = verified token (verify token)

  -- A request that RequireRole refuses answers 401 or 403, changes nothing and is not recorded. For
  -- one that passes, AuditLog leaves the answer of the handler as it is; a POST, PUT, PATCH or
  -- DELETE then adds one entry to the audit log, with the caller, the route with its category and action, and the status that the
  -- caller got, unless the insert fails, and any other method adds none. No other table changes but
  -- by the handler. This is for a handler that sends final statuses only, none of the 1xx.
  pub audit_log-AuditEnds :
      (header method route path : String) (s : Session)
      → ((claims : Claims) (token : Token) → All IsFinal (handle claims token s).0)
      → AuditEnds method route path s
          (guard verify client role handle header)
          (audit_log method route path (role_route verify client role handle header) s)
  unfolding role_route
  audit_log-AuditEnds header method route path s valid =
      audit_log-guarded method route path s (guard verify client role handle header)
        (guard-Sends header s valid)
