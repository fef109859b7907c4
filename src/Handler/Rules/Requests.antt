-- ===== src/Handler/Rules/Requests.antt =====
-- The requests on rules (internal/handler/rules.go), and what each sequence of them keeps.
use bank_system_public.Base.{ℕ, String, ◌≡◌, refl, Option, List, [], ◌∷◌}
use bank_system_public.Base.Int.{ℤ}
use bank_system_public.Store.{Session}
use bank_system_public.Store.Leads
use bank_system_public.Store.Leads.{Leads}
use bank_system_public.Handler.Rules.{
  CategorizationRuleRequest, handle_create_rule, handle_update_rule, handle_delete_rule,
}
use bank_system_public.Handler.Rules.Steady.{
  Steady, handle_create_rule-Steady, handle_update_rule-Steady, handle_delete_rule-Steady,
}
use bank_system_public.Handler.Rules.Sound.{RulesSound, builtin_rules}

-- A request that writes rules, with what was read of it.
pub data RuleCall : Type 0 where
  create_rule : Option CategorizationRuleRequest → RuleCall
  update_rule : Option ℤ → Option CategorizationRuleRequest → RuleCall
  delete_rule : Option ℤ → RuleCall

module _ (trim : String → String) where
  -- The session after a request has been served.
  unfoldable pub serve_rule : RuleCall → Session → Session
  serve_rule (create_rule body) s = (handle_create_rule trim body s).1
  serve_rule (update_rule path body) s = (handle_update_rule trim path body s).1
  serve_rule (delete_rule path) s = (handle_delete_rule path s).1

  unfoldable pub serve_rules : List RuleCall → Session → Session
  unfolding serve_rule
  serve_rules [] s = s
  serve_rules (call ∷ calls) s = serve_rules calls (serve_rule call s)

  serve_rule-Steady :
      (builtins : List (ℕ × String × ℕ)) (call : RuleCall) (s : Session)
      → Steady builtins s.db
      → Steady builtins (serve_rule call s).db
  unfolding serve_rule
  serve_rule-Steady builtins (create_rule body) s p =
      Leads.after _ _ s (handle_create_rule-Steady builtins trim body) p
  serve_rule-Steady builtins (update_rule path body) s p =
      Leads.after _ _ s (handle_update_rule-Steady builtins trim path body) p
  serve_rule-Steady builtins (delete_rule path) s p =
      Leads.after _ _ s (handle_delete_rule-Steady builtins path) p

  serve_rules-Steady :
      (builtins : List (ℕ × String × ℕ)) (calls : List RuleCall) (s : Session)
      → Steady builtins s.db
      → Steady builtins (serve_rules calls s).db
  unfolding serve_rules
  serve_rules-Steady builtins [] s p = p
  serve_rules-Steady builtins (call ∷ calls) s p =
      serve_rules-Steady builtins calls (serve_rule call s) (serve_rule-Steady builtins call s p)

  -- Whatever requests create, update and delete rules, and whatever statements fail meanwhile: if
  -- every pattern rule has a condition, no built-in rule has a condition or a direction, directions
  -- and categories exist, and ids are distinct and below the next one, then all of this holds
  -- afterwards.
  pub serve_rules-RulesSound :
      (calls : List RuleCall) (s : Session) → RulesSound s.db → RulesSound (serve_rules calls s).db
  serve_rules-RulesSound calls s sound =
      (serve_rules-Steady (builtin_rules s.db) calls s (sound, refl)).0

  -- No sequence of requests that create, update and delete rules, from sound rules on and with
  -- whatever failing statements, removes a built-in rule, adds one, or changes the kind or the
  -- category of one.
  pub builtin_rules-serve_rules :
      (calls : List RuleCall) (s : Session)
      → RulesSound s.db
      → builtin_rules (serve_rules calls s).db ≡ builtin_rules s.db
  builtin_rules-serve_rules calls s sound =
      (serve_rules-Steady (builtin_rules s.db) calls s (sound, refl)).1
