-- ===== src/Auth.antt =====
-- internal/handler/auth.go and the role check of internal/keycloak/keycloak.go: who may call a
-- handler. Verifying a token's signature, issuer, audience and expiry (golang-jwt, with the keys of
-- Keycloak) is a parameter. A text is read as its code points.
pub mod Access
mod Tests
use bank_system_public.Base.{
  ℕ, String, Bool, true, false, ◌||◌, Option, none, some, List, [], ◌∷◌, str_eq, ◌==◌,
  if◌then◌else◌, any_row,
}
use bank_system_public.Processing.{codes}

-- resource_access: the roles by client; a JSON object has a client once.
pub record Claims : Type 0 where
  pub subject : String
  pub email : String
  pub resource_access : List (String × List String)

abbrev pub Token : Type 0
Token = List ℕ

-- How a wrapper answers a request: 401, 403, or what the wrapped handler does with the claims.
pub data Guarded (A : Type 0) : Type 0 where
  unauthorized forbidden : Guarded A
  passed : A → Guarded A

unfoldable pub roles_of : String → List (String × List String) → Option (List String)
roles_of client [] = none
roles_of client ((name, roles) ∷ rest) =
    let found = roles_of client rest in if str_eq name client then some roles else found

abbrev pub lists_role : String → Option (List String) → Bool
lists_role role none = false
lists_role role (some roles) = any_row (λ r. str_eq r role) roles

-- Claims.HasRole, and Provider.HasRole with the provider's client
unfoldable pub has_role : String → Claims → String → Bool
has_role client claims role = lists_role role (roles_of client claims.resource_access)

-- strings.CutPrefix
unfoldable pub cut_prefix : List ℕ → List ℕ → Option (List ℕ)
cut_prefix [] text = some text
cut_prefix (p ∷ ps) [] = none
cut_prefix (p ∷ ps) (c ∷ cs) = let rest = cut_prefix ps cs in if c == p then rest else none

-- `if !ok || token == ""`
abbrev pub nonempty : Option Token → Option Token
nonempty none = none
nonempty (some []) = none
nonempty (some (c ∷ cs)) = some (c ∷ cs)

unfoldable pub bearer_token : String → Option Token
bearer_token header = nonempty (cut_prefix (codes "Bearer ") (codes header))

module _ (verify : Token → Option Claims) (client : String) {A : Type 0}
    (next : Claims → Token → A) where
  abbrev pub after_verify : (Claims → Bool) → Token → Option Claims → Guarded A
  after_verify allowed token none = forbidden
  after_verify allowed token (some claims) =
      if allowed claims then passed (next claims token) else forbidden

  abbrev pub with_token : (Claims → Bool) → Option Token → Guarded A
  with_token allowed none = unauthorized
  with_token allowed (some token) = after_verify allowed token (verify token)

  -- RequireRole, with Provider.Authorize
  unfoldable pub require_role : String → String → Guarded A
  require_role role header =
      with_token (λ claims. has_role client claims role) (bearer_token header)

  abbrev pub has_any_role : List String → Claims → Bool
  has_any_role roles claims = any_row (has_role client claims) roles

  -- RequireAnyRole
  unfoldable pub require_any_role : List String → String → Guarded A
  require_any_role roles header = with_token (has_any_role roles) (bearer_token header)

  -- RequireAuth
  unfoldable pub require_auth : String → Guarded A
  require_auth header = with_token (λ claims. true) (bearer_token header)
