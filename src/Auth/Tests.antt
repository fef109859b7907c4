-- ===== src/Auth/Tests.antt =====
-- The theorems on the wrappers, with a concrete verification.
use bank_system_public.Base.{◌≡◌, refl, ◌↔◌, Option, some, [], ◌∷◌, any_row}
use bank_system_public.Auth.{
  Claims, Token, passed, has_role, roles_of, bearer_token, cut_prefix, require_role,
  require_any_role,
}
use bank_system_public.Auth.Access.{Admits, require_role-Admits, require_any_role-Admits}

abbrev treasurer : Claims
treasurer = record {
  subject = "treasurer";
  email = "t@example.org";
  resource_access = ("other", "manage-rules" ∷ []) ∷ ("bank", "list-transactions" ∷ []) ∷ [];
}

-- Every token is one of the treasurer's.
abbrev verify : Token → Option Claims
verify token = some treasurer

abbrev own_token : Claims → Token → Token
own_token claims token = token

require_role-Admits_example :
    (require_role verify "bank" own_token "list-transactions" "Bearer abc"
      ≡ passed (97 ∷ 98 ∷ 99 ∷ []))
    ↔ ((token : Token) × (claims : Claims) × Admits verify
          (λ c. has_role "bank" c "list-transactions")
          "Bearer abc"
          token
          claims
        × (97 ∷ 98 ∷ 99 ∷ [] ≡ own_token claims token))
require_role-Admits_example =
    require_role-Admits verify "bank" own_token "list-transactions" "Bearer abc" (97 ∷ 98 ∷ 99 ∷ [])

require_role-Admits_run :
    require_role verify "bank" own_token "list-transactions" "Bearer abc"
    ≡ passed (97 ∷ 98 ∷ 99 ∷ [])
unfolding require_role bearer_token cut_prefix has_role roles_of
require_role-Admits_run = refl

require_any_role-Admits_example :
    (require_any_role verify "bank" own_token ("manage-rules" ∷ []) "Bearer abc"
      ≡ passed (97 ∷ 98 ∷ 99 ∷ []))
    ↔ ((token : Token) × (claims : Claims) × Admits verify
          (λ c. any_row (has_role "bank" c) ("manage-rules" ∷ []))
          "Bearer abc"
          token
          claims
        × (97 ∷ 98 ∷ 99 ∷ [] ≡ own_token claims token))
require_any_role-Admits_example =
    require_any_role-Admits verify "bank" own_token ("manage-rules" ∷ []) "Bearer abc"
      (97 ∷ 98 ∷ 99 ∷ [])
