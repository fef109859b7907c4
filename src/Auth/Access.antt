-- ===== src/Auth/Access.antt =====
-- Who passes the authorization wrappers.
use bank_system_public.Base.{
  ℕ, String, ◌≡◌, ◌≢◌, ◌↔◌, refl, sym, ap, ◌∙◌, Bool, true, false, Option, none, some, List, [],
  ◌∷◌, ◌++◌, arith, ◌==◌, ==_iff, if◌then◌else◌, any_row, Bool-cases, inl, inr,
}
use bank_system_public.Processing.{codes}
use bank_system_public.Auth.{
  Claims, Token, forbidden, passed, has_role, cut_prefix, nonempty, bearer_token, after_verify,
  with_token, has_any_role, require_role, require_any_role,
}

-- A text that CutPrefix cuts is the prefix with the rest behind it.
cut_prefix_sound :
    (prefix text rest : List ℕ) → cut_prefix prefix text ≡ some rest → text ≡ prefix ++ rest
unfolding cut_prefix
cut_prefix_sound [] text rest h = ground arith
cut_prefix_sound (p ∷ ps) [] rest h = ground arith
cut_prefix_sound (p ∷ ps) (c ∷ cs) rest h = elim (Bool-cases (c == p)) [
  | inl e ↦
      ap (λ n. n ∷ cs) ((==_iff c p).0 e)
      ∙ ap (λ t. p ∷ t)
          (cut_prefix_sound ps cs rest (ap (λ b. if b then cut_prefix ps cs else none) (sym e) ∙ h))
  | inr e ↦ ground arith
]

cut_prefix_complete : (prefix rest : List ℕ) → cut_prefix prefix (prefix ++ rest) ≡ some rest
unfolding cut_prefix
cut_prefix_complete [] rest = refl
cut_prefix_complete (p ∷ ps) rest = ground (arith, cut_prefix_complete ps rest)

-- The header is the word Bearer, a space and a token, which is not empty.
abbrev pub Carries : String → Token → Type 0
Carries header token = (codes header ≡ codes "Bearer " ++ token) × (token ≢ [])

-- The wrapped handler is called with the claims of a token that is in the header and verified.
pub record Admits (verify : Token → Option Claims) (allowed : Claims → Bool) (header : String)
    (token : Token) (claims : Claims) : Type 0 where
  pub carries : Carries header token
  pub verified : verify token ≡ some claims
  pub is_allowed : allowed claims ≡ true

bearer_token-Carries :
    (header : String) (token : Token) → (bearer_token header ≡ some token) ↔ Carries header token
unfolding bearer_token
bearer_token-Carries header token = (
  λ h. sound (cut_prefix (codes "Bearer ") (codes header)) refl h,
  λ h.
      ap nonempty
        (ap (cut_prefix (codes "Bearer ")) h.0 ∙ cut_prefix_complete (codes "Bearer ") token)
      ∙ kept token h.1,
)
  where
    kept : (t : Token) → t ≢ [] → nonempty (some t) ≡ some t
    kept [] h = absurd (h refl)
    kept (c ∷ cs) h = refl

    sound :
        (o : Option (List ℕ))
        → cut_prefix (codes "Bearer ") (codes header) ≡ o
        → nonempty o ≡ some token
        → Carries header token
    sound none e h = ground arith
    sound (some []) e h = ground arith
    sound (some (c ∷ cs)) e h = (
      cut_prefix_sound (codes "Bearer ") (codes header) (c ∷ cs) e
          ∙ ap (λ t. codes "Bearer " ++ t) same,
      λ none_left. is_cons (same ∙ none_left),
    )
      where
        same : c ∷ cs ≡ token
        same = ground arith

        is_cons : c ∷ cs ≡ [] → ⊥
        is_cons x = ground arith

module _ (verify : Token → Option Claims) (client : String) {A : Type 0}
    (next : Claims → Token → A) where
  with_token-Admits :
      (allowed : Claims → Bool) (header : String) (a : A)
      → (with_token verify client next allowed (bearer_token header) ≡ passed a) ↔ (
          (token : Token) × (claims : Claims) × Admits verify allowed header token claims
          × (a ≡ next claims token))
  with_token-Admits allowed header a = (
    λ h. found (bearer_token header) refl h,
    λ (token, claims, admits, e).
        rw
          ((bearer_token-Carries header token).1 admits.carries, admits.verified, admits.is_allowed)
          (ap passed (sym e)),
  )
    where
      Admitted : Type 0
      Admitted =
          (token : Token) × (claims : Claims) × Admits verify allowed header token claims
          × (a ≡ next claims token)

      allows :
          (token : Token) (claims : Claims) (b : Bool)
          → bearer_token header ≡ some token
          → verify token ≡ some claims
          → allowed claims ≡ b
          → (if b then passed (next claims token) else forbidden) ≡ passed a
          → Admitted
      allows token claims true t v e h = (
        token,
        claims,
        record { carries = (bearer_token-Carries header token).0 t; verified = v; is_allowed = e },
        ground arith,
      )
      allows token claims false t v e h = ground arith

      checked :
          (token : Token) (o : Option Claims)
          → bearer_token header ≡ some token
          → verify token ≡ o
          → after_verify verify client next allowed token o ≡ passed a
          → Admitted
      checked token none t v h = ground arith
      checked token (some claims) t v h = allows token claims (allowed claims) t v refl h

      found :
          (o : Option Token)
          → bearer_token header ≡ o
          → with_token verify client next allowed o ≡ passed a
          → Admitted
      found none t h = ground arith
      found (some token) t h = checked token (verify token) t refl h

  -- RequireRole calls the wrapped handler exactly if the header is "Bearer " with a token that is not
  -- empty and verifies to claims with the role, and then with these claims and this token.
  pub require_role-Admits :
      (role header : String) (a : A)
      → (require_role verify client next role header ≡ passed a) ↔ (
          (token : Token) × (claims : Claims) × Admits verify
            (λ c. has_role client c role)
            header
            token
            claims
          × (a ≡ next claims token))
  unfolding require_role
  require_role-Admits role header a = with_token-Admits (λ c. has_role client c role) header a

  -- RequireAnyRole calls the wrapped handler exactly if the header carries a token that verifies to
  -- claims with one of the roles, and then with these claims and this token.
  pub require_any_role-Admits :
      (roles : List String) (header : String) (a : A)
      → (require_any_role verify client next roles header ≡ passed a) ↔ (
          (token : Token) × (claims : Claims) × Admits verify
            (λ c. any_row (has_role client c) roles)
            header
            token
            claims
          × (a ≡ next claims token))
  unfolding require_any_role
  require_any_role-Admits roles header a =
      with_token-Admits (has_any_role verify client next roles) header a
