-- ===== src/Base/Rows.antt =====
-- Tables as lists of rows, oldest first: what a statement selects, deletes and rewrites.
use Prim.Native.Nat.{ℕ, suc, ◌+◌}
use mathlib.Core.Path.{◌≡◌, refl, ap}
use mathlib.Core.Bool.{Bool, true, false, not, ◌||◌}
use mathlib.Core.Option.{Option, none, some}
use mathlib.Core.List.{List, [], ◌∷◌, ◌++◌}
use mathlib.Core.Logic.{inl, inr}
use native.Mathlib.Omega.{arith}
use bank_system_public.Base.Tests.{if◌then◌else◌, Bool-cases}

module _ {ℓ} {A : Type ℓ} where
  abbrev pub length : List A → ℕ
  length [] = 0
  length (x ∷ xs) = suc (length xs)

  -- The rows that satisfy a condition, in order.
  abbrev pub where_rows : (A → Bool) → List A → List A
  where_rows p [] = []
  where_rows p (x ∷ xs) = let rest = where_rows p xs in if p x then x ∷ rest else rest

  -- The first such row, if there is one.
  abbrev pub first_row : (A → Bool) → List A → Option A
  first_row p [] = none
  first_row p (x ∷ xs) = let rest = first_row p xs in if p x then some x else rest

  abbrev pub any_row : (A → Bool) → List A → Bool
  any_row p [] = false
  any_row p (x ∷ xs) = p x || any_row p xs

  -- UPDATE ... WHERE: rewrites the rows that satisfy the condition.
  abbrev pub update_rows : (A → Bool) → (A → A) → List A → List A
  update_rows p f [] = []
  update_rows p f (x ∷ xs) = (if p x then f x else x) ∷ update_rows p f xs

  -- Every row satisfies a predicate.
  abbrev pub All {κ} : (A → Type κ) → List A → Type κ
  All P [] = Unit
  All P (x ∷ xs) = P x × All P xs

module _ {ℓ} {A : Type ℓ} where
  -- Rows before and after a statement that rewrites some: a relation at every place.
  abbrev pub Pairs : (A → A → Type 0) → List A → List A → Type 0
  Pairs R [] [] = Unit
  Pairs R (x ∷ xs) (y ∷ ys) = R x y × Pairs R xs ys
  Pairs R [] (y ∷ ys) = ⊥
  Pairs R (x ∷ xs) [] = ⊥

  pub Pairs-update_rows :
      (R : A → A → Type 0) (q : A → Bool) (f : A → A) (xs : List A)
      → ((x : A) → q x ≡ true → R x (f x))
      → ((x : A) → q x ≡ false → R x x)
      → Pairs R xs (update_rows q f xs)
  Pairs-update_rows R q f [] g h = tt
  Pairs-update_rows R q f (x ∷ xs) g h = (
    elim (Bool-cases (q x)) [ inl e ↦ rw e (g x e) | inr e ↦ rw e (h x e) ],
    Pairs-update_rows R q f xs g h,
  )

  pub length-append : (xs ys : List A) → length (xs ++ ys) ≡ length xs + length ys
  length-append [] ys = omega arith
  length-append (x ∷ xs) ys = omega (arith, length-append xs ys)

  pub any_row-append :
      (p : A → Bool) (xs ys : List A) → any_row p (xs ++ ys) ≡ (any_row p xs || any_row p ys)
  any_row-append p [] ys = refl
  any_row-append p (x ∷ xs) ys = ground (arith, any_row-append p xs ys)

  pub where_rows-append :
      (p : A → Bool) (xs ys : List A) → where_rows p (xs ++ ys) ≡ where_rows p xs ++ where_rows p ys
  where_rows-append p [] ys = refl
  where_rows-append p (x ∷ xs) ys = elim (Bool-cases (p x)) [
    | inl e ↦ rw e (ap (λ t. x ∷ t) (where_rows-append p xs ys))
    | inr e ↦ rw e (where_rows-append p xs ys)
  ]

  pub where_rows-none : (p : A → Bool) (xs : List A) → any_row p xs ≡ false → where_rows p xs ≡ []
  where_rows-none p [] h = refl
  where_rows-none p (x ∷ xs) h = ground (arith, where_rows-none p xs)

module _ {ℓ} {A : Type ℓ} where
  -- What a deletion leaves.
  pub any_row-deleted :
      (p : A → Bool) (rows : List A) → any_row p (where_rows (λ x. not (p x)) rows) ≡ false
  any_row-deleted p [] = refl
  any_row-deleted p (x ∷ xs) = ground (arith, any_row-deleted p xs)

  pub where_rows_idem :
      (p : A → Bool) (rows : List A) → where_rows p (where_rows p rows) ≡ where_rows p rows
  where_rows_idem p [] = refl
  where_rows_idem p (x ∷ xs) = elim (Bool-cases (p x)) [
    | inl e ↦ rw (e, e) (ap (λ t. x ∷ t) (where_rows_idem p xs))
    | inr e ↦ rw e (where_rows_idem p xs)
  ]

  pub nothing_deleted :
      (p : A → Bool) (rows : List A)
      → any_row p rows ≡ false
      → where_rows (λ x. not (p x)) rows ≡ rows
  nothing_deleted p [] h = refl
  nothing_deleted p (x ∷ xs) h = elim (Bool-cases (p x)) [
    | inl e ↦ ground arith
    | inr e ↦ rw e (ap (λ t. x ∷ t) (nothing_deleted p xs (ground arith)))
  ]

  pub first_row-append :
      (p : A → Bool) (x : A) (rows : List A)
      → p x ≡ true
      → any_row p rows ≡ false
      → first_row p (rows ++ x ∷ []) ≡ some x
  first_row-append p x [] h n = ground arith
  first_row-append p x (y ∷ ys) h n = ground (arith, first_row-append p x ys)

module _ {ℓ κ} {A : Type ℓ} (P : A → Type κ) where
  pub All-append : (xs ys : List A) → All P xs → All P ys → All P (xs ++ ys)
  All-append [] ys hx hy = hy
  All-append (x ∷ xs) ys hx hy = (hx.0, All-append xs ys hx.1 hy)

  pub All-map : (Q : A → Type κ) → ((x : A) → P x → Q x) → (xs : List A) → All P xs → All Q xs
  All-map Q f [] h = tt
  All-map Q f (x ∷ xs) h = (f x h.0, All-map Q f xs h.1)
