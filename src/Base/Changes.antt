-- ===== src/Base/Changes.antt =====
-- What appending, rewriting and deleting rows does to conditions on the rows.
use mathlib.Core.Path.{◌≡◌, refl}
use mathlib.Core.Bool.{Bool, true, false}
use mathlib.Core.Option.{some}
use mathlib.Core.List.{List, [], ◌∷◌, ◌++◌}
use mathlib.Core.Logic.{inl, inr}
use native.Mathlib.Omega.{arith}
use bank_system_public.Base.Tests.{if◌then◌else◌, Bool-cases}
use bank_system_public.Base.Rows.{
  first_row, where_rows, any_row, update_rows, All, All-map, any_row-append,
}

module _ {ℓ} {A : Type ℓ} where
  pub any_row-more :
      (p : A → Bool) (xs ys : List A) → any_row p xs ≡ true → any_row p (xs ++ ys) ≡ true
  any_row-more p xs ys h = ground (arith, any_row-append p xs ys)

  pub any_row-last :
      (p : A → Bool) (xs : List A) (y : A) → p y ≡ true → any_row p (xs ++ y ∷ []) ≡ true
  any_row-last p xs y h = ground (arith, any_row-append p xs (y ∷ []))

  pub any_row-first :
      (p : A → Bool) (xs : List A) (x : A) → first_row p xs ≡ some x → any_row p xs ≡ true
  any_row-first p [] x h = ground arith
  any_row-first p (y ∷ ys) x h = ground (arith, any_row-first p ys x)

  pub first_row-holds : (p : A → Bool) (xs : List A) (x : A) → first_row p xs ≡ some x → p x ≡ true
  first_row-holds p [] x h = ground arith
  first_row-holds p (y ∷ ys) x h = ground (arith, first_row-holds p ys x)

  -- Every row is among the rows.
  pub All-any_row :
      (same : A → A → Bool) (xs : List A)
      → ((x : A) → same x x ≡ true)
      → All (λ x. any_row (same x) xs ≡ true) xs
  All-any_row same [] h = tt
  All-any_row same (x ∷ xs) h = (
    let own = h x in ground arith,
    All-map _ _ (λ y e. ground (arith, e)) xs (All-any_row same xs h),
  )

  -- A rewriting that the condition does not see.
  pub any_row-updated :
      (p q : A → Bool) (f : A → A) (xs : List A)
      → ((x : A) → p (f x) ≡ p x)
      → any_row p (update_rows q f xs) ≡ any_row p xs
  any_row-updated p q f [] h = refl
  any_row-updated p q f (x ∷ xs) h =
      let rest = any_row-updated p q f xs h in let same = h x in ground arith

  -- A deletion of other rows.
  pub any_row-kept :
      (p q : A → Bool) (xs : List A)
      → ((x : A) → p x ≡ true → q x ≡ true)
      → any_row p (where_rows q xs) ≡ any_row p xs
  any_row-kept p q [] h = refl
  any_row-kept p q (x ∷ xs) h = elim (Bool-cases (p x)) [
    | inl e ↦ let kept = h x e in ground (arith, any_row-kept p q xs h)
    | inr e ↦ ground (arith, any_row-kept p q xs h)
  ]

  -- The rows left by a deletion satisfy what follows from the old condition and their being left.
  pub All-kept {κ κ'} :
      (P : A → Type κ) (Q : A → Type κ') (q : A → Bool) (xs : List A)
      → ((x : A) → q x ≡ true → P x → Q x)
      → All P xs
      → All Q (where_rows q xs)
  All-kept P Q q [] f h = tt
  All-kept P Q q (x ∷ xs) f h = elim (Bool-cases (q x)) [
    | inl e ↦ rw e (f x e h.0, All-kept P Q q xs f h.1)
    | inr e ↦ rw e (All-kept P Q q xs f h.1)
  ]

  pub All-updated {κ} :
      (P : A → Type κ) (q : A → Bool) (f : A → A) (xs : List A)
      → ((x : A) → P x → P (f x))
      → All P xs
      → All P (update_rows q f xs)
  All-updated P q f [] g h = tt
  All-updated P q f (x ∷ xs) g h = (one (q x), All-updated P q f xs g h.1)
    where
      one : (b : Bool) → P (if b then f x else x)
      one true = g x h.0
      one false = h.0

  -- No two rows exclude each other.
  abbrev pub Apart : (A → A → Bool) → List A → Type 0
  Apart excludes [] = Unit
  Apart excludes (x ∷ xs) = (any_row (excludes x) xs ≡ false) × Apart excludes xs

  pub Apart-append :
      (excludes : A → A → Bool) (xs : List A) (y : A)
      → ((x : A) → excludes x y ≡ excludes y x)
      → any_row (excludes y) xs ≡ false
      → Apart excludes xs
      → Apart excludes (xs ++ y ∷ [])
  Apart-append excludes [] y swap h apart = (refl, tt)
  Apart-append excludes (x ∷ xs) y swap h apart =
      let same = swap x in
      let split = any_row-append (excludes x) xs (y ∷ []) in
      let first = apart.0 in (ground arith, Apart-append excludes xs y swap (ground arith) apart.1)

  any_row-fewer :
      (p q : A → Bool) (xs : List A) → any_row p xs ≡ false → any_row p (where_rows q xs) ≡ false
  any_row-fewer p q [] h = refl
  any_row-fewer p q (x ∷ xs) h = ground (arith, any_row-fewer p q xs)

  pub Apart-kept :
      (excludes : A → A → Bool) (q : A → Bool) (xs : List A)
      → Apart excludes xs
      → Apart excludes (where_rows q xs)
  Apart-kept excludes q [] apart = tt
  Apart-kept excludes q (x ∷ xs) apart = elim (Bool-cases (q x)) [
    | inl e ↦ rw e (any_row-fewer (excludes x) q xs apart.0, Apart-kept excludes q xs apart.1)
    | inr e ↦ rw e (Apart-kept excludes q xs apart.1)
  ]
