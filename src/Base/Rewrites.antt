-- ===== src/Base/Rewrites.antt =====
-- What rewriting and deleting rows does to rows that are apart from each other, and to the rows that
-- a condition picks.
use mathlib.Core.Path.{◌≡◌, refl, ◌∙◌, ap, subst}
use mathlib.Core.Bool.{Bool, true, false}
use mathlib.Core.Option.{some}
use mathlib.Core.List.{List, [], ◌∷◌, ◌++◌, map}
use mathlib.Core.Logic.{inl, inr}
use native.Mathlib.Omega.{arith}
use bank_system_public.Base.Tests.{if◌then◌else◌, Bool-cases}
use bank_system_public.Base.Rows.{first_row, where_rows, any_row, update_rows, All}
use bank_system_public.Base.Changes.{any_row-updated, Apart}

module _ {ℓ} {A : Type ℓ} where
  -- A rewriting that `excludes` does not see.
  pub Apart-updated :
      (excludes : A → A → Bool) (q : A → Bool) (f : A → A) (xs : List A)
      → ((x y : A) → (excludes (f x) y ≡ excludes x y) × (excludes x (f y) ≡ excludes x y))
      → Apart excludes xs
      → Apart excludes (update_rows q f xs)
  Apart-updated excludes q f [] same apart = tt
  Apart-updated excludes q f (x ∷ xs) same apart =
      (one (q x), Apart-updated excludes q f xs same apart.1)
    where
      rest : any_row (excludes x) (update_rows q f xs) ≡ false
      rest = any_row-updated (excludes x) q f xs (λ y. (same x y).1) ∙ apart.0

      swapped : (ys : List A) → any_row (excludes (f x)) ys ≡ any_row (excludes x) ys
      swapped [] = refl
      swapped (y ∷ ys) = let first = (same x y).0 in ground (arith, swapped ys)

      one : (b : Bool) → any_row (excludes (if b then f x else x)) (update_rows q f xs) ≡ false
      one true = swapped (update_rows q f xs) ∙ rest
      one false = rest

  -- Of rows apart from each other, those that a test picks are the first one it picks.
  pub All-first_row :
      (excludes : A → A → Bool) (p : A → Bool) (xs : List A) (x : A)
      → ((x y : A) → p x ≡ true → p y ≡ true → excludes x y ≡ true)
      → Apart excludes xs
      → first_row p xs ≡ some x
      → All (λ y. p y ≡ true → y ≡ x) xs
  All-first_row excludes p [] x both apart h = tt
  All-first_row excludes p (z ∷ xs) x both apart h = elim (Bool-cases (p z)) [
    | inl e ↦ ((λ _. ground arith), others xs apart.0 e)
    | inr e ↦ ((λ t. ground arith), All-first_row excludes p xs x both apart.1 (ground arith))
  ]
    where
      others :
          (ys : List A)
          → any_row (excludes z) ys ≡ false
          → p z ≡ true
          → All (λ y. p y ≡ true → y ≡ x) ys
      others [] none_excluded e = tt
      others (y ∷ ys) none_excluded e =
          ((λ t. let clash = both z y e t in ground arith), others ys (ground arith) e)

  -- A test of the rows that a condition picks.
  pub All-rewritten {κ} :
      (P : A → Type κ) (q : A → Bool) (f : A → A) (xs : List A)
      → All (λ x. q x ≡ true → P x → P (f x)) xs
      → All P xs
      → All P (update_rows q f xs)
  All-rewritten P q f [] g h = tt
  All-rewritten P q f (x ∷ xs) g h = (one (q x) refl, All-rewritten P q f xs g.1 h.1)
    where
      one : (b : Bool) → q x ≡ b → P (if b then f x else x)
      one true e = g.0 e h.0
      one false e = h.0

  pub where_rows-kept :
      (p q : A → Bool) (xs : List A)
      → ((x : A) → p x ≡ true → q x ≡ true)
      → where_rows p (where_rows q xs) ≡ where_rows p xs
  where_rows-kept p q [] h = refl
  where_rows-kept p q (x ∷ xs) h = elim (Bool-cases (q x)) [
    | inl e ↦ rw e (ap (λ t. if p x then x ∷ t else t) (where_rows-kept p q xs h))
    | inr e ↦
        let dropped = h x in
        let same = where_rows-kept p q xs h in rw (e, unkept (p x) e dropped) same
  ]
    where
      unkept : (b : Bool) → q x ≡ false → (b ≡ true → q x ≡ true) → b ≡ false
      unkept true e f = ground (arith, f refl)
      unkept false e f = refl

  -- The values of the rows a condition picks, after a rewriting that keeps them.
  pub map_where-updated {κ} :
      {B : Type κ} (g : A → B) (keep q : A → Bool) (f : A → A) (xs : List A)
      → All (λ x. q x ≡ true → (keep (f x) ≡ keep x) × (keep x ≡ true → g (f x) ≡ g x)) xs
      → map g (where_rows keep (update_rows q f xs)) ≡ map g (where_rows keep xs)
  map_where-updated g keep q f [] h = refl
  map_where-updated g keep q f (x ∷ xs) h =
      let rest = map_where-updated g keep q f xs h.1 in one (q x) refl (keep x) refl rest
    where
      one :
          (b : Bool)
          → q x ≡ b
          → (c : Bool) → keep x ≡ c
          → map g (where_rows keep (update_rows q f xs)) ≡ map g (where_rows keep xs)
          → map g (where_rows keep ((if b then f x else x) ∷ update_rows q f xs))
            ≡ map g (if c then x ∷ where_rows keep xs else where_rows keep xs)
      one true e true k rest =
          rw ((h.0 e).0 ∙ k)
            (ap (λ t. g (f x) ∷ t) rest ∙ ap (λ y. y ∷ map g (where_rows keep xs)) ((h.0 e).1 k))
      one true e false k rest = rw ((h.0 e).0 ∙ k) rest
      one false e true k rest = rw k (ap (λ t. g x ∷ t) rest)
      one false e false k rest = rw k rest

  -- What holds of every row holds of the first one that a test picks.
  pub first_row-All {κ} :
      (P : A → Type κ) (p : A → Bool) (xs : List A) (x : A)
      → All P xs
      → first_row p xs ≡ some x
      → P x
  first_row-All P p [] x h e = ground arith
  first_row-All P p (y ∷ ys) x h e = elim (Bool-cases (p y)) [
    | inl t ↦ subst P (ground arith) h.0
    | inr f ↦ first_row-All P p ys x h.1 (ground arith)
  ]

  -- A rewriting of rows that a test picks neither before nor after.
  pub first_row-updated :
      (p q : A → Bool) (f : A → A) (xs : List A)
      → ((x : A) → q x ≡ true → (p x ≡ false) × (p (f x) ≡ false))
      → first_row p (update_rows q f xs) ≡ first_row p xs
  first_row-updated p q f [] h = refl
  first_row-updated p q f (x ∷ xs) h = elim (Bool-cases (q x)) [
    | inl e ↦ rw (e, (h x e).0, (h x e).1) (first_row-updated p q f xs h)
    | inr e ↦ rw e (ap (λ t. if p x then some x else t) (first_row-updated p q f xs h))
  ]

  pub first_row-other :
      (p : A → Bool) (xs : List A) (y : A)
      → p y ≡ false
      → first_row p (xs ++ y ∷ []) ≡ first_row p xs
  first_row-other p [] y h = rw h refl
  first_row-other p (x ∷ xs) y h = ap (λ t. if p x then some x else t) (first_row-other p xs y h)

  -- A rewriting of the rows that the test picks.
  pub first_row-rewritten :
      (p : A → Bool) (f : A → A) (xs : List A) (z : A)
      → ((x : A) → p x ≡ true → (p (f x) ≡ true) × (f x ≡ z))
      → any_row p xs ≡ true
      → first_row p (update_rows p f xs) ≡ some z
  first_row-rewritten p f [] z h e = ground arith
  first_row-rewritten p f (x ∷ xs) z h e = elim (Bool-cases (p x)) [
    | inl t ↦ rw (t, (h x t).0) (ap some (h x t).1)
    | inr n ↦ rw (n, n) (first_row-rewritten p f xs z h (ground arith))
  ]
