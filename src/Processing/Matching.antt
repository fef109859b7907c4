-- ===== src/Processing/Matching.antt =====
-- What it means that a pattern rule matches a transaction, and that matchesPattern decides it.
use bank_system_public.Base.{
  ℕ, String, ◌≡◌, refl, ap, ◌↔◌, ◌⊎◌, inl, inr, Bool, true, false, ◌&&◌, ◌||◌, Option, none, some,
  List, [], ◌∷◌, ◌++◌, arith, str_eq, eq_iff, Bool-cases,
}
use bank_system_public.Store.{CategorizationRule, RawTransaction}
use bank_system_public.Processing.{
  normalize_variable_symbol, has_prefix, contains, equal_field, to_lower, contains_fold, condition,
  same_symbol, matches_pattern,
}

-- `ys` stands somewhere in `xs`.
pub record Occurs (ys xs : List ℕ) : Type 0 where
  pub front : List ℕ
  pub back : List ℕ
  pub whole : xs ≡ front ++ (ys ++ back)

has_prefix_sound : (xs ys : List ℕ) → has_prefix xs ys ≡ true → (zs : List ℕ) × (xs ≡ ys ++ zs)
unfolding has_prefix
has_prefix_sound xs [] h = (xs, refl)
has_prefix_sound [] (y ∷ ys) h = absurd (ground arith)
has_prefix_sound (x ∷ xs) (y ∷ ys) h =
    let (zs, e) = has_prefix_sound xs ys (ground arith) in (zs, ground arith)

has_prefix_complete : (ys zs : List ℕ) → has_prefix (ys ++ zs) ys ≡ true
unfolding has_prefix
has_prefix_complete [] [] = refl
has_prefix_complete [] (z ∷ zs) = refl
has_prefix_complete (y ∷ ys) zs = ground (arith, has_prefix_complete ys zs)

contains_sound : (xs ys : List ℕ) → contains xs ys ≡ true → Occurs ys xs
unfolding contains
contains_sound [] ys h =
    let (zs, e) = has_prefix_sound [] ys h in record { front = []; back = zs; whole = e }
contains_sound (x ∷ xs) ys h = elim (Bool-cases (has_prefix (x ∷ xs) ys)) [
  | inl here ↦
      let (zs, e) = has_prefix_sound (x ∷ xs) ys here in record { front = []; back = zs; whole = e }
  | inr later ↦
      let o = contains_sound xs ys (ground arith) in
      record { front = x ∷ o.front; back = o.back; whole = ap (λ t. x ∷ t) o.whole }
]

contains_complete : (front ys back : List ℕ) → contains (front ++ (ys ++ back)) ys ≡ true
unfolding contains
contains_complete [] [] [] = has_prefix_complete [] []
contains_complete [] [] (b ∷ back) = ground (arith, has_prefix_complete [] (b ∷ back))
contains_complete [] (y ∷ ys) back = ground (arith, has_prefix_complete (y ∷ ys) back)
contains_complete (x ∷ front) ys back = ground (arith, contains_complete front ys back)

-- The search finds a text exactly if it occurs.
contains_iff : (xs ys : List ℕ) → (contains xs ys ≡ true) ↔ Occurs ys xs
contains_iff xs ys = (contains_sound xs ys, λ o. rw o.whole (contains_complete o.front ys o.back))

-- A nullable field that holds a text with the given piece, both in lower case.
abbrev pub Mentions : (ℕ → ℕ) → Option String → String → Type 0
Mentions lower field piece =
    (text : String) × (field ≡ some text) × Occurs (to_lower lower piece) (to_lower lower text)

contains_fold_iff :
    (lower : ℕ → ℕ) (field : Option String) (piece : String)
    → (contains_fold lower field piece ≡ true) ↔ Mentions lower field piece
unfolding contains_fold
contains_fold_iff lower none piece = (λ h. absurd (ground arith), λ m. absurd (ground arith))
contains_fold_iff lower (some text) piece = (
  λ h. (text, refl, (contains_iff (to_lower lower text) (to_lower lower piece)).0 h),
  λ m.
      (contains_iff (to_lower lower text) (to_lower lower piece)).1
        (let e : text ≡ m.0 = cc m.1 in rw e m.2),
)

-- A condition of a rule: unset, or it holds of the value that is set.
abbrev pub Holds : Option String → (String → Type 0) → Type 0
Holds none P = Unit
Holds (some value) P = P value

condition_iff :
    (o : Option String) (test : String → Bool) (P : String → Type 0)
    → ((v : String) → (test v ≡ true) ↔ P v)
    → (condition o test ≡ true) ↔ Holds o P
condition_iff none test P h = (λ _. tt, λ _. refl)
condition_iff (some v) test P h = h v

equal_field_iff :
    (field : Option String) (v : String) → (equal_field field v ≡ true) ↔ (field ≡ some v)
unfolding equal_field
equal_field_iff none v = ground arith
equal_field_iff (some text) v = ground (arith, eq_iff text v)

abbrev pub SameSymbol : Option String → String → Type 0
SameSymbol field v =
    (symbol : String) × (field ≡ some symbol)
    × (normalize_variable_symbol symbol ≡ normalize_variable_symbol v)

same_symbol_iff :
    (field : Option String) (v : String) → (same_symbol field v ≡ true) ↔ SameSymbol field v
same_symbol_iff none v = (λ h. absurd (ground arith), λ m. absurd (ground arith))
same_symbol_iff (some s) v = (
  λ h. (s, refl, (eq_iff (normalize_variable_symbol s) (normalize_variable_symbol v)).0 h),
  λ m.
      (eq_iff (normalize_variable_symbol s) (normalize_variable_symbol v)).1
        (let e : s ≡ m.0 = cc m.1 in rw e m.2),
)

-- Every condition that a pattern rule sets holds of the transaction.
pub record PatternHolds (lower : ℕ → ℕ) (rule : CategorizationRule) (rt : RawTransaction)
    (direction : String) : Type 0 where
  pub direction_is : Holds rule.direction (λ d. d ≡ direction)
  pub account_is : Holds rule.counter_account_number (λ v. rt.counter_account_number ≡ some v)
  pub symbol_is : Holds rule.variable_symbol (SameSymbol rt.variable_symbol)
  pub constant_is : Holds rule.constant_symbol (λ v. rt.constant_symbol ≡ some v)
  pub text_in : Holds rule.text_contains (λ v.
      Mentions lower rt.comment v
      ⊎ Mentions lower rt.user_identification v
      ⊎ Mentions lower rt.message_for_recipient v)
  pub type_in : Holds rule.transaction_type_contains (Mentions lower rt.transaction_type)

or₃_iff :
    {P Q R : Type 0} (a b c : Bool)
    → (a ≡ true) ↔ P
    → (b ≡ true) ↔ Q
    → (c ≡ true) ↔ R
    → ((a || b || c) ≡ true) ↔ (P ⊎ Q ⊎ R)
or₃_iff true b c p q r = (λ _. inl (p.0 refl), λ _. refl)
or₃_iff false true c p q r = (λ _. inr (inl (q.0 refl)), λ _. refl)
or₃_iff false false true p q r = (λ _. inr (inr (r.0 refl)), λ _. refl)
or₃_iff false false false p q r = (
  λ h. absurd (ground arith),
  elim [ inl x ↦ p.1 x | inr y ↦ elim y [ inl z ↦ q.1 z | inr z ↦ r.1 z ] ],
)

all_true :
    {a b c d e f : Bool}
    → a ≡ true
    → b ≡ true
    → c ≡ true
    → d ≡ true
    → e ≡ true
    → f ≡ true
    → (a && b && c && d && e && f) ≡ true
all_true p q r s t u = ground arith

text_iff :
    (lower : ℕ → ℕ) (rule : CategorizationRule) (rt : RawTransaction)
    → (condition rule.text_contains (λ v.
          contains_fold lower rt.comment v
          || contains_fold lower rt.user_identification v
          || contains_fold lower rt.message_for_recipient v)
        ≡ true)
      ↔ Holds rule.text_contains (λ v.
        Mentions lower rt.comment v
        ⊎ Mentions lower rt.user_identification v
        ⊎ Mentions lower rt.message_for_recipient v)
text_iff lower rule rt = condition_iff rule.text_contains _ _ (λ v.
    or₃_iff _ _ _ (contains_fold_iff lower rt.comment v)
      (contains_fold_iff lower rt.user_identification v)
      (contains_fold_iff lower rt.message_for_recipient v))

-- A pattern rule matches exactly if every condition that it sets holds: the direction, the counter
-- account and the constant symbol exactly, the variable symbol up to leading zeroes, the text in one
-- of three fields and the transaction type as pieces in lower case.
pub matches_pattern_iff :
    (lower : ℕ → ℕ) (rule : CategorizationRule) (rt : RawTransaction) (direction : String)
    → (matches_pattern lower rule rt direction ≡ true) ↔ PatternHolds lower rule rt direction
unfolding matches_pattern
matches_pattern_iff lower rule rt direction =
    let d =
      condition_iff rule.direction (λ d. str_eq d direction) (λ d. d ≡ direction)
        (λ v. eq_iff v direction) in
    let a =
      condition_iff rule.counter_account_number (equal_field rt.counter_account_number)
        (λ v. rt.counter_account_number ≡ some v) (equal_field_iff rt.counter_account_number) in
    let v =
      condition_iff rule.variable_symbol (same_symbol rt.variable_symbol)
        (SameSymbol rt.variable_symbol) (same_symbol_iff rt.variable_symbol) in
    let k =
      condition_iff rule.constant_symbol (equal_field rt.constant_symbol)
        (λ v. rt.constant_symbol ≡ some v) (equal_field_iff rt.constant_symbol) in
    let t = text_iff lower rule rt in
    let y =
      condition_iff rule.transaction_type_contains (contains_fold lower rt.transaction_type)
        (Mentions lower rt.transaction_type) (contains_fold_iff lower rt.transaction_type) in
    (
      λ h. record {
        direction_is = d.0 (ground arith);
        account_is = a.0 (ground arith);
        symbol_is = v.0 (ground arith);
        constant_is = k.0 (ground arith);
        text_in = t.0 (ground arith);
        type_in = y.0 (ground arith);
      },
      λ p.
          all_true (d.1 p.direction_is) (a.1 p.account_is) (v.1 p.symbol_is) (k.1 p.constant_is)
            (t.1 p.text_in) (y.1 p.type_in),
    )
