-- ===== src/Processing/FirstMatch.antt =====
-- categorize: the first rule of the chain that matches decides, and the fallback comes last.
use bank_system_public.Base.{
  ℕ, String, ◌≡◌, ◌≢◌, ◌⊎◌, inl, inr, refl, ap, Option, none, some, List, [], ◌∷◌, ◌++◌, arith, All,
  str_eq, eq_iff, Bool-cases, Bool, true, false,
}
use bank_system_public.CategoryId.{other_income, other_expense}
use bank_system_public.Store.{
  Db, RawTransaction, CategorizationRule, Result, Failure, ok, calm, find_member_by_variable_symbol,
}
use bank_system_public.Processing.{
  Outcome, fallback_category, as_match, is_own_account, matches_pattern, plain_outcome, fallback,
  apply_member_rule, apply_rule, categorize,
}

apply_member_rule-calm :
    (rule : CategorizationRule) (symbol : Option String) (rt : RawTransaction) (db : Db)
    → (apply_member_rule rule symbol rt.transaction_date (calm db)).1 ≡ calm db
unfolding apply_member_rule find_member_by_variable_symbol
apply_member_rule-calm rule symbol rt db = ground arith

-- The category of a payment that nothing else decides: other income if it comes in, and otherwise other
-- expense.
abbrev pub IsFallback : String → ℕ → Type 0
IsFallback direction category =
    ((direction ≡ "incoming") × (category ≡ other_income))
    ⊎ ((direction ≢ "incoming") × (category ≡ other_expense))

pub fallback_category-IsFallback :
    (direction : String) → IsFallback direction (fallback_category direction)
unfolding fallback_category
fallback_category-IsFallback direction = elim (Bool-cases (str_eq direction "incoming")) [
  | inl e ↦ inl ((eq_iff direction "incoming").0 e, rw e refl)
  | inr e ↦
      inr ((λ same. let clash = (eq_iff direction "incoming").1 same in ground arith), rw e refl)
]

module _ (lower : ℕ → ℕ) (rt : RawTransaction) (direction : String) (accounts : List String)
    (db : Db) where
  -- The rule matches and its outcome is the given one.
  abbrev pub Gives : CategorizationRule → Outcome → Type 0
  Gives rule o = (apply_rule lower rule rt direction accounts (calm db)).0 ≡ ok (some o)

  -- The rule does not match.
  abbrev pub Passes : CategorizationRule → Type 0
  Passes rule = (apply_rule lower rule rt direction accounts (calm db)).0 ≡ ok none

  pub apply_rule-calm :
      (rule : CategorizationRule)
      → (apply_rule lower rule rt direction accounts (calm db)).1 ≡ calm db
  unfolding apply_rule
  apply_rule-calm rule = ground (arith, apply_member_rule-calm rule rt.variable_symbol rt db)

  pub categorize-first_match :
      (passed : List CategorizationRule) (rule : CategorizationRule)
      (rest : List CategorizationRule) (o : Outcome)
      → All Passes passed
      → Gives rule o
      → categorize lower rt direction accounts (passed ++ rule ∷ rest) (calm db) ≡ (ok o, calm db)
  unfolding categorize
  categorize-first_match [] rule rest o hp h = ground (arith, apply_rule-calm rule)
  categorize-first_match (r ∷ passed) rule rest o hp h =
      ground (arith, apply_rule-calm r, categorize-first_match passed rule rest o hp.1 h)

  categorize-fallback :
      (rules : List CategorizationRule)
      → All Passes rules
      → categorize lower rt direction accounts rules (calm db) ≡ (ok (fallback direction), calm db)
  unfolding categorize
  categorize-fallback [] hp = refl
  categorize-fallback (r ∷ rules) hp =
      ground (arith, apply_rule-calm r, categorize-fallback rules hp.1)

  apply_member_rule-answers :
      (rule : CategorizationRule) (symbol : Option String)
      → ((apply_member_rule rule symbol rt.transaction_date (calm db)).0 ≡ ok none)
        ⊎ ((o : Outcome) × ((apply_member_rule rule symbol rt.transaction_date (calm db)).0
              ≡ ok (some o)))
  unfolding apply_member_rule find_member_by_variable_symbol
  apply_member_rule-answers rule symbol = ground arith

  -- If no statement fails, a rule either matches or does not.
  apply_rule-answers : (rule : CategorizationRule) → Passes rule ⊎ ((o : Outcome) × Gives rule o)
  unfolding apply_rule
  apply_rule-answers rule = elim (Bool-cases (str_eq rule.kind "own_account")) [
    | inl e ↦ rw e (answered (is_own_account accounts rt.counter_account_number))
    | inr e ↦ rw e (elim (Bool-cases (str_eq rule.kind "member_variable_symbol")) [
      | inl m ↦ rw m (apply_member_rule-answers rule rt.variable_symbol)
      | inr m ↦ rw m (elim (Bool-cases (str_eq rule.kind "pattern")) [
        | inl p ↦ rw p (answered (matches_pattern lower rule rt direction))
        | inr p ↦ rw p (inl refl)
      ])
    ])
  ]
    where
      Answer : Type 0
      Answer = Result Failure (Option Outcome)

      answered :
          (b : Bool)
          → (◌≡◌ {A = Answer} (ok (as_match b (plain_outcome rule))) (ok none))
            ⊎ ((o : Outcome) × (◌≡◌ {A = Answer}
                  (ok (as_match b (plain_outcome rule)))
                  (ok (some o))))
      answered true = inr (plain_outcome rule, refl)
      answered false = inl refl

  -- What categorize may answer: the outcome of the first rule that matches, or if none does, the
  -- fallback of the direction, with no rule, member or way of matching.
  abbrev pub Decides : List CategorizationRule → Outcome → Type 0
  Decides rules o =
      ((passed : List CategorizationRule) × (rule : CategorizationRule) × (rest : List
          CategorizationRule)
        × (rules ≡ passed ++ rule ∷ rest)
        × All Passes passed
        × Gives rule o)
      ⊎ (All Passes rules
          × IsFallback direction o.category_id
          × (o.rule_id ≡ none)
          × (o.member_number ≡ none)
          × (o.matched_by ≡ none))

  later_rule :
      (r : CategorizationRule) (rules : List CategorizationRule) (o : Outcome)
      → Passes r
      → Decides rules o
      → Decides (r ∷ rules) o
  later_rule r rules o passes (inl (passed, rule, rest, split, all, gives)) =
      inl (r ∷ passed, rule, rest, ap (λ rs. r ∷ rs) split, (passes, all), gives)
  later_rule r rules o passes (inr (all, category, rule, member, matching)) =
      inr ((passes, all), category, rule, member, matching)

  -- If no statement fails, categorize always answers and changes nothing: the outcome of the first
  -- rule that matches, or, when no rule matches, other_income for an incoming payment and
  -- other_expense for any other, with no rule, member or way of matching.
  pub categorize-Decides :
      (rules : List CategorizationRule)
      → (o : Outcome) × (categorize lower rt direction accounts rules (calm db) ≡ (ok o, calm db))
        × Decides rules o
  unfolding categorize
  categorize-Decides [] =
      (fallback direction, refl, inr (tt, fallback_category-IsFallback direction, refl, refl, refl))
  categorize-Decides (r ∷ rules) = elim (apply_rule-answers r) [
    | inl passes ↦
        let (o, e, decided) = categorize-Decides rules in
        (o, ground (arith, apply_rule-calm r, e), later_rule r rules o passes decided)
    | inr (o, gives) ↦
        (o, categorize-first_match [] r rules o tt gives, inl ([], r, rules, refl, tt, gives))
  ]
