-- ===== src/Handler/BudgetText.antt =====
-- internal/handler/budgets.go: the texts and amounts of a budget request.
use bank_system_public.Base.{
  ℕ, zero, suc, ◌+◌, ◌*◌, ◌-◌, ◌^◌, ◌<◌, ◌≤◌, ◌≡◌, String, Bool, ◌&&◌, Option, none, some, List, [],
  ◌∷◌, str_eq, ltb, leb, ◌==◌, if◌then◌else◌, arith, inl, inr, Bool-cases,
}
use bank_system_public.Processing.Text.{codes}

-- len(text) of a string: the bytes of its UTF-8 form.
abbrev pub char_bytes : ℕ → ℕ
char_bytes c = if ltb c 0x80 then 1 else if ltb c 0x800 then 2 else if ltb c 0x10000 then 3 else 4

abbrev bytes_of : List ℕ → ℕ
bytes_of [] = 0
bytes_of (c ∷ cs) = char_bytes c + bytes_of cs

abbrev pub byte_length : String → ℕ
byte_length text = bytes_of (codes text)

abbrev pub budget_text_max_length : ℕ
budget_text_max_length = 128

abbrev pub budget_note_max_length : ℕ
budget_note_max_length = 500

-- A text that strings.TrimSpace has trimmed: nil if it is empty, no answer if it is too long.
abbrev pub up_to_length : ℕ → String → Option (Option String)
up_to_length max text =
    if str_eq text ""
    then some none
    else if ltb max (byte_length text)
    then none
    else some (some text)

module _ (trim : String → String) where
  abbrev pub trimmed_text : ℕ → Option String → Option (Option String)
  trimmed_text max none = some none
  trimmed_text max (some value) = up_to_length max (trim value)

  abbrev pub optional_budget_text : Option String → Option (Option String)
  optional_budget_text = trimmed_text budget_text_max_length

  abbrev pub required_budget_text : String → Option String
  required_budget_text value =
      if str_eq (trim value) ""
      then none
      else if ltb budget_text_max_length (byte_length (trim value))
      then none
      else some (trim value)

-- \d
abbrev pub is_digit : ℕ → Bool
is_digit c = leb b'0' c && leb c b'9'

abbrev pub with_digit : ℕ → ℕ → ℕ
with_digit whole c = 10 * whole + (c - b'0')

-- (\.\d{1,2})?$ after the whole part, in hundredths.
abbrev pub decimals : ℕ → List ℕ → Option ℕ
decimals whole (d ∷ []) = if is_digit d then some (100 * whole + 10 * (d - b'0')) else none
decimals whole (d ∷ e ∷ []) =
    if is_digit d && is_digit e then some (100 * whole + 10 * (d - b'0') + (e - b'0')) else none
decimals whole [] = none
decimals whole (d ∷ e ∷ f ∷ cs) = none

abbrev pub end_of_whole : ℕ → ℕ → List ℕ → Option ℕ
end_of_whole whole c rest = if c == b'.' then decimals whole rest else none

-- The rest of \d{1,12}, of which `left` digits may follow.
unfoldable pub whole_part : ℕ → ℕ → List ℕ → Option ℕ
whole_part left whole [] = some (100 * whole)
whole_part zero whole (c ∷ cs) = end_of_whole whole c cs
whole_part (suc left) whole (c ∷ cs) =
    let longer = whole_part left (with_digit whole c) cs in
    if is_digit c then longer else end_of_whole whole c cs

-- budgetAmountPattern, and the number of hundredths that `numeric` reads in a text that matches.
unfoldable pub amount_codes : List ℕ → Option ℕ
unfolding whole_part
amount_codes [] = none
amount_codes (c ∷ cs) = if is_digit c then whole_part 11 (c - b'0') cs else none

-- normalizeBudgetLine's amount: blank is 0.
abbrev pub budget_amount : (String → String) → String → Option ℕ
budget_amount trim text = if str_eq (trim text) "" then some 0 else amount_codes (codes (trim text))

decimals-small :
    (whole : ℕ) (cs : List ℕ) (n : ℕ) → decimals whole cs ≡ some n → n < 100 * (whole + 1)
decimals-small whole [] n h = ground arith
decimals-small whole (d ∷ []) n h = ground arith
decimals-small whole (d ∷ e ∷ []) n h = ground arith
decimals-small whole (d ∷ e ∷ f ∷ cs) n h = ground arith

end_of_whole-small :
    (whole c : ℕ) (cs : List ℕ) (n : ℕ) → end_of_whole whole c cs ≡ some n → n < 100 * (whole + 1)
end_of_whole-small whole c cs n h = elim (Bool-cases (c == b'.')) [
  | inl e ↦ decimals-small whole cs n (ground arith)
  | inr e ↦ ground arith
]

-- What a number below a bound stays below after so many more digits.
abbrev grown : ℕ → ℕ → ℕ
grown zero bound = bound
grown (suc left) bound = grown left (10 * bound)

grown-above : (left bound : ℕ) → bound ≤ grown left bound
grown-above zero bound = omega arith
grown-above (suc left) bound = omega (arith, grown-above left (10 * bound))

whole_part-small :
    (left whole bound : ℕ) (cs : List ℕ) (n : ℕ)
    → whole < bound
    → whole_part left whole cs ≡ some n
    → n < 100 * grown left bound
unfolding whole_part
whole_part-small left whole bound [] n small h = let above = grown-above left bound in ground arith
whole_part-small zero whole bound (c ∷ cs) n small h =
    let below = end_of_whole-small whole c cs n h in omega arith
whole_part-small (suc left) whole bound (c ∷ cs) n small h = elim (Bool-cases (is_digit c)) [
  | inl e ↦
      whole_part-small left (with_digit whole c) (10 * bound) cs n (ground arith) (ground arith)
  | inr e ↦
      let below = end_of_whole-small whole c cs n (ground arith) in
      let above = grown-above (suc left) bound in omega arith
]

-- An amount that a request may give fits NUMERIC(14,2): it is below 10 ^ 12 crowns, in hundredths.
pub budget_amount-bounded :
    (trim : String → String) (text : String) (n : ℕ)
    → budget_amount trim text ≡ some n
    → n < 10 ^ 14
unfolding amount_codes
budget_amount-bounded trim text n h = elim (Bool-cases (str_eq (trim text) "")) [
  | inl e ↦ ground arith
  | inr e ↦ below (codes (trim text)) (ground arith)
]
  where
    below : (cs : List ℕ) → amount_codes cs ≡ some n → n < 10 ^ 14
    below [] e = ground arith
    below (c ∷ cs) e = elim (Bool-cases (is_digit c)) [
      | inl digit ↦ whole_part-small 11 (c - b'0') 10 cs n (ground arith) (ground arith)
      | inr other ↦ ground arith
    ]
