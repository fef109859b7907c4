-- ===== src/Processing/Text.antt =====
-- The text functions that internal/processing/processing.go uses, over code points. Go's tables of
-- lower-case letters are not part of the repository: `lower` stands for unicode.ToLower.
use Prim.Native.Char.{code}
use bank_system_public.Base.{
  ℕ, String, Bool, true, false, ◌&&◌, ◌||◌, Option, none, some, List, [], ◌∷◌, map, str_eq, ◌==◌,
  if◌then◌else◌,
}

abbrev pub codes : String → List ℕ
codes String.[] = []
codes (String.◌∷◌ c s) = code c ∷ codes s

-- strings.HasPrefix(s, "-")
unfoldable pub is_negative : String → Bool
is_negative String.[] = false
is_negative (String.◌∷◌ c s) = code c == b'-'

-- strings.TrimLeft(s, "0")
unfoldable pub trim_zeros : String → String
trim_zeros String.[] = ""
trim_zeros (String.◌∷◌ c s) =
    let rest = trim_zeros s in if code c == b'0' then rest else String.◌∷◌ c s

unfoldable pub normalize_variable_symbol : String → String
unfolding trim_zeros
normalize_variable_symbol s =
    let normalized = trim_zeros s in if str_eq normalized "" then "0" else normalized

-- strings.HasPrefix and strings.Contains on code points
unfoldable pub has_prefix : List ℕ → List ℕ → Bool
has_prefix xs [] = true
has_prefix [] (y ∷ ys) = false
has_prefix (x ∷ xs) (y ∷ ys) = x == y && has_prefix xs ys

unfoldable pub contains : List ℕ → List ℕ → Bool
unfolding has_prefix
contains [] ys = has_prefix [] ys
contains (x ∷ xs) ys = has_prefix (x ∷ xs) ys || contains xs ys

-- `*field == value` on a nullable field
unfoldable pub equal_field : Option String → String → Bool
equal_field none value = false
equal_field (some text) value = str_eq text value

module _ (lower : ℕ → ℕ) where
  -- strings.ToLower
  abbrev pub to_lower : String → List ℕ
  to_lower s = map lower (codes s)

  unfoldable pub contains_fold : Option String → String → Bool
  unfolding contains
  contains_fold none substring = false
  contains_fold (some text) substring = contains (to_lower text) (to_lower substring)
