-- ===== src/Processing/Symbols.antt =====
-- Variable symbols up to their leading zeroes (normalizeVariableSymbol).
use Prim.Native.Char.{code}
use bank_system_public.Base.{ℕ, zero, suc, String, ◌≡◌, refl, inl, inr, str_eq, ◌==◌, Bool-cases}
use bank_system_public.Processing.Text.{trim_zeros, normalize_variable_symbol}

-- A symbol written with leading zeroes in front.
abbrev pub padded : ℕ → String → String
padded zero s = s
padded (suc n) s = String.◌∷◌ "0" (padded n s)

trim_zeros-padded : (n : ℕ) (s : String) → trim_zeros (padded n s) ≡ trim_zeros s
unfolding trim_zeros
trim_zeros-padded zero s = refl
trim_zeros-padded (suc n) s = trim_zeros-padded n s

trim_zeros_idem : (s : String) → trim_zeros (trim_zeros s) ≡ trim_zeros s
unfolding trim_zeros
trim_zeros_idem String.[] = refl
trim_zeros_idem (String.◌∷◌ c s) = elim (Bool-cases (code c == b'0')) [
  | inl e ↦ rw e (trim_zeros_idem s)
  | inr e ↦ rw e (rw e refl)
]

-- Leading zeroes, however many, do not change the normalised symbol.
pub normalize-padded :
    (n : ℕ) (s : String) → normalize_variable_symbol (padded n s) ≡ normalize_variable_symbol s
unfolding normalize_variable_symbol
normalize-padded n s = rw trim_zeros-padded

-- Normalising a symbol again changes nothing.
pub normalize_idem :
    (s : String)
    → normalize_variable_symbol (normalize_variable_symbol s) ≡ normalize_variable_symbol s
unfolding normalize_variable_symbol
normalize_idem s = elim (Bool-cases (str_eq (trim_zeros s) "")) [
  | inl e ↦ rw e refl
  | inr e ↦ rw e (rw (trim_zeros_idem s) (rw e refl))
]
