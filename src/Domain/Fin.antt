-- ===== src/Domain/Fin.antt =====
-- What ParseFIN accepts and returns.
use Prim.Native.Char.{Char, code}
use Prim.Native.String.{String, [], ◌∷◌, count}
use kingsway_academy.Base.{◌≤◌, ◌⊎◌, ◌≡◌, ◌↔◌, refl, true, arith}
use kingsway_academy.Base.Text.{to_upper, trim_space}
use kingsway_academy.Domain.Errors.{ok}
use kingsway_academy.Domain.Rules.{is_fin_char, all_fin_chars, matches_fin_pattern, parse_fin}

-- A capital letter A to Z or a digit 0 to 9, by the number of the character.
abbrev pub IsCapitalOrDigit : Char → Type 0
IsCapitalOrDigit c = ((65 ≤ code c) × (code c ≤ 90)) ⊎ ((48 ≤ code c) × (code c ≤ 57))

-- All characters of the text are capitals or digits.
abbrev pub AreCapitalsOrDigits : String → Type 0
AreCapitalsOrDigits [] = Unit
AreCapitalsOrDigits (c ∷ s) = IsCapitalOrDigit c × AreCapitalsOrDigits s

all_fin_chars_iff : (s : String) → (all_fin_chars s ≡ true) ↔ AreCapitalsOrDigits s
unfolding all_fin_chars is_fin_char
all_fin_chars_iff [] = (λ h. tt, λ h. refl)
all_fin_chars_iff (c ∷ s) =
    let (there, back) = all_fin_chars_iff s in
    (λ h. (ground arith, there (ground arith)), λ (own, rest). ground (arith, back rest))

-- A FIN is accepted exactly if its trimmed upper-case form has seven characters, each of them one of
-- the capitals A to Z (codes 65 to 90) or the digits 0 to 9 (codes 48 to 57), and that form is what is
-- returned.
pub parse_fin_iff :
    (value fin : String)
    → (parse_fin value ≡ ok fin)
      ↔ ((fin ≡ to_upper (trim_space value)) × (count fin ≡ 7) × AreCapitalsOrDigits fin)
unfolding parse_fin matches_fin_pattern
parse_fin_iff value fin =
    let (there, back) = all_fin_chars_iff fin in
    (
      λ h. (ground arith, ground arith, there (ground arith)),
      λ (is_form, seven, fits). ground (arith, back fits),
    )
