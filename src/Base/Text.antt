-- ===== src/Base/Text.antt =====
-- The functions of Go's package strings that the program calls, over the native texts.
-- `to_lower` and `to_upper` change the ASCII letters and the characters whose other case is an ASCII
-- letter (the capital dotted i and the Kelvin sign; the dotless i and the long s), and leave every
-- other character alone.
use Prim.Native.Char.{Char, code}
use Prim.Native.Nat.{ℕ, ◌+◌}
use Prim.Native.String.{String, [], ◌∷◌, compare}
use mathlib.Core.Bool.{Bool, ◌&&◌, ◌||◌}
use text.Mathlib.Text.{◌==◌, starts_with, is_lt}
use kingsway_academy.Base.Tests.{leb, ltb, eqb, if◌then◌else◌}

-- The character of `to` that stands where `from` has `c`, or `c` itself.
unfoldable pub swap_char : String → String → Char → Char
swap_char [] to c = c
swap_char (f ∷ from) [] c = c
swap_char (f ∷ from) (t ∷ to) c = if eqb (code f) (code c) then t else swap_char from to c

unfoldable pub map_chars : (Char → Char) → String → String
map_chars f [] = []
map_chars f (c ∷ s) = f c ∷ map_chars f s

-- strings.ToLower
unfoldable pub to_lower : String → String
to_lower = map_chars (swap_char "ABCDEFGHIJKLMNOPQRSTUVWXYZİK" "abcdefghijklmnopqrstuvwxyzik")

-- strings.ToUpper
unfoldable pub to_upper : String → String
to_upper = map_chars (swap_char "abcdefghijklmnopqrstuvwxyzıſ" "ABCDEFGHIJKLMNOPQRSTUVWXYZIS")

-- unicode.IsSpace, the White_Space characters
unfoldable pub is_space : ℕ → Bool
is_space n =
    (leb 9 n && leb n 13)
    || eqb n 32
    || eqb n 0x85
    || eqb n 0xa0
    || eqb n 0x1680
    || (leb 0x2000 n && leb n 0x200a)
    || eqb n 0x2028
    || eqb n 0x2029
    || eqb n 0x202f
    || eqb n 0x205f
    || eqb n 0x3000

unfoldable pub reverse_onto : String → String → String
reverse_onto acc [] = acc
reverse_onto acc (c ∷ s) = reverse_onto (c ∷ acc) s

unfoldable pub trim_left : String → String
trim_left [] = []
trim_left (c ∷ s) = let rest = trim_left s in if is_space (code c) then rest else c ∷ s

-- strings.TrimSpace
unfoldable pub trim_space : String → String
unfolding trim_left reverse_onto
trim_space s = reverse_onto [] (trim_left (reverse_onto [] (trim_left s)))

-- strings.EqualFold, which takes the Kelvin sign for a k and the long s for an s
unfoldable pub equal_fold : String → String → Bool
equal_fold s t =
    let fold =
      map_chars (swap_char "ABCDEFGHIJKLMNOPQRSTUVWXYZKſ" "abcdefghijklmnopqrstuvwxyzks") in
    fold s == fold t

-- strings.Contains
unfoldable pub contains_text : String → String → Bool
contains_text [] t = t == ""
contains_text (c ∷ s) t = starts_with (c ∷ s) t || contains_text s t

abbrev pub is_empty : String → Bool
is_empty s = s == ""

-- `<` on texts
abbrev pub text_lt : String → String → Bool
text_lt s t = is_lt (compare s t)

-- The bytes of a character in UTF-8.
abbrev utf8_width : ℕ → ℕ
utf8_width n = if ltb n 0x80 then 1 else if ltb n 0x800 then 2 else if ltb n 0x10000 then 3 else 4

-- `len(s)`, the number of bytes
unfoldable pub byte_length : String → ℕ
byte_length [] = 0
byte_length (c ∷ s) = utf8_width (code c) + byte_length s
