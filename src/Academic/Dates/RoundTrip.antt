-- ===== src/Academic/Dates/RoundTrip.antt =====
-- What the dates of academic/validation.go go through: printed and parsed again.
use Prim.Native.Char.{Char, code}
use Prim.Native.String.{[], ◌∷◌}
use text.Mathlib.TextEquality.{Char-path}
use kingsway_academy.Base.{
  ℕ, zero, suc, ◌∙◌, ◌/◌, ◌%◌, ◌+◌, ◌*◌, ◌≡◌, ◌≤◌, inl, inr, String, eqb, refl, sym, false, ap,
  true, some, arith, Option-cases, Bool-cases, ◌==◌,
}
use kingsway_academy.Base.Text.{trim_space, trim_left, reverse_onto, is_space}
use kingsway_academy.Domain.{ok}
use kingsway_academy.Academic.Dates.{
  Date, is_digit, digit_value, digit_char, two_digits, is_calendar_day, parse_fields, parse_date,
  format_date, slash, normalize_birth_date,
}

code-digit_char : (n : ℕ) → n ≤ 9 → code (digit_char n) ≡ 48 + n
code-digit_char zero h = refl
code-digit_char (suc zero) h = refl
code-digit_char (suc (suc zero)) h = refl
code-digit_char (suc (suc (suc zero))) h = refl
code-digit_char (suc (suc (suc (suc zero)))) h = refl
code-digit_char (suc (suc (suc (suc (suc zero))))) h = refl
code-digit_char (suc (suc (suc (suc (suc (suc zero)))))) h = refl
code-digit_char (suc (suc (suc (suc (suc (suc (suc zero))))))) h = refl
code-digit_char (suc (suc (suc (suc (suc (suc (suc (suc zero)))))))) h = refl
code-digit_char (suc (suc (suc (suc (suc (suc (suc (suc (suc zero))))))))) h = refl
code-digit_char (suc (suc (suc (suc (suc (suc (suc (suc (suc (suc n)))))))))) h =
    absurd (omega arith)

digit_char_value : (c : Char) → is_digit c ≡ true → digit_char (digit_value c) ≡ c
unfolding is_digit
digit_char_value c h = Char-path _ _ (code-digit_char (digit_value c) (ground arith) ∙ ground arith)

printed_digit : (n : ℕ) (c : Char) → is_digit c ≡ true → n ≡ digit_value c → digit_char n ≡ c
printed_digit n c h e = rw e (digit_char_value c h)

digit_below_ten : (c : Char) → is_digit c ≡ true → digit_value c ≤ 9
unfolding is_digit
digit_below_ten c h = ground arith

slash_char : (c : Char) → eqb (code c) 47 ≡ true → slash ≡ c
slash_char c h = Char-path _ _ (ground arith)

pair_chars :
    (n : ℕ) (a b : Char)
    → is_digit a ≡ true
    → is_digit b ≡ true
    → n ≡ two_digits a b
    → (digit_char (n / 10) ≡ a) × (digit_char (n % 10) ≡ b)
pair_chars n a b h k e =
    let low : digit_value b ≤ 9 = digit_below_ten b k in
    (printed_digit _ a h (omega arith), printed_digit _ b k (omega arith))

year_chars :
    (n : ℕ) (a b c d : Char)
    → is_digit a ≡ true
    → is_digit b ≡ true
    → is_digit c ≡ true
    → is_digit d ≡ true
    → n ≡ 100 * two_digits a b + two_digits c d
    → ((digit_char (n / 1000) ≡ a) × (digit_char (n / 100 % 10) ≡ b))
      × ((digit_char (n / 10 % 10) ≡ c) × (digit_char (n % 10) ≡ d))
year_chars n a b c d h k p q e =
    let b9 : digit_value b ≤ 9 = digit_below_ten b k in
    let c9 : digit_value c ≤ 9 = digit_below_ten c p in
    let d9 : digit_value d ≤ 9 = digit_below_ten d q in
    (
      (printed_digit _ a h (omega arith), printed_digit _ b k (omega arith)),
      (printed_digit _ c p (omega arith), printed_digit _ d q (omega arith)),
    )

digit-NotSpace : (c : Char) → is_digit c ≡ true → is_space (code c) ≡ false
unfolding is_digit is_space
digit-NotSpace c h = ground arith

module _ (a b s c e t y y' z z' : Char) where
  format_fields :
      (d : Date)
      → parse_fields a b s c e t y y' z z' ≡ some d
      → format_date d ≡ a ∷ b ∷ s ∷ c ∷ e ∷ t ∷ y ∷ y' ∷ z ∷ z' ∷ []
  unfolding parse_fields format_date
  format_fields d h =
      let (p, q) = pair_chars d.day a b (ground arith) (ground arith) (ground arith) in
      let (u, v) = pair_chars d.month c e (ground arith) (ground arith) (ground arith) in
      let ((k, l), (m, n)) =
        year_chars d.year y y' z z' (ground arith) (ground arith) (ground arith) (ground arith)
          (ground arith) in
      rw (p, q, u, v, k, l, m, n, slash_char s (ground arith))
        (ap (λ x. a ∷ b ∷ s ∷ c ∷ e ∷ x ∷ y ∷ y' ∷ z ∷ z' ∷ [])
          (sym (slash_char s (ground arith)) ∙ slash_char t (ground arith)))

  trim_fields :
      (d : Date)
      → parse_fields a b s c e t y y' z z' ≡ some d
      → trim_space (a ∷ b ∷ s ∷ c ∷ e ∷ t ∷ y ∷ y' ∷ z ∷ z' ∷ [])
        ≡ a ∷ b ∷ s ∷ c ∷ e ∷ t ∷ y ∷ y' ∷ z ∷ z' ∷ []
  unfolding parse_fields trim_space trim_left reverse_onto
  trim_fields d h = rw (digit-NotSpace a (ground arith), digit-NotSpace z' (ground arith)) refl

  sound_fields :
      (d : Date)
      → parse_fields a b s c e t y y' z z' ≡ some d
      → (is_calendar_day d ≡ true) × (d.year ≤ 9999)
  unfolding parse_fields
  sound_fields d h =
      let year : d.year ≡ 100 * two_digits y y' + two_digits z z' = ground arith in
      let p : digit_value y ≤ 9 = digit_below_ten y (ground arith) in
      let q : digit_value y' ≤ 9 = digit_below_ten y' (ground arith) in
      let r : digit_value z ≤ 9 = digit_below_ten z (ground arith) in
      let s : digit_value z' ≤ 9 = digit_below_ten z' (ground arith) in (ground arith, omega arith)

-- A text that is parsed as a date is what the date is printed as, and has no space around it.
format_date-parse_date :
    (value : String) (d : Date)
    → parse_date value ≡ some d
    → (format_date d ≡ value)
      × (trim_space value ≡ value)
      × (is_calendar_day d ≡ true)
      × (d.year ≤ 9999)
unfolding parse_date
format_date-parse_date (a ∷ b ∷ s ∷ c ∷ e ∷ t ∷ y ∷ y' ∷ z ∷ z' ∷ []) d h = (
  format_fields a b s c e t y y' z z' d h,
  trim_fields a b s c e t y y' z z' d h,
  (sound_fields a b s c e t y y' z z' d h).0,
  (sound_fields a b s c e t y y' z z' d h).1,
)
format_date-parse_date _ d h = absurd (ground arith)

trim_space_nil : trim_space [] ≡ []
unfolding trim_space trim_left reverse_onto
trim_space_nil = refl

-- What a birth date is normalized to, empty or not, is normalized to itself.
pub normalize_birth_date_again :
    (value date : String)
    → normalize_birth_date value ≡ ok date
    → normalize_birth_date date ≡ ok date
unfolding normalize_birth_date
normalize_birth_date_again value date h = elim (Bool-cases (trim_space value == "")) [
  | inl empty ↦ let unset : date ≡ "" = ground arith in rw (unset, trim_space_nil) refl
  | inr given ↦ elim (Option-cases (parse_date (trim_space value))) [
    | inl bad ↦ absurd (ground arith)
    | inr (d, parsed) ↦
        let (printed, trimmed, day, year) = format_date-parse_date (trim_space value) d parsed in
        let same : date ≡ trim_space value = ground arith in
        rw (same, trimmed, given, parsed) (ap ok printed)
  ]
]
