-- ===== src/Academic/Dates.antt =====
-- The clock times and dates of academic/validation.go, with what they use of Go's time.Parse and
-- time.Format: the layouts "15:04" and "02/01/2006".
pub mod RoundTrip
use Prim.Native.Char.{Char, code}
use Prim.Native.String.{[], ◌∷◌, char_at}
use kingsway_academy.Base.{
  ℕ, ◌+◌, ◌-◌, ◌*◌, ◌/◌, ◌%◌, String, Bool, true, false, ◌&&◌, ◌||◌, not, Option, none, some,
  if◌then◌else◌, leb, ltb, eqb,
}
use kingsway_academy.Base.Text.{trim_space, is_empty}
use kingsway_academy.Domain.{Result, ok, err, invalid_input}

-- A day of the calendar that Parse returns and Format prints.
pub record Date : Type 0 where
  pub day : ℕ
  pub month : ℕ
  pub year : ℕ

unfoldable pub is_digit : Char → Bool
is_digit c = leb 48 (code c) && leb (code c) 57

abbrev pub digit_value : Char → ℕ
digit_value c = code c - 48

abbrev pub digit_char : ℕ → Char
digit_char n = char_at "0123456789" n

abbrev pub two_digits : Char → Char → ℕ
two_digits a b = 10 * digit_value a + digit_value b

-- A leap year of the Gregorian calendar.
unfoldable pub is_leap : ℕ → Bool
is_leap y = eqb (y % 4) 0 && (not (eqb (y % 100) 0) || eqb (y % 400) 0)

unfoldable pub days_in : ℕ → ℕ → ℕ
unfolding is_leap
days_in month year =
    if eqb month 2
    then (if is_leap year then 29 else 28)
    else if eqb month 4 || eqb month 6 || eqb month 9 || eqb month 11
    then 30
    else 31

unfoldable pub is_calendar_day : Date → Bool
unfolding days_in
is_calendar_day d =
    leb 1 d.month && leb d.month 12 && leb 1 d.day && leb d.day (days_in d.month d.year)

-- The fields of a text of ten characters.
unfoldable pub parse_fields :
    Char → Char → Char → Char → Char → Char → Char → Char → Char → Char → Option Date
unfolding is_digit is_calendar_day
parse_fields a b s c d t e f g h =
    let date : Date = record {
      day = two_digits a b;
      month = two_digits c d;
      year = 100 * two_digits e f + two_digits g h;
    } in
    if is_digit a
      && is_digit b
      && eqb (code s) 47
      && is_digit c
      && is_digit d
      && eqb (code t) 47
      && is_digit e
      && is_digit f
      && is_digit g
      && is_digit h
      && is_calendar_day date
    then some date
    else none

-- time.Parse("02/01/2006", value): two digits for the day and the month, four for the year, and
-- nothing after them
unfoldable pub parse_date : String → Option Date
unfolding parse_fields
parse_date (a ∷ b ∷ s ∷ c ∷ d ∷ t ∷ e ∷ f ∷ g ∷ h ∷ []) = parse_fields a b s c d t e f g h
parse_date _ = none

abbrev pub slash : Char
slash = char_at "/" 0

-- Format("02/01/2006"), for a year of at most four digits
unfoldable pub format_date : Date → String
format_date d =
    digit_char (d.day / 10)
    ∷ digit_char (d.day % 10)
    ∷ slash
    ∷ digit_char (d.month / 10)
    ∷ digit_char (d.month % 10)
    ∷ slash
    ∷ digit_char (d.year / 1000)
    ∷ digit_char (d.year / 100 % 10)
    ∷ digit_char (d.year / 10 % 10)
    ∷ digit_char (d.year % 10)
    ∷ []

-- `d.Before(e)`
unfoldable pub date_before : Date → Date → Bool
date_before d e =
    ltb d.year e.year
    || (eqb d.year e.year && (ltb d.month e.month || (eqb d.month e.month && ltb d.day e.day)))

-- The minutes of a clock time: two digits below 60.
abbrev is_minutes : Char → Char → Bool
is_minutes a b = is_digit a && is_digit b && ltb (two_digits a b) 60

-- Does time.Parse("15:04", value) succeed? The hour has one or two digits.
unfoldable pub is_clock_time : String → Bool
unfolding is_digit
is_clock_time (h ∷ s ∷ a ∷ b ∷ []) = is_digit h && eqb (code s) 58 && is_minutes a b
is_clock_time (g ∷ h ∷ s ∷ a ∷ b ∷ []) =
    is_digit g && is_digit h && ltb (two_digits g h) 24 && eqb (code s) 58 && is_minutes a b
is_clock_time _ = false

-- normalizeClockTime
unfoldable pub normalize_clock_time : String → Result String
unfolding is_clock_time
normalize_clock_time value =
    let trimmed = trim_space value in
    if is_empty trimmed
    then ok ""
    else if not (is_clock_time trimmed)
    then err invalid_input
    else ok trimmed

-- normalizeBirthDate
unfoldable pub normalize_birth_date : String → Result String
unfolding parse_date format_date
normalize_birth_date value =
    let trimmed = trim_space value in
    if is_empty trimmed
    then ok ""
    else elim (parse_date trimmed) [ none ↦ err invalid_input | some d ↦ ok (format_date d) ]

-- isHireDateOnOrAfterBirthDate
unfoldable pub is_hire_date_on_or_after_birth_date : String → String → Bool
unfolding parse_date date_before
is_hire_date_on_or_after_birth_date birth_date hired_at =
    if is_empty birth_date || is_empty hired_at then true else elim (parse_date birth_date) [
      | none ↦ false
      | some birth ↦ elim (parse_date hired_at) [
        | none ↦ false
        | some hire ↦ not (date_before hire birth)
      ]
    ]

-- validShortDate of student_service.go
unfoldable pub valid_short_date : String → Bool
unfolding parse_date
valid_short_date value =
    let trimmed = trim_space value in
    if is_empty trimmed then false else elim (parse_date trimmed) [ none ↦ false | some d ↦ true ]
