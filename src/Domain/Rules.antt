-- ===== src/Domain/Rules.antt =====
-- The methods and functions of the domain package: role.go, entities.go, file_policy.go,
-- schedule.go, pagination.go, salary.go and fin.go.
use Prim.Native.Char.{code}
use Prim.Native.String.{count, [], ◌∷◌}
use kingsway_academy.Base.{
  ℕ, ◌+◌, ◌-◌, ◌*◌, String, Bool, true, false, ◌==◌, ◌&&◌, ◌||◌, not, Option, none, some, List,
  if◌then◌else◌, length, take, drop, ltb, leb, eqb,
}
use kingsway_academy.Base.Int.{pos, pos_part, leb_ℤ, ltb_ℤ}
use kingsway_academy.Base.Text.{trim_space, to_upper, is_empty}
use kingsway_academy.Domain.Errors.{Result, ok, err, invalid_fin}
use kingsway_academy.Domain.Enums.{
  Role, SalaryModelType, FileCategory, FilePolicy, FilePurpose, OutboxEventStatus, eq_role,
  eq_category,
}
use kingsway_academy.Domain.Entities.{Time, Principal, PageRequest, ScheduleItem}

-- Role.IsValid
unfoldable pub role_is_valid : Role → Bool
role_is_valid (Role.other s) = false
role_is_valid _ = true

-- Role.RequiresBranchScope
unfoldable pub requires_branch_scope : Role → Bool
requires_branch_scope r = not (eq_role r Role.owner)

-- Role.CanApproveTeacherSalary
unfoldable pub can_approve_teacher_salary : Role → Bool
can_approve_teacher_salary r = eq_role r Role.owner

-- Role.CanViewTeacherSalary
unfoldable pub can_view_teacher_salary : Role → String → String → Bool
can_view_teacher_salary r subject_user_id viewer_user_id =
    if eq_role r Role.owner
    then true
    else eq_role r Role.teacher
      && not (is_empty subject_user_id)
      && subject_user_id == viewer_user_id

-- Principal.IsOwner
unfoldable pub is_owner : Principal → Bool
is_owner p = eq_role p.role Role.owner

-- Principal.CanUseBranch
unfoldable pub can_use_branch : Principal → String → Bool
unfolding is_owner
can_use_branch p branch_id = is_owner p || (not (is_empty p.branch_id) && p.branch_id == branch_id)

-- SalaryModelType.IsValid
unfoldable pub salary_model_is_valid : SalaryModelType → Bool
salary_model_is_valid (SalaryModelType.other s) = false
salary_model_is_valid _ = true

-- OutboxEventStatus.IsValid
unfoldable pub outbox_status_is_valid : OutboxEventStatus → Bool
outbox_status_is_valid (OutboxEventStatus.other s) = false
outbox_status_is_valid _ = true

-- FileCategory.IsValid
unfoldable pub category_is_valid : FileCategory → Bool
category_is_valid (FileCategory.other s) = false
category_is_valid _ = true

-- FileCategory.CanOptimize
unfoldable pub can_optimize : FileCategory → Bool
can_optimize c = eq_category c FileCategory.standard

-- FileCategory.MustPreserveOriginalBytes
unfoldable pub must_preserve_original_bytes : FileCategory → Bool
must_preserve_original_bytes c = eq_category c FileCategory.special

-- FilePolicy.IsValid
unfoldable pub policy_is_valid : FilePolicy → Bool
policy_is_valid (FilePolicy.other s) = false
policy_is_valid _ = true

-- FilePolicy.Category
unfoldable pub policy_category : FilePolicy → FileCategory
policy_category FilePolicy.special = FileCategory.special
policy_category _ = FileCategory.standard

-- InferFilePolicy
unfoldable pub infer_file_policy : FileCategory → FilePurpose → FilePolicy
infer_file_policy FileCategory.special purpose = FilePolicy.special
infer_file_policy _ FilePurpose.profile_photo = FilePolicy.standard_ui
infer_file_policy _ _ = FilePolicy.standard_downloadable

-- 60 days, in nanoseconds
abbrev pub writing_retention : Time
writing_retention = 60 * 24 * 3600 * 1000000000

-- RetentionUntil
unfoldable pub retention_until : FilePurpose → Time → Option Time
retention_until FilePurpose.exam_writing uploaded_at = some (uploaded_at + writing_retention)
retention_until _ uploaded_at = none

-- time.Time.IsZero, Before and After
abbrev pub is_zero : Time → Bool
is_zero t = eqb t 0

abbrev pub before : Time → Time → Bool
before t u = ltb t u

abbrev pub after : Time → Time → Bool
after t u = ltb u t

pub record TimeRange : Type 0 where
  pub start : Time
  pub end : Time

-- TimeRange.IsValid
unfoldable pub range_is_valid : TimeRange → Bool
range_is_valid r = not (is_zero r.start) && not (is_zero r.end) && before r.start r.end

-- TimeRange.Overlaps
unfoldable pub overlaps : TimeRange → TimeRange → Bool
unfolding range_is_valid
overlaps r other =
    if not (range_is_valid r) || not (range_is_valid other)
    then false
    else before r.start other.end && before other.start r.end

-- ScheduleItem.Range
abbrev pub range_of : ScheduleItem → TimeRange
range_of s = record { start = s.starts_at; end = s.ends_at }

-- `limit` and `offset` as `PageSlice` corrects them
unfoldable pub page_limit : PageRequest → ℕ
page_limit page =
    if leb_ℤ page.limit (pos 0) || ltb_ℤ (pos 500) page.limit then 100 else pos_part page.limit

unfoldable pub page_offset : PageRequest → ℕ
page_offset page = if ltb_ℤ page.offset (pos 0) then 0 else pos_part page.offset

-- `n`, cut down to `total`
unfoldable pub clip : ℕ → ℕ → ℕ
clip n total = if ltb total n then total else n

-- PageSlice
unfoldable pub page_slice {ℓ} : {T : Type ℓ} → List T → PageRequest → List T × ℕ
unfolding page_limit page_offset clip
page_slice items page =
    let total = length items in
    let start = clip (page_offset page) total in
    let end = clip (start + page_limit page) total in (take (end - start) (drop start items), total)

-- SinglePage
unfoldable pub single_page {ℓ} : {T : Type ℓ} → T → PageRequest → List T × ℕ
single_page item page =
    if ltb_ℤ (pos 0) page.offset then (List.[], 1) else (List.◌∷◌ item List.[], 1)

-- A character of the pattern [A-Z0-9].
unfoldable pub is_fin_char : ℕ → Bool
is_fin_char c = (leb b'A' c && leb c b'Z') || (leb b'0' c && leb c b'9')

unfoldable pub all_fin_chars : String → Bool
unfolding is_fin_char
all_fin_chars [] = true
all_fin_chars (c ∷ s) = is_fin_char (code c) && all_fin_chars s

-- finPattern, ^[A-Z0-9]{7}$
unfoldable pub matches_fin_pattern : String → Bool
unfolding all_fin_chars
matches_fin_pattern s = eqb (count s) 7 && all_fin_chars s

-- ParseFIN
unfoldable pub parse_fin : String → Result String
parse_fin value =
    let normalized = to_upper (trim_space value) in
    if not (matches_fin_pattern normalized) then err invalid_fin else ok normalized
