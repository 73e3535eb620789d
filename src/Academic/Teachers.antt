-- ===== src/Academic/Teachers.antt =====
-- academic/teacher_service.go. `new_id n` gives the ids, and `clock n` the readings of the clock,
-- for the course of the n-th subject.
use kingsway_academy.Base.{
  String, ◌==◌, ◌||◌, ◌&&◌, not, Bool, true, if◌then◌else◌, List, [], ◌∷◌, ◌++◌, ℕ, suc, any,
  Option, none, some,
}
use kingsway_academy.Base.Text.{trim_space, is_empty, equal_fold}
use kingsway_academy.Domain.{
  Time, Role, Principal, User, Teacher, TeacherStatus, Course, PageRequest, Result, ok,
  invalid_input, forbidden, is_owner, teacher_status_text, refuse_if, page_slice, ◌>>=◌, ◌>>◌,
}
use kingsway_academy.Store.State.{when◌fail◌from◌otherwise◌, Memory, Outcome, if_passed, with_value}
use kingsway_academy.Store.Teachers
use kingsway_academy.Store.Teachers.{get_teacher_by_user}
use kingsway_academy.Store.Courses
use kingsway_academy.Store.Pages
use kingsway_academy.Store.Pages.{keep_text}
use kingsway_academy.Auth.Libraries.{Jwt, Bcrypt}
use kingsway_academy.Auth.Accounts.{memory_users}
use kingsway_academy.Auth.Service
use kingsway_academy.Auth.Service.{require_any_role, require_branch}
use kingsway_academy.Academic.Inputs.{RegisterTeacherInput, UpdateTeacherInput}
use kingsway_academy.Academic.Steps.{own_branch, office, is_teacher, is_student, and_then}
use kingsway_academy.Academic.Staff.{normalize_optional_teacher_gender, new_password}
use kingsway_academy.Academic.Courses.{asked_course}
use kingsway_academy.Academic.Students.{set_text}

-- The loop over the courses of a branch by name.
unfoldable pub course_named : String → List Course → Option Course
course_named name [] = none
course_named name (c ∷ cs) = if equal_fold c.name name then some c else course_named name cs

-- ensureCourseByName
unfoldable pub ensure_course_by_name :
    Time → (ℕ → String) → String → String → Memory → Outcome Course
unfolding course_named
ensure_course_by_name ts new_id branch_id name m =
    elim (course_named name (Courses.list_courses branch_id m)) [
      | some course ↦ (ok course, m)
      | none ↦
          and_then (Courses.create_course ts new_id (asked_course branch_id name) [] m)
            (λ created m'. (ok created.0, m'))
    ]

-- `if _, exists := seen[id]; !exists { courseIDs = append(courseIDs, id) }`
abbrev pub add_new : String → List String → List String
add_new id ids = if any (λ i. i == id) ids then ids else ids ++ (id ∷ [])

-- The first loop of teacherCourseIDs; `ids` has the courses so far.
unfoldable pub given_courses : String → List String → List String → Memory → Result (List String)
given_courses branch_id ids [] m = ok ids
given_courses branch_id ids (c ∷ cs) m =
    let course_id = trim_space c in
    if is_empty course_id
    then given_courses branch_id ids cs m
    else (Courses.get_course course_id m).0 >>= λ course.
        refuse_if (not (course.branch_id == branch_id)) invalid_input
        >> given_courses branch_id (add_new course.id ids) cs m

-- The second loop of teacherCourseIDs, at the n-th subject.
unfoldable pub subject_courses :
    (ℕ → Time)
    → (ℕ → ℕ → String)
    → ℕ
    → String
    → List String
    → List String
    → Memory
    → Outcome (List String)
unfolding ensure_course_by_name
subject_courses clock new_id n branch_id ids [] m = (ok ids, m)
subject_courses clock new_id n branch_id ids (s ∷ ss) m =
    let subject = trim_space s in
    let skipped = subject_courses clock new_id (suc n) branch_id ids ss m in
    let ensured = ensure_course_by_name (clock n) (new_id n) branch_id subject m in
    if is_empty subject
    then skipped
    else and_then ensured
        λ course m'. subject_courses clock new_id (suc n) branch_id (add_new course.id ids) ss m'

-- teacherCourseIDs
unfoldable pub teacher_course_ids :
    (ℕ → Time)
    → (ℕ → ℕ → String)
    → String
    → List String
    → List String
    → Memory
    → Outcome (List String)
unfolding given_courses subject_courses
teacher_course_ids clock new_id branch_id course_ids subjects m =
    with_value (given_courses branch_id [] course_ids m) m
      λ ids. subject_courses clock new_id 0 branch_id ids subjects m

-- `if len(courseIDs) > 0 { … }` at the end of RegisterTeacher and UpdateTeacher
unfoldable pub set_courses : String → List String → Memory → Outcome (Unit {0})
set_courses teacher_id [] m = (ok tt, m)
set_courses teacher_id (c ∷ cs) m =
    Teachers.replace_teacher_course_specializations teacher_id (c ∷ cs) m

abbrev pub teacher_account : String → RegisterTeacherInput → Service.CreateUserInput
teacher_account branch_id input = record {
  branch_id = branch_id;
  role = Role.teacher;
  email = input.email;
  password = input.password;
  first_name = input.first_name;
  last_name = input.last_name;
}

abbrev pub asked_teacher : String → String → RegisterTeacherInput → Teacher
asked_teacher branch_id user_id input = record {
  id = "";
  branch_id = branch_id;
  user_id = user_id;
  status = TeacherStatus.pending;
  birth_date = trim_space input.birth_date;
  gender = normalize_optional_teacher_gender input.gender;
  phone = trim_space input.phone;
  address = trim_space input.address;
  profile_photo_file_id = trim_space input.profile_photo_file_id;
  created_at = 0;
  updated_at = 0;
}

-- RegisterTeacher; what is written before an error stays written
unfoldable pub register_teacher :
    Jwt
    → Bcrypt
    → String
    → Time
    → Time
    → (ℕ → Time)
    → String
    → String
    → (ℕ → ℕ → String)
    → Principal
    → RegisterTeacherInput
    → Memory
    → Outcome (Teacher × User)
unfolding teacher_course_ids set_courses
register_teacher jwt bcrypt secret ts ts' clock user_id teacher_id new_id actor input m =
    let branch_id = own_branch actor input.branch_id in
    if_passed (require_any_role actor office >> require_branch actor branch_id) m (
      when is_empty (trim_space input.first_name)
        || is_empty (trim_space input.last_name)
        || is_empty (trim_space input.email)
        || is_empty (trim_space input.password)
        || is_empty (trim_space input.phone)
      fail invalid_input
      from m
      otherwise and_then
          (Service.create_user memory_users jwt bcrypt secret ts user_id actor
            (teacher_account branch_id input) m)
          λ user m₁.
            and_then
              (Teachers.create_teacher ts' teacher_id (asked_teacher branch_id user.id input) m₁)
              λ teacher m₂.
                and_then
                  (teacher_course_ids clock new_id branch_id input.course_ids input.subjects m₂)
                  λ course_ids m₃.
                    and_then (set_courses teacher.id course_ids m₃)
                      λ done m₄. (ok (teacher, user), m₄))

-- The account as UpdateTeacher asks for it.
abbrev pub changed_account : String → UpdateTeacherInput → User → User
changed_account branch_id input user = record user {
  branch_id = branch_id;
  email = set_text input.email user.email;
  first_name = set_text input.first_name user.first_name;
  last_name = set_text input.last_name user.last_name;
}

abbrev pub changed_teacher : String → UpdateTeacherInput → Teacher → Teacher
changed_teacher branch_id input teacher = record teacher {
  branch_id = branch_id;
  birth_date = trim_space input.birth_date;
  gender = normalize_optional_teacher_gender input.gender;
  phone = trim_space input.phone;
  address = trim_space input.address;
  profile_photo_file_id = trim_space input.profile_photo_file_id;
}

-- The account of a teacher, as CurrentUser finds it for a principal with nothing but its id.
abbrev pub account_principal : String → Principal
account_principal user_id = record { user_id = user_id; branch_id = ""; role = Role.other "" }

-- UpdateTeacher; what is written before an error stays written
unfoldable pub update_teacher :
    Jwt
    → Bcrypt
    → String
    → Time
    → Time
    → (ℕ → Time)
    → (ℕ → ℕ → String)
    → Principal
    → UpdateTeacherInput
    → Memory
    → Outcome Teacher
unfolding teacher_course_ids set_courses
update_teacher jwt bcrypt secret ts ts' clock new_id actor input m =
    if_passed (require_any_role actor office) m (
      with_value (Teachers.get_teacher (trim_space input.id) m).0 m λ teacher.
        if_passed (require_branch actor teacher.branch_id) m (
          with_value
            (Service.current_user memory_users jwt bcrypt secret (account_principal teacher.user_id)
              m)
            m
            λ user.
              let branch_id =
                if is_owner actor && not (is_empty (trim_space input.branch_id))
                then trim_space input.branch_id
                else teacher.branch_id in
              let account = changed_account branch_id input user in
              if_passed (require_branch actor branch_id) m (
                when is_empty (trim_space account.email)
                  || is_empty (trim_space account.first_name)
                  || is_empty (trim_space account.last_name)
                  || is_empty (trim_space (trim_space input.phone))
                fail invalid_input
                from m
                otherwise with_value (new_password bcrypt input.password) m λ hash.
                  and_then
                    (Teachers.update_teacher_account ts ts'
                      (changed_teacher branch_id input teacher) account hash m)
                    λ updated m₁.
                      and_then
                        (teacher_course_ids clock new_id updated.0.branch_id input.course_ids
                          input.subjects m₁)
                        λ course_ids m₂.
                          and_then (set_courses teacher.id course_ids m₂)
                            λ done m₃. (ok updated.0, m₃))))

-- ActivateTeacher
unfoldable pub activate_teacher : Time → Principal → String → Memory → Outcome Teacher
activate_teacher ts actor teacher_id m = if_passed (require_any_role actor (Role.owner ∷ [])) m (
    with_value (Teachers.get_teacher teacher_id m).0 m
      λ teacher. Teachers.update_teacher ts (record teacher { status = TeacherStatus.active }) m)

-- ListTeachers
unfoldable pub list_teachers : Principal → String → Memory → Result (List Teacher)
list_teachers actor given m =
    let branch_id = own_branch actor given in
    if is_owner actor && is_empty branch_id
    then ok (Teachers.list_teachers "" m)
    else require_branch actor branch_id
      >> (if is_teacher actor
          then ((get_teacher_by_user actor.user_id m).0 >>= λ current. ok (current ∷ []))
          else if is_student actor
          then ok []
          else ok (Teachers.list_teachers branch_id m))

-- Is the text of the status one of the named ones, or unset?
unfoldable pub is_teacher_status_or_unset : TeacherStatus → Bool
is_teacher_status_or_unset (TeacherStatus.other s) =
    is_empty s || s == "pending_owner_approval" || s == "active" || s == "terminated"
is_teacher_status_or_unset _ = true

-- ListTeachersPage
unfoldable pub list_teachers_page :
    Principal → String → TeacherStatus → PageRequest → Memory → Result (List Teacher × ℕ)
unfolding list_teachers
list_teachers_page actor given status page m =
    let branch_id = trim_space (own_branch actor given) in
    refuse_if (not (is_teacher_status_or_unset status)) invalid_input
    >> (if is_teacher actor || is_student actor
        then (list_teachers actor given m >>= λ teachers. ok (
            page_slice
              (keep_text (λ t. teacher_status_text t.status) (teacher_status_text status) teachers)
              page))
        else if is_owner actor && is_empty branch_id
        then ok (Pages.list_teachers_page "" status page m)
        else require_branch actor branch_id
          >> ok (Pages.list_teachers_page branch_id status page m))

-- GetTeacher
unfoldable pub get_teacher : Principal → String → Memory → Result Teacher
get_teacher actor id m = (Teachers.get_teacher (trim_space id) m).0 >>= λ teacher.
    require_branch actor teacher.branch_id
    >> (if is_teacher actor
        then ((get_teacher_by_user actor.user_id m).0 >>= λ current.
            refuse_if (not (current.id == teacher.id)) forbidden >> ok teacher)
        else ok teacher)
