-- ===== src/Academic/Students.antt =====
-- academic/student_service.go.
use kingsway_academy.Base.{
  String, ◌==◌, ◌||◌, ◌&&◌, not, Bool, true, false, if◌then◌else◌, List, [], ◌∷◌, ℕ, any, map, keep,
}
use kingsway_academy.Base.Int.{pos, ltb_ℤ}
use kingsway_academy.Base.Text.{trim_space, is_empty, to_lower}
use kingsway_academy.Domain.{
  Time, Role, Principal, User, Student, StudentStatus, StudentParentContact,
  StudentCourseRegistration, PageRequest, Result, ok, invalid_input, forbidden, conflict, is_owner,
  parse_fin, student_status_text, refuse_if, page_slice, ◌>>=◌, ◌>>◌,
}
use kingsway_academy.Store.State.{when◌fail◌from◌otherwise◌, Memory, Outcome, if_passed, with_value}
use kingsway_academy.Store.Students
use kingsway_academy.Store.Students.{is_active_teacher}
use kingsway_academy.Store.Courses.{get_course}
use kingsway_academy.Store.Teachers.{get_teacher}
use kingsway_academy.Store.Listings
use kingsway_academy.Store.Pages
use kingsway_academy.Store.Pages.{keep_text}
use kingsway_academy.Auth.Libraries.{Jwt, Bcrypt}
use kingsway_academy.Auth.Accounts.{memory_users}
use kingsway_academy.Auth.Service
use kingsway_academy.Auth.Service.{require_any_role, require_branch}
use kingsway_academy.Academic.Inputs.{
  CreateStudentInput, StudentParentInput, StudentCourseAssignInput, CreateStudentAccountInput,
  UpdateStudentInput,
}
use kingsway_academy.Academic.Steps.{own_branch, office, is_teacher, is_student, and_then}
use kingsway_academy.Academic.Dates.{valid_short_date}
use kingsway_academy.Academic.Filters.{filter_students_for_actor}

abbrev is_relation : String → Bool
is_relation r = r == "father" || r == "mother" || r == "sister" || r == "brother" || r == "other"

-- Is nothing of the parent filled in?
unfoldable pub is_blank_parent : StudentParentInput → Bool
is_blank_parent item =
    is_empty (trim_space (to_lower item.relation))
    && is_empty (trim_space item.name)
    && (elim item.phones [ [] ↦ true | p ∷ ps ↦ false ])

-- One parent's contact, or why it is refused.
unfoldable pub parent_contact : String → StudentParentInput → Result StudentParentContact
parent_contact branch_id item =
    let relation = trim_space (to_lower item.relation) in
    let name = trim_space item.name in
    let phones = keep (λ p. not (is_empty p)) (map trim_space item.phones) in
    refuse_if (not (is_relation relation)) invalid_input
    >> refuse_if (is_empty name) invalid_input
    >> refuse_if (elim phones [ [] ↦ true | p ∷ ps ↦ false ]) invalid_input
    >> ok (record {
      id = "";
      branch_id = branch_id;
      student_id = "";
      relation = relation;
      name = name;
      phones = phones;
      created_at = 0;
    })

-- buildStudentParentContacts
unfoldable pub build_student_parent_contacts :
    String → List StudentParentInput → Result (List StudentParentContact)
unfolding is_blank_parent parent_contact
build_student_parent_contacts branch_id [] = ok []
build_student_parent_contacts branch_id (item ∷ items) =
    let others = build_student_parent_contacts branch_id items in
    if is_blank_parent item
    then others
    else parent_contact branch_id item >>= λ contact. others >>= λ rest. ok (contact ∷ rest)

-- The teacher of a course, if one is named, is an active one of the branch.
unfoldable pub check_course_teacher : String → String → Memory → Result (Unit {0})
check_course_teacher branch_id teacher_id m =
    if is_empty teacher_id
    then ok tt
    else (get_teacher teacher_id m).0 >>= λ teacher.
        refuse_if (not (teacher.branch_id == branch_id) || not (is_active_teacher teacher.status))
          invalid_input

-- One registration, or why it is refused.
unfoldable pub course_registration :
    String → StudentCourseAssignInput → Memory → Result StudentCourseRegistration
unfolding check_course_teacher
course_registration branch_id item m =
    let course_id = trim_space item.course_id in
    let teacher_id = trim_space item.teacher_id in
    (get_course course_id m).0 >>= λ course.
    refuse_if
      (not (course.branch_id == branch_id)
        || not course.is_active
        || ltb_ℤ item.monthly_amount_cents (pos 0))
      invalid_input
    >> refuse_if (not (valid_short_date item.start_date)) invalid_input
    >> check_course_teacher branch_id teacher_id m
    >> ok (record {
      id = "";
      branch_id = branch_id;
      student_id = "";
      course_id = course_id;
      teacher_id = teacher_id;
      monthly_amount_cents = item.monthly_amount_cents;
      start_date = trim_space item.start_date;
      created_at = 0;
    })

-- buildStudentCourseRegistrations; `seen` has the courses of the items before
unfoldable pub build_student_course_registrations :
    String
    → List String
    → List StudentCourseAssignInput
    → Memory
    → Result (List StudentCourseRegistration)
unfolding course_registration
build_student_course_registrations branch_id seen [] m = ok []
build_student_course_registrations branch_id seen (item ∷ items) m =
    let course_id = trim_space item.course_id in
    let skipped = build_student_course_registrations branch_id seen items m in
    let others = build_student_course_registrations branch_id (course_id ∷ seen) items m in
    if is_empty course_id
    then skipped
    else refuse_if (any (λ c. c == course_id) seen) invalid_input
      >> (course_registration branch_id item m >>= λ row. others >>= λ rest. ok (row ∷ rest))

-- The test of the gender and of the birth date, which may both be left out.
unfoldable pub check_gender : String → Result (Unit {0})
check_gender gender =
    refuse_if
      (not (is_empty gender)
        && not (gender == "male")
        && not (gender == "female")
        && not (gender == "other"))
      invalid_input

unfoldable pub check_birth_date : String → Result (Unit {0})
check_birth_date birth_date =
    refuse_if (not (is_empty (trim_space birth_date)) && not (valid_short_date birth_date))
      invalid_input

abbrev pub asked_student : String → String → CreateStudentInput → Student
asked_student branch_id fin input = record {
  id = "";
  branch_id = branch_id;
  user_id = "";
  fin = fin;
  first_name = trim_space input.first_name;
  last_name = trim_space input.last_name;
  birth_date = trim_space input.birth_date;
  gender = trim_space input.gender;
  phone = trim_space input.phone;
  address = trim_space input.address;
  profile_photo_file_id = trim_space input.profile_photo_file_id;
  status = input.status;
  left_reason = trim_space input.left_reason;
  created_at = 0;
  updated_at = 0;
}

-- CreateStudent
unfoldable pub create_student :
    Time → (ℕ → String) → Principal → CreateStudentInput → Memory → Outcome Student
unfolding check_gender check_birth_date build_student_parent_contacts
    build_student_course_registrations
create_student ts new_id actor input m =
    let branch_id = own_branch actor input.branch_id in
    if_passed (require_any_role actor office >> require_branch actor branch_id) m (
      with_value (parse_fin input.fin) m λ fin.
        when is_empty (trim_space input.first_name) || is_empty (trim_space input.last_name)
        fail invalid_input
        from m
        otherwise if_passed (check_gender input.gender >> check_birth_date input.birth_date) m (
            with_value (build_student_parent_contacts branch_id input.parents) m λ parents.
              with_value (build_student_course_registrations branch_id [] input.courses m) m
                λ registrations.
                  Students.create_student_with_details ts new_id (asked_student branch_id fin input)
                    parents registrations m))

-- GetStudentByFIN
unfoldable pub get_student_by_fin : Principal → String → Memory → Result Student
get_student_by_fin actor fin_value m = parse_fin fin_value >>= λ fin.
    (Listings.get_student_by_fin fin m).0 >>= λ student.
    require_branch actor student.branch_id >> ok student

-- GetStudent
unfoldable pub get_student : Principal → String → Memory → Result Student
get_student actor id m = (Students.get_student (trim_space id) m).0 >>= λ student.
    require_branch actor student.branch_id
    >> refuse_if (is_student actor && not (student.user_id == actor.user_id)) forbidden
    >> ok student

-- A text that is set replaces the stored one.
abbrev pub set_text : String → String → String
set_text given stored = if is_empty (trim_space given) then stored else trim_space given

-- Is the text of the status one of the named ones, or unset?
unfoldable pub is_status_or_unset : StudentStatus → Bool
is_status_or_unset (StudentStatus.other s) =
    is_empty s || s == "active" || s == "left" || s == "graduated"
is_status_or_unset _ = true

-- The student as UpdateStudent changes it.
abbrev pub changed_student : UpdateStudentInput → Student → Student
changed_student input student = record student {
  first_name = set_text input.first_name student.first_name;
  last_name = set_text input.last_name student.last_name;
  birth_date = trim_space input.birth_date;
  gender = trim_space input.gender;
  phone = trim_space input.phone;
  address = trim_space input.address;
  profile_photo_file_id = trim_space input.profile_photo_file_id;
  status = if is_empty (student_status_text input.status) then student.status else input.status;
  left_reason = trim_space input.left_reason;
}

-- UpdateStudent
unfoldable pub update_student :
    Time → Principal → String → UpdateStudentInput → Memory → Outcome Student
unfolding check_gender check_birth_date
update_student ts actor id input m = if_passed (require_any_role actor office) m (
    with_value (Students.get_student (trim_space id) m).0 m λ student.
      if_passed
        (require_branch actor student.branch_id
          >> check_birth_date input.birth_date
          >> check_gender input.gender
          >> refuse_if (not (is_status_or_unset input.status)) invalid_input)
        m (Students.update_student ts (changed_student input student) m))

-- The account that CreateStudentAccount asks for.
abbrev pub student_account : Student → CreateStudentAccountInput → Service.CreateUserInput
student_account student input = record {
  branch_id = student.branch_id;
  role = Role.student;
  email = input.email;
  password = input.password;
  first_name =
      if is_empty (trim_space input.first_name) then student.first_name else input.first_name;
  last_name = if is_empty (trim_space input.last_name) then student.last_name else input.last_name;
}

-- CreateStudentAccount; an account whose student is not updated stays
unfoldable pub create_student_account :
    Jwt
    → Bcrypt
    → String
    → Time
    → Time
    → String
    → Principal
    → String
    → CreateStudentAccountInput
    → Memory
    → Outcome (Student × User)
create_student_account jwt bcrypt secret ts ts' user_id actor student_id input m =
    if_passed (require_any_role actor office) m (
      with_value (Students.get_student (trim_space student_id) m).0 m λ student.
        if_passed (require_branch actor student.branch_id) m (
          when not (is_empty student.user_id)
          fail conflict
          from m
          otherwise and_then
              (Service.create_user memory_users jwt bcrypt secret ts user_id actor
                (student_account student input) m)
              λ user m'.
                and_then (Students.update_student ts' (record student { user_id = user.id }) m')
                  λ updated m''. (ok (updated, user), m'')))

-- ListStudents
unfoldable pub list_students : Principal → String → Memory → Result (List Student)
list_students actor given m =
    let branch_id = own_branch actor given in
    if is_owner actor && is_empty branch_id
    then ok (Students.list_students "" m)
    else require_branch actor branch_id
      >> filter_students_for_actor actor (Students.list_students branch_id m) m

-- ListStudentsPage
unfoldable pub list_students_page :
    Principal → String → StudentStatus → PageRequest → Memory → Result (List Student × ℕ)
unfolding list_students
list_students_page actor given status page m =
    let branch_id = trim_space (own_branch actor given) in
    refuse_if (not (is_status_or_unset status)) invalid_input
    >> (if is_teacher actor || is_student actor
        then (list_students actor given m >>= λ students. ok (
            page_slice
              (keep_text (λ s. student_status_text s.status) (student_status_text status) students)
              page))
        else if is_owner actor && is_empty branch_id
        then ok (Pages.list_students_page "" status page m)
        else require_branch actor branch_id
          >> ok (Pages.list_students_page branch_id status page m))
