-- ===== src/Store/Students.antt =====
-- The students of memory.go, with their parents' contacts and their course registrations.
-- `new_id n` is the result of the n-th call of `newID` in a method, counted from 0.
use kingsway_academy.Base.{
  ℕ, ◌+◌, String, ◌==◌, ◌||◌, ◌&&◌, not, Bool, true, false, none, some, if◌then◌else◌, List, [],
  ◌∷◌,
}
use kingsway_academy.Base.Int.{pos, ltb_ℤ}
use kingsway_academy.Base.Text.{is_empty, text_lt}
use kingsway_academy.Base.Sort.{sort_slice}
use kingsway_academy.Map.{lookup, contains, insert, values_where, update_where}
use kingsway_academy.Domain.{
  Time, Role, Student, StudentStatus, TeacherStatus, Student, StudentParentContact,
  StudentCourseRegistration, StudentTeacherAssignment, Result, ok, err, invalid_input, conflict,
  not_found, eq_role, refuse_if, ◌>>◌, ◌>>=◌,
}
use kingsway_academy.Store.State.{when◌fail◌from◌otherwise◌, Memory, Outcome, if_passed, with_row}

-- An unset status becomes active.
abbrev pub default_student_status : StudentStatus → StudentStatus
default_student_status (StudentStatus.other s) =
    if is_empty s then StudentStatus.active else StudentStatus.other s
default_student_status s = s

abbrev pub is_left : StudentStatus → Bool
is_left StudentStatus.left = true
is_left _ = false

abbrev pub is_active_teacher : TeacherStatus → Bool
is_active_teacher TeacherStatus.active = true
is_active_teacher _ = false

-- The checks that CreateStudent and CreateStudentWithDetails begin with.
unfoldable pub check_new_student : Student → Memory → Result (Unit {0})
check_new_student student m = do
  refuse_if (not (contains student.branch_id m.branches)) not_found
  refuse_if (is_empty student.first_name || is_empty student.last_name || is_empty student.fin)
      invalid_input
  refuse_if (is_left (default_student_status student.status) && is_empty student.left_reason)
      invalid_input
  refuse_if (contains student.fin m.students_by_fin) conflict

-- The row that both store.
unfoldable pub new_student : Time → String → Student → Student
new_student ts id student = record student {
  id = id;
  status = default_student_status student.status;
  created_at = ts;
  updated_at = ts;
}

abbrev pub store_student : Student → Memory → Memory
store_student row m = record m {
  students = insert row.id row m.students;
  students_by_fin = insert row.fin row.id m.students_by_fin;
}

-- CreateStudent
unfoldable pub create_student : Time → String → Student → Memory → Outcome Student
unfolding check_new_student new_student
create_student ts id student m =
    let row = new_student ts id student in
    if_passed (check_new_student student m) m (ok row, store_student row m)

abbrev no_phones : List String → Bool
no_phones [] = true
no_phones (p ∷ ps) = false

-- The check of a contact, for a student of the branch.
unfoldable pub check_contact : String → StudentParentContact → Result (Unit {0})
check_contact branch_id c =
    refuse_if
      (not (c.branch_id == branch_id)
        || is_empty c.relation
        || is_empty c.name
        || no_phones c.phones)
      invalid_input

-- The check of a registration, for a student of the branch.
unfoldable pub check_registration : String → StudentCourseRegistration → Memory → Result (Unit {0})
check_registration branch_id r m = elim (lookup r.course_id m.courses) [
  | none ↦ err not_found
  | some course ↦
      if not (r.branch_id == branch_id)
        || not (course.branch_id == branch_id)
        || ltb_ℤ r.monthly_amount_cents (pos 0)
        || is_empty r.start_date
      then err invalid_input
      else if is_empty r.teacher_id
      then ok tt
      else elim (lookup r.teacher_id m.teachers) [
        | none ↦ err not_found
        | some teacher ↦
            refuse_if
              (not (teacher.branch_id == branch_id) || not (is_active_teacher teacher.status))
              invalid_input
      ]
]

unfoldable pub check_contacts : String → List StudentParentContact → Result (Unit {0})
unfolding check_contact
check_contacts branch_id [] = ok tt
check_contacts branch_id (c ∷ cs) =
    let rest = check_contacts branch_id cs in do check_contact branch_id c; rest

unfoldable pub check_registrations :
    String → List StudentCourseRegistration → Memory → Result (Unit {0})
unfolding check_registration
check_registrations branch_id [] m = ok tt
check_registrations branch_id (r ∷ rs) m =
    let rest = check_registrations branch_id rs m in do check_registration branch_id r m; rest

-- assignStudentTeacher: the open assignments of the student end where the new one begins.
unfoldable pub assign_student_teacher :
    String → Student → StudentCourseRegistration → Time → Memory → Memory
assign_student_teacher id student r ts m =
    let is_open = λ (a : StudentTeacherAssignment).
      a.student_id == student.id && a.branch_id == student.branch_id && is_empty a.valid_to in
    let closed =
      update_where is_open (λ k a. record a { valid_to = r.start_date })
        m.student_teacher_assignments in
    record m {
      student_teacher_assignments =
          insert id
            (record {
              id = id;
              branch_id = student.branch_id;
              student_id = student.id;
              teacher_id = r.teacher_id;
              class_id = "";
              valid_from = r.start_date;
              valid_to = "";
              reason = "initial";
              created_at = ts;
            })
            closed;
    }

module _ (new_id : ℕ → String) (student : Student) where
  -- One contact; `n` calls of `newID` came before.
  unfoldable pub store_contact : ℕ → Time → StudentParentContact → Memory → Memory
  store_contact n ts c m = record m {
    student_parents =
        insert (new_id n) (record c { id = new_id n; student_id = student.id; created_at = ts })
          m.student_parents;
  }

  unfoldable pub registration_row : ℕ → Time → StudentCourseRegistration → StudentCourseRegistration
  registration_row n ts r = record r { id = new_id n; student_id = student.id; created_at = ts }

  -- One registration, and the assignment of its teacher if it names one.
  unfoldable pub store_registration : ℕ → Time → StudentCourseRegistration → Memory → Memory
  unfolding registration_row assign_student_teacher
  store_registration n ts r m =
      let row = registration_row n ts r in
      let stored = record m { student_courses = insert (new_id n) row m.student_courses } in
      if is_empty r.teacher_id
      then stored
      else assign_student_teacher (new_id (n + 1)) student row ts stored

  -- How many ids the registration takes.
  abbrev pub ids_taken : StudentCourseRegistration → ℕ
  ids_taken r = if is_empty r.teacher_id then 1 else 2

  unfoldable pub store_contacts : ℕ → Time → List StudentParentContact → Memory → ℕ × Memory
  unfolding store_contact
  store_contacts n ts [] m = (n, m)
  store_contacts n ts (c ∷ cs) m = store_contacts (n + 1) ts cs (store_contact n ts c m)

  unfoldable pub store_registrations : ℕ → Time → List StudentCourseRegistration → Memory → Memory
  unfolding store_registration
  store_registrations n ts [] m = m
  store_registrations n ts (r ∷ rs) m =
      store_registrations (n + ids_taken r) ts rs (store_registration n ts r m)

  -- The loop of CreateStudentParentContacts; the clock is read for each contact.
  unfoldable pub add_contacts :
      ℕ → (ℕ → Time) → List StudentParentContact → Memory → Outcome (List StudentParentContact)
  unfolding check_contact store_contact
  add_contacts n clock [] m = (ok [], m)
  add_contacts n clock (c ∷ cs) m =
      let row = record c { id = new_id n; student_id = student.id; created_at = clock n } in
      let rest = add_contacts (n + 1) clock cs (store_contact n (clock n) c m) in
      if_passed (check_contact student.branch_id c) m (rest.0 >>= (λ rows. ok (row ∷ rows)), rest.1)

  -- The loop of CreateStudentCourseRegistrations.
  unfoldable pub add_registrations :
      ℕ → Time → List StudentCourseRegistration → Memory → Outcome (List StudentCourseRegistration)
  unfolding check_registration store_registration
  add_registrations n ts [] m = (ok [], m)
  add_registrations n ts (r ∷ rs) m =
      let rest = add_registrations (n + ids_taken r) ts rs (store_registration n ts r m) in
      if_passed (check_registration student.branch_id r m) m
        (rest.0 >>= (λ rows. ok (registration_row n ts r ∷ rows)), rest.1)

-- CreateStudentWithDetails
unfoldable pub create_student_with_details :
    Time
    → (ℕ → String)
    → Student
    → List StudentParentContact
    → List StudentCourseRegistration
    → Memory
    → Outcome Student
unfolding check_new_student check_contacts check_registrations new_student
create_student_with_details ts new_id student contacts registrations m =
    let checks : Result (Unit {0}) =
      check_new_student student m
      >> check_contacts student.branch_id contacts
      >> check_registrations student.branch_id registrations m in
    let row = new_student ts (new_id 0) student in
    let (n, m') = store_contacts new_id row 1 ts contacts (store_student row m) in
    if_passed checks m (ok row, store_registrations new_id row n ts registrations m')

-- CreateStudentParentContacts
unfoldable pub create_student_parent_contacts :
    (ℕ → Time)
    → (ℕ → String)
    → String
    → List StudentParentContact
    → Memory
    → Outcome (List StudentParentContact)
unfolding add_contacts
create_student_parent_contacts clock new_id student_id contacts m =
    with_row (lookup student_id m.students) m (λ s. add_contacts new_id s 0 clock contacts m)

-- CreateStudentCourseRegistrations
unfoldable pub create_student_course_registrations :
    Time
    → (ℕ → String)
    → String
    → List StudentCourseRegistration
    → Memory
    → Outcome (List StudentCourseRegistration)
unfolding add_registrations
create_student_course_registrations ts new_id student_id registrations m =
    with_row (lookup student_id m.students) m (λ s. add_registrations new_id s 0 ts registrations m)

-- GetStudent
unfoldable pub get_student : String → Memory → Outcome Student
get_student id m = with_row (lookup id m.students) m (λ student. (ok student, m))

-- UpdateStudent
unfoldable pub update_student : Time → Student → Memory → Outcome Student
update_student ts student m = with_row (lookup student.id m.students) m λ existing.
    let row = record student { created_at = existing.created_at; updated_at = ts } in
    let stored : Outcome Student =
      (ok row, record m { students = insert student.id row m.students }) in
    when not (existing.branch_id == student.branch_id) || not (student.fin == existing.fin)
    fail invalid_input
    from m
    otherwise if is_empty student.user_id
    then stored
    else with_row (lookup student.user_id m.users) m λ user.
      when not (user.branch_id == student.branch_id) || not (eq_role user.role Role.student)
      fail invalid_input
      from m
      otherwise stored

-- The order of the listings by name.
abbrev student_less : Student → Student → Bool
student_less s t =
    if s.last_name == t.last_name
    then text_lt s.first_name t.first_name
    else text_lt s.last_name t.last_name

-- ListStudents
unfoldable pub list_students : String → Memory → List Student
list_students branch_id m =
    sort_slice student_less
      (values_where (λ s. is_empty branch_id || s.branch_id == branch_id) m.students)
