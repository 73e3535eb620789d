-- ===== src/Academic/Isolation/People.antt =====
-- Students and teachers: what an actor who is no owner changes by them.
use kingsway_academy.Base.{
  ℕ, suc, String, ◌≡◌, refl, false, arith, ap, some, none, ◌∙◌, List, [], ◌∷◌, inl, inr, Bool-cases,
  Option-cases, ◌==◌,
}
use kingsway_academy.Base.Text.{trim_space}
use kingsway_academy.Domain.{Time, Principal, User, Teacher, ok, is_owner, first_passed}
use kingsway_academy.Map.{lookup}
use kingsway_academy.Store.State.{Memory, with_row, when◌fail◌from◌otherwise◌}
use kingsway_academy.Store.Keeps.{Keeps, keeps_ok, keeps_when, keeps_if_passed, keeps_with_value}
use kingsway_academy.Store.Indexes.{Indexes}
use kingsway_academy.Store.Courses
use kingsway_academy.Store.Teachers
use kingsway_academy.Auth.Libraries.{Jwt, Bcrypt}
use kingsway_academy.Academic.Inputs.{
  CreateStudentInput, UpdateStudentInput, CreateStudentAccountInput, RegisterTeacherInput,
  UpdateTeacherInput,
}
use kingsway_academy.Academic.Students.{create_student, update_student, create_student_account}
use kingsway_academy.Academic.Teachers.{
  register_teacher, update_teacher, teacher_course_ids, subject_courses, ensure_course_by_name,
  course_named, set_courses, add_new,
}
use kingsway_academy.Academic.Steps.{own_branch}
use kingsway_academy.Academic.Isolation.{IsConfined, confined_refl, free_key, Table}
use kingsway_academy.Academic.Isolation.Guards.{
  keeps_and_then, keeps_after, own_branch-no_owner, branch_passed, create_account-IsConfined,
}
use kingsway_academy.Academic.Isolation.Writes.{
  create_course-IsConfined, create_teacher-IsConfined, update_teacher_account-IsConfined,
  replace_teacher_course_specializations-IsConfined, create_student_with_details-IsConfined,
  update_student-IsConfined,
}

-- The account of every teacher stands in the teacher's branch.
pub record TeachersAreHome (m : Memory) : Type 0 where
  pub home :
      (k : String) (t : Teacher) (u : User)
      → lookup k m.teachers ≡ some t
      → lookup t.user_id m.users ≡ some u
      → u.branch_id ≡ t.branch_id

-- The loop over the subjects of a teacher makes courses of the branch alone.
module _ (b : String) (m : Memory) (new_id : ℕ → ℕ → String)
    (fresh : (n : ℕ) → lookup (new_id n 0) m.courses ≡ none) where
  ensured_course :
      (ts : Time) (n : ℕ) (name : String) (m' : Memory)
      → IsConfined b m m'
      → Keeps (IsConfined b m) (ensure_course_by_name ts (new_id n) b name m')
  unfolding ensure_course_by_name
  ensured_course ts n name m' c =
      elim (Option-cases (course_named name (Courses.list_courses b m'))) [
        | inl new ↦
            rw (new, ensure_course_by_name)
              (keeps_and_then _ _
                (keeps_after b c (
                  create_course-IsConfined b m' ts (new_id n) _ [] refl
                    λ v e. free_key b c Table.courses (new_id n 0) v (fresh n) e))
                λ created m'' done x. keeps_ok x)
        | inr (course, found) ↦ rw (found, ensure_course_by_name) (keeps_ok c)
      ]

  subjects_confined :
      (clock : ℕ → Time) (n : ℕ) (ids subjects : List String) (m' : Memory)
      → IsConfined b m m'
      → Keeps (IsConfined b m) (subject_courses clock new_id n b ids subjects m')
  unfolding subject_courses
  subjects_confined clock n ids [] m' c = keeps_ok c
  subjects_confined clock n ids (s ∷ ss) m' c = elim (Bool-cases (trim_space s == "")) [
    | inl blank ↦ rw blank (subjects_confined clock (suc n) ids ss m' c)
    | inr named ↦ rw named (
        keeps_and_then _ _ (ensured_course (clock n) n (trim_space s) m' c)
          λ course m'' done x. subjects_confined clock (suc n) (add_new course.id ids) ss m'' x)
  ]

  courses_confined :
      (clock : ℕ → Time) (given subjects : List String) (m' : Memory)
      → IsConfined b m m'
      → Keeps (IsConfined b m) (teacher_course_ids clock new_id b given subjects m')
  unfolding teacher_course_ids
  courses_confined clock given subjects m' c =
      keeps_with_value _ _ _ c λ ids checked. subjects_confined clock 0 ids subjects m' c

  set_confined :
      (id : String) (ids : List String) (m' : Memory)
      → IsConfined b m m'
      → Keeps (IsConfined b m) (set_courses id ids m')
  unfolding set_courses
  set_confined id [] m' c = keeps_ok c
  set_confined id (i ∷ is) m' c =
      keeps_after b c (replace_teacher_course_specializations-IsConfined b m' id (i ∷ is))

module _ (actor : Principal) (no_owner : is_owner actor ≡ false) (m : Memory) where
  same : IsConfined actor.branch_id m m
  same = confined_refl actor.branch_id m

  own : (given : String) → own_branch actor given ≡ actor.branch_id
  own given = own_branch-no_owner actor no_owner given

  pub student_created :
      (ts : Time) (new_id : ℕ → String) (input : CreateStudentInput)
      → lookup (new_id 0) m.students ≡ none
      → Keeps (IsConfined actor.branch_id m) (create_student ts new_id actor input m)
  unfolding create_student
  student_created ts new_id input fresh = keeps_if_passed _ _ _ same λ passed.
      keeps_with_value _ _ _ same λ fin parsed. keeps_when _ _ _ _ same λ named.
        keeps_if_passed _ _ _ same λ checked. keeps_with_value _ _ _ same λ parents built.
          keeps_with_value _ _ _ same λ registrations made.
            create_student_with_details-IsConfined _ m ts new_id _ _ _ (own input.branch_id) fresh

  pub student_updated :
      (ts : Time) (id : String) (input : UpdateStudentInput)
      → Keeps (IsConfined actor.branch_id m) (update_student ts actor id input m)
  unfolding update_student
  student_updated ts id input = keeps_if_passed _ _ _ same λ allowed.
      keeps_with_value _ _ _ same λ student got. keeps_if_passed _ _ _ same λ passed.
        update_student-IsConfined _ m ts _ (
          branch_passed actor no_owner student.branch_id
            (first_passed _ _ (first_passed _ _ (first_passed _ _ passed))))

  pub student_account_created :
      (jwt : Jwt) (bcrypt : Bcrypt) (secret : String) (ts ts' : Time) (user_id id : String)
      (input : CreateStudentAccountInput)
      → lookup user_id m.users ≡ none
      → Keeps
          (IsConfined actor.branch_id m)
          (create_student_account jwt bcrypt secret ts ts' user_id actor id input m)
  unfolding create_student_account
  student_account_created jwt bcrypt secret ts ts' user_id id input fresh =
      keeps_if_passed _ _ _ same λ allowed. keeps_with_value _ _ _ same λ student got.
        keeps_if_passed _ _ _ same λ passed. keeps_when _ _ _ _ same λ bare.
          keeps_and_then _ _
            (create_account-IsConfined actor no_owner jwt bcrypt secret ts user_id _ m fresh)
            λ user m' made x.
              keeps_and_then _ _
                (keeps_after _ x (
                  update_student-IsConfined _ m' ts' _
                    (branch_passed actor no_owner student.branch_id passed)))
                λ updated m'' done y. keeps_ok y

  pub teacher_registered :
      (jwt : Jwt) (bcrypt : Bcrypt) (secret : String) (ts ts' : Time) (clock : ℕ → Time)
      (user_id teacher_id : String) (new_id : ℕ → ℕ → String) (input : RegisterTeacherInput)
      → lookup user_id m.users ≡ none
      → lookup teacher_id m.teachers ≡ none
      → ((n : ℕ) → lookup (new_id n 0) m.courses ≡ none)
      → Keeps
          (IsConfined actor.branch_id m)
          (register_teacher jwt bcrypt secret ts ts' clock user_id teacher_id new_id actor input m)
  unfolding register_teacher
  teacher_registered jwt bcrypt secret ts ts' clock user_id teacher_id new_id input no_user
        no_teacher no_course =
      rw (own input.branch_id) (
        keeps_if_passed _ _ _ same λ passed. keeps_when _ _ _ _ same λ filled.
          keeps_and_then _ _
            (create_account-IsConfined actor no_owner jwt bcrypt secret ts user_id _ m no_user)
            λ user m₁ made x.
              keeps_and_then _ _
                (keeps_after _ x (
                  create_teacher-IsConfined _ m₁ ts' teacher_id _ refl
                    λ v e. free_key _ x Table.teachers teacher_id v no_teacher e))
                λ teacher m₂ done y.
                  keeps_and_then _ _
                    (courses_confined _ m new_id no_course clock input.course_ids input.subjects m₂
                      y)
                    λ ids m₃ found z.
                      keeps_and_then _ _ (set_confined _ m new_id no_course teacher.id ids m₃ z)
                        λ over m₄ all w. keeps_ok w)

  updated_branch :
      (ts ts' : Time) (t : Teacher) (u : User) (hash : String) (updated : Teacher × User)
      (m' : Memory)
      → Teachers.update_teacher_account ts ts' t u hash m ≡ (ok updated, m')
      → updated.0.branch_id ≡ t.branch_id
  unfolding Teachers.update_teacher_account with_row when◌fail◌from◌otherwise◌
  updated_branch ts ts' t u hash updated m' h = ground arith

  get_teacher_found :
      (id : String) (teacher : Teacher)
      → (Teachers.get_teacher id m).0 ≡ ok teacher
      → lookup id m.teachers ≡ some teacher
  unfolding Teachers.get_teacher with_row
  get_teacher_found id teacher h = ground arith

  pub teacher_updated :
      (jwt : Jwt) (bcrypt : Bcrypt) (secret : String) (ts ts' : Time) (clock : ℕ → Time)
      (new_id : ℕ → ℕ → String) (input : UpdateTeacherInput)
      → ((n : ℕ) → lookup (new_id n 0) m.courses ≡ none)
      → Indexes m
      → TeachersAreHome m
      → Keeps
          (IsConfined actor.branch_id m)
          (update_teacher jwt bcrypt secret ts ts' clock new_id actor input m)
  unfolding update_teacher
  teacher_updated jwt bcrypt secret ts ts' clock new_id input no_course x at_home = rw no_owner (
      keeps_if_passed _ _ _ same λ allowed. keeps_with_value _ _ _ same λ teacher got.
        keeps_if_passed _ _ _ same λ passed. keeps_with_value _ _ _ same λ user current.
          keeps_if_passed _ _ _ same λ again. keeps_when _ _ _ _ same λ filled.
            keeps_with_value _ _ _ same λ hash hashed.
              let here : teacher.branch_id ≡ actor.branch_id =
                branch_passed actor no_owner teacher.branch_id passed in
              let found = get_teacher_found _ teacher got in
              let filed : teacher.id ≡ trim_space input.id = x.accounts.own _ teacher found in
              let stored : lookup teacher.id m.teachers ≡ some teacher =
                ap (λ i. lookup i m.teachers) filed ∙ found in
              keeps_and_then _ _
                (update_teacher_account-IsConfined _ m ts ts' _ _ hash here (λ v e. ground arith)
                  λ v w e k. (x.emails.own _ w k, at_home.home teacher.id v w e k ∙ ground arith))
                λ updated m₁ done y.
                  let b = updated_branch ts ts' _ _ hash updated m₁ done ∙ here in
                  rw b (
                    keeps_and_then _ _
                      (courses_confined _ m new_id no_course clock input.course_ids input.subjects
                        m₁ y)
                      λ ids m₂ made z.
                        keeps_and_then _ _ (set_confined _ m new_id no_course teacher.id ids m₂ z)
                          λ over m₃ all w. keeps_ok w))
