-- ===== src/Academic/Refinement/People.antt =====
-- The accounts that the academic services make, and the teachers, as runs of calls of the store.
use kingsway_academy.Base.{
  ℕ, suc, String, ◌≡◌, refl, sym, arith, ap, some, none, ◌∙◌, List, [], ◌∷◌, inl, inr, Bool-cases,
  Option-cases, ◌==◌,
}
use kingsway_academy.Base.Text.{trim_space}
use kingsway_academy.Domain.{Time, Principal, User, Teacher, ok, ok_or_err, ◌>>=◌}
use kingsway_academy.Map.{lookup}
use kingsway_academy.Store.State.{Memory, with_row}
use kingsway_academy.Store.Keeps.{
  Keeps, keeps_ok, keeps_refuse, keeps_when, keeps_if_passed, keeps_with_value,
}
use kingsway_academy.Store.Reach.{Reach, here, next, Call}
use kingsway_academy.Store.Indexes.{Indexes}
use kingsway_academy.Store.Courses
use kingsway_academy.Store.Users
use kingsway_academy.Store.Teachers
use kingsway_academy.Auth.Libraries.{Jwt, Bcrypt}
use kingsway_academy.Auth.Accounts.{memory_users}
use kingsway_academy.Auth.Service
use kingsway_academy.Auth.Service.{allowed_branch, hash_password, asked_user, CreateUserInput}
use kingsway_academy.Academic.Inputs.{
  CreateStudentAccountInput, RegisterTeacherInput, UpdateTeacherInput,
}
use kingsway_academy.Academic.Students.{create_student_account}
use kingsway_academy.Academic.Teachers.{
  register_teacher, update_teacher, activate_teacher, teacher_course_ids, subject_courses,
  ensure_course_by_name, course_named, set_courses, add_new,
}
use kingsway_academy.Academic.Isolation.Guards.{keeps_and_then}
use kingsway_academy.Academic.Refinement.Steps.{stepped, one}

-- A run that leaves the teachers alone.
pub record SparesTeachers (m m' : Memory) : Type 0 where
  pub run : Reach m m'
  pub teachers : m'.teachers ≡ m.teachers

create_user-teachers :
    (ts : Time) (id : String) (u : User) (m : Memory)
    → Keeps (λ m'. m'.teachers ≡ m.teachers) (Users.create_user ts id u m)
unfolding Users.create_user
create_user-teachers ts id u m = keeps_when _ _ _ _ refl λ p.
    keeps_when _ _ _ _ refl
      λ q. keeps_when _ _ _ _ refl λ r. keeps_when _ _ _ _ refl λ s. keeps_ok refl

user_stored :
    (ts : Time) (id : String) (u : User) (m : Memory)
    → lookup id m.users ≡ none
    → Keeps (SparesTeachers m) (Users.create_user ts id u m)
user_stored ts id u m fresh = record {
  kept = record {
    run = next here (Call.create_user m ts id u fresh);
    teachers = (create_user-teachers ts id u m).kept;
  };
}

account_stored :
    (jwt : Jwt) (bcrypt : Bcrypt) (secret : String) (ts : Time) (id : String) (actor : Principal)
    (input : CreateUserInput) (m : Memory)
    → lookup id m.users ≡ none
    → Keeps
        (SparesTeachers m)
        (Service.create_user memory_users jwt bcrypt secret ts id actor input m)
unfolding Service.create_user
account_stored jwt bcrypt secret ts id actor input m fresh =
    elim (ok_or_err (
      allowed_branch actor input >>= λ branch_id.
      hash_password bcrypt input.password >>= λ hash. ok (asked_user input branch_id hash))) [
        | inl (user, asked) ↦ rw (asked, Service.create_user) (user_stored ts id user m fresh)
        | inr (e, refused) ↦
            rw (refused, Service.create_user)
              (keeps_refuse (record { run = here; teachers = refl }))
      ]

module _ (m : Memory) where
  course_ensured :
      (ts : Time) (new_id : ℕ → String) (b name : String) (m' : Memory)
      → Reach m m'
      → Keeps (Reach m) (ensure_course_by_name ts new_id b name m')
  unfolding ensure_course_by_name
  course_ensured ts new_id b name m' r =
      elim (Option-cases (course_named name (Courses.list_courses b m'))) [
        | inl new ↦
            rw (new, ensure_course_by_name)
              (keeps_and_then _ _ (stepped r (Call.create_course m' ts new_id _ []))
                λ created m'' done x. keeps_ok x)
        | inr (course, found) ↦ rw (found, ensure_course_by_name) (keeps_ok r)
      ]

  subjects_ensured :
      (clock : ℕ → Time) (new_id : ℕ → ℕ → String) (n : ℕ) (b : String) (ids subjects : List String)
      (m' : Memory)
      → Reach m m'
      → Keeps (Reach m) (subject_courses clock new_id n b ids subjects m')
  unfolding subject_courses
  subjects_ensured clock new_id n b ids [] m' r = keeps_ok r
  subjects_ensured clock new_id n b ids (s ∷ ss) m' r = elim (Bool-cases (trim_space s == "")) [
    | inl blank ↦ rw blank (subjects_ensured clock new_id (suc n) b ids ss m' r)
    | inr named ↦ rw named (
        keeps_and_then _ _ (course_ensured (clock n) (new_id n) b (trim_space s) m' r)
          λ course m'' done x.
            subjects_ensured clock new_id (suc n) b (add_new course.id ids) ss m'' x)
  ]

  courses_found :
      (clock : ℕ → Time) (new_id : ℕ → ℕ → String) (b : String) (given subjects : List String)
      (m' : Memory)
      → Reach m m'
      → Keeps (Reach m) (teacher_course_ids clock new_id b given subjects m')
  unfolding teacher_course_ids
  courses_found clock new_id b given subjects m' r =
      keeps_with_value _ _ _ r λ ids checked. subjects_ensured clock new_id 0 b ids subjects m' r

  courses_set :
      (id : String) (ids : List String) (m' : Memory)
      → Reach m m'
      → Keeps (Reach m) (set_courses id ids m')
  unfolding set_courses
  courses_set id [] m' r = keeps_ok r
  courses_set id (i ∷ is) m' r =
      stepped r (Call.replace_teacher_course_specializations m' id (i ∷ is))

  pub student_account_created :
      (jwt : Jwt) (bcrypt : Bcrypt) (secret : String) (ts ts' : Time) (user_id : String)
      (actor : Principal) (id : String) (input : CreateStudentAccountInput)
      → lookup user_id m.users ≡ none
      → Keeps (Reach m) (create_student_account jwt bcrypt secret ts ts' user_id actor id input m)
  unfolding create_student_account
  student_account_created jwt bcrypt secret ts ts' user_id actor id input fresh =
      keeps_if_passed _ _ _ here λ p. keeps_with_value _ _ _ here λ student q.
        keeps_if_passed _ _ _ here λ r. keeps_when _ _ _ _ here λ s.
          keeps_and_then _ _
            (record {
              kept = (account_stored jwt bcrypt secret ts user_id actor _ m fresh).kept.run;
            })
            λ user m' made x.
              keeps_and_then _ _ (stepped x (Call.update_student m' ts' _))
                λ updated m'' done y. keeps_ok y

  pub teacher_registered :
      (jwt : Jwt) (bcrypt : Bcrypt) (secret : String) (ts ts' : Time) (clock : ℕ → Time)
      (user_id teacher_id : String) (new_id : ℕ → ℕ → String) (actor : Principal)
      (input : RegisterTeacherInput)
      → lookup user_id m.users ≡ none
      → lookup teacher_id m.teachers ≡ none
      → Keeps
          (Reach m)
          (register_teacher jwt bcrypt secret ts ts' clock user_id teacher_id new_id actor input m)
  unfolding register_teacher
  teacher_registered jwt bcrypt secret ts ts' clock user_id teacher_id new_id actor input no_user
        no_teacher =
      keeps_if_passed _ _ _ here λ p. keeps_when _ _ _ _ here λ q.
        let stored = account_stored jwt bcrypt secret ts user_id actor _ m no_user in
        keeps_and_then _ _ (record { kept = stored.kept.run })
          λ user m₁ made x.
            keeps_and_then _ _
              (stepped x (
                Call.create_teacher m₁ ts' teacher_id _ (
                  ap (λ o. lookup teacher_id o.1.teachers) (sym made)
                  ∙ ap (lookup teacher_id) stored.kept.teachers
                  ∙ no_teacher)))
              λ teacher m₂ done y.
                keeps_and_then _ _
                  (courses_found clock new_id _ input.course_ids input.subjects m₂ y)
                  λ ids m₃ found z.
                    keeps_and_then _ _ (courses_set teacher.id ids m₃ z) λ over m₄ all w. keeps_ok w

  pub teacher_updated :
      (jwt : Jwt) (bcrypt : Bcrypt) (secret : String) (ts ts' : Time) (clock : ℕ → Time)
      (new_id : ℕ → ℕ → String) (actor : Principal) (input : UpdateTeacherInput)
      → Keeps (Reach m) (update_teacher jwt bcrypt secret ts ts' clock new_id actor input m)
  unfolding update_teacher
  teacher_updated jwt bcrypt secret ts ts' clock new_id actor input =
      keeps_if_passed _ _ _ here λ p. keeps_with_value _ _ _ here λ teacher q.
        keeps_if_passed _ _ _ here λ r. keeps_with_value _ _ _ here λ user s.
          keeps_if_passed _ _ _ here λ t. keeps_when _ _ _ _ here λ u.
            keeps_with_value _ _ _ here λ hash v.
              keeps_and_then _ _ (one m (Call.update_teacher_account m ts ts' _ _ hash))
                λ updated m₁ done x.
                  keeps_and_then _ _
                    (courses_found clock new_id _ input.course_ids input.subjects m₁ x)
                    λ ids m₂ found y.
                      keeps_and_then _ _ (courses_set teacher.id ids m₂ y)
                        λ over m₃ all z. keeps_ok z

  get_teacher_found :
      (id : String) (teacher : Teacher)
      → (Teachers.get_teacher id m).0 ≡ ok teacher
      → lookup id m.teachers ≡ some teacher
  unfolding Teachers.get_teacher with_row
  get_teacher_found id teacher h = ground arith

  pub teacher_activated :
      (ts : Time) (actor : Principal) (id : String)
      → Indexes m
      → Keeps (Reach m) (activate_teacher ts actor id m)
  unfolding activate_teacher
  teacher_activated ts actor id x = keeps_if_passed _ _ _ here λ p.
      keeps_with_value _ _ _ here λ teacher got.
        let found = get_teacher_found id teacher got in
        let filed : teacher.id ≡ id = x.accounts.own id teacher found in
        let stored : lookup teacher.id m.teachers ≡ some teacher =
          ap (λ i. lookup i m.teachers) filed ∙ found in
        one m (Call.update_teacher m ts _ λ current e. ground arith)
