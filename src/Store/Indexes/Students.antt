-- ===== src/Store/Indexes/Students.antt =====
-- The operations on students keep the four indexes.
use kingsway_academy.Base.{
  ℕ, String, ◌≡◌, refl, ◌==◌, some, none, arith, inl, inr, List, eq_iff, Bool-cases,
}
use kingsway_academy.Map.{lookup, insert}
use kingsway_academy.Map.Index.{insert-IsIndexed, update-IsIndexed}
use kingsway_academy.Domain.{
  Student, StudentParentContact, StudentCourseRegistration, Time, ok, first_passed,
}
use kingsway_academy.Store.State.{Memory}
use kingsway_academy.Store.Keeps.{Keeps, keeps_if_passed, keeps_ok, keeps_when, keeps_with_row}
use kingsway_academy.Store.Indexes.{Indexes}
use kingsway_academy.Store.Touches.{
  IgnoresDetails, store_contacts_keeps, store_registrations_keeps, add_contacts_keeps,
  add_registrations_keeps,
}
use kingsway_academy.Store.Students.{
  check_new_student, new_student, store_student, create_student, create_student_with_details,
  create_student_parent_contacts, create_student_course_registrations, update_student,
}

-- A student whom the checks let through has a FIN that is not listed.
fin_unused :
    (student : Student) (m : Memory)
    → check_new_student student m ≡ ok tt
    → lookup student.fin m.students_by_fin ≡ none
unfolding check_new_student
fin_unused student m h = ground arith

store_student-Indexes :
    (ts : Time) (id : String) (student : Student) (m : Memory)
    → Indexes m
    → lookup id m.students ≡ none
    → check_new_student student m ≡ ok tt
    → Indexes (store_student (new_student ts id student) m)
unfolding new_student
store_student-Indexes ts id student m x fresh checked = record {
  slugs = x.slugs;
  emails = x.emails;
  fins = insert-IsIndexed _ _ x.fins id _ refl fresh (fin_unused student m checked);
  accounts = x.accounts;
}

pub create_student-Indexes :
    (ts : Time) (id : String) (student : Student) (m : Memory)
    → Indexes m
    → lookup id m.students ≡ none
    → Keeps Indexes (create_student ts id student m)
unfolding create_student
create_student-Indexes ts id student m x fresh =
    keeps_if_passed _ _ _ x
      λ checked. keeps_ok (store_student-Indexes ts id student m x fresh checked)

-- The tables of contacts, registrations and assignments have no index.
Indexes-IgnoresDetails : IgnoresDetails Indexes
Indexes-IgnoresDetails = record { moves = λ m p c a x. x }

pub create_student_with_details-Indexes :
    (ts : Time) (new_id : ℕ → String) (student : Student) (contacts : List StudentParentContact)
    (registrations : List StudentCourseRegistration) (m : Memory)
    → Indexes m
    → lookup (new_id 0) m.students ≡ none
    → Keeps Indexes (create_student_with_details ts new_id student contacts registrations m)
unfolding create_student_with_details
create_student_with_details-Indexes ts new_id student contacts registrations m x fresh =
    let row = new_student ts (new_id 0) student in
    keeps_if_passed _ _ _ x λ checked. keeps_ok (
      store_registrations_keeps Indexes-IgnoresDetails new_id row _ ts registrations _ (
        store_contacts_keeps Indexes-IgnoresDetails new_id row 1 ts contacts _ (
          store_student-Indexes ts (new_id 0) student m x fresh
            (first_passed _ _ (first_passed _ _ checked)))))

pub create_student_parent_contacts-Indexes :
    (clock : ℕ → Time) (new_id : ℕ → String) (id : String) (cs : List StudentParentContact)
    (m : Memory)
    → Indexes m
    → Keeps Indexes (create_student_parent_contacts clock new_id id cs m)
unfolding create_student_parent_contacts
create_student_parent_contacts-Indexes clock new_id id cs m x =
    keeps_with_row _ _ _ x
      λ student found. add_contacts_keeps Indexes-IgnoresDetails new_id student 0 clock cs m x

pub create_student_course_registrations-Indexes :
    (ts : Time) (new_id : ℕ → String) (id : String) (rs : List StudentCourseRegistration)
    (m : Memory)
    → Indexes m
    → Keeps Indexes (create_student_course_registrations ts new_id id rs m)
unfolding create_student_course_registrations
create_student_course_registrations-Indexes ts new_id id rs m x =
    keeps_with_row _ _ _ x
      λ student found. add_registrations_keeps Indexes-IgnoresDetails new_id student 0 ts rs m x

update_row-Indexes :
    (student existing : Student) (m : Memory)
    → Indexes m
    → lookup student.id m.students ≡ some existing
    → student.fin ≡ existing.fin
    → Indexes (record m { students = insert student.id student m.students })
update_row-Indexes student existing m x found same = record {
  slugs = x.slugs;
  emails = x.emails;
  fins = update-IsIndexed _ _ x.fins student.id student existing refl found same;
  accounts = x.accounts;
}

pub update_student-Indexes :
    (ts : Time) (student : Student) (m : Memory)
    → Indexes m
    → Keeps Indexes (update_student ts student m)
unfolding update_student
update_student-Indexes ts student m x = keeps_with_row _ _ _ x λ existing found.
    keeps_when _ _ _ _ x λ same.
      let stored =
        update_row-Indexes (record student { created_at = existing.created_at; updated_at = ts })
          existing m x found (ground (arith, eq_iff student.fin existing.fin)) in
      elim (Bool-cases (student.user_id == "")) [
        | inl no_user ↦ rw no_user (keeps_ok stored)
        | inr has_user ↦
            rw has_user
              (keeps_with_row _ _ _ x λ user known. keeps_when _ _ _ _ x λ right. keeps_ok stored)
      ]
