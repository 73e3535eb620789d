-- ===== src/Store/Enrolment.antt =====
-- A student with contacts and registrations is stored as a whole: CreateStudentWithDetails of
-- memory.go.
use kingsway_academy.Base.{ℕ, String, ◌≡◌, refl, arith, List, eq_refl, some, ap, sym, subst}
use kingsway_academy.Map.{lookup, lookup-insert}
use kingsway_academy.Domain.{
  Time, Student, StudentParentContact, StudentCourseRegistration, Error, Result, ok, err,
}
use kingsway_academy.Store.State.{Memory, if_passed}
use kingsway_academy.Store.Touches.{IgnoresDetails, store_contacts_keeps, store_registrations_keeps}
use kingsway_academy.Store.Students.{create_student_with_details, new_student, store_student}

-- The student stands in both tables.
pub record IsEnrolled (student : Student) (m : Memory) : Type 0 where
  pub stored : lookup student.id m.students ≡ some student
  pub listed : lookup student.fin m.students_by_fin ≡ some student.id

IsEnrolled-IgnoresDetails : (student : Student) → IgnoresDetails (IsEnrolled student)
IsEnrolled-IgnoresDetails student = record {
  moves = λ m p c a x. record { stored = x.stored; listed = x.listed };
}

store_student-IsEnrolled : (row : Student) (m : Memory) → IsEnrolled row (store_student row m)
store_student-IsEnrolled row m = record {
  stored = ground (arith, lookup-insert row.id row.id row m.students, eq_refl row.id);
  listed = ground (arith, lookup-insert row.fin row.fin row.id m.students_by_fin, eq_refl row.fin);
}

-- Checks that were followed by a result have passed, and the rest was done.
passed_on :
    (checks : Result (Unit {0})) (m m' : Memory) (row row' : Student)
    → (if_passed checks m (ok row', m')).0 ≡ ok row
    → (row' ≡ row) × ((if_passed checks m (ok row', m')).1 ≡ m')
unfolding if_passed
passed_on (ok _) m m' row row' h = (ground arith, refl)
passed_on (err e) m m' row row' h = absurd (ground arith)

module _ (ts : Time) (new_id : ℕ → String) (student : Student)
    (contacts : List StudentParentContact) (registrations : List StudentCourseRegistration)
    (m : Memory) where
  -- Where CreateStudentWithDetails fails, for whatever student, contact or registration, the store is
  -- as it was.
  pub create_student_with_details_fails :
      (e : Error)
      → (create_student_with_details ts new_id student contacts registrations m).0 ≡ err e
      → (create_student_with_details ts new_id student contacts registrations m).1 ≡ m
  unfolding create_student_with_details if_passed
  create_student_with_details_fails e h = ground arith

  -- Where CreateStudentWithDetails succeeds, the student whom it returns is stored under the new id
  -- and listed under the FIN.
  pub create_student_with_details-IsEnrolled :
      (row : Student)
      → (create_student_with_details ts new_id student contacts registrations m).0 ≡ ok row
      → (row.id ≡ new_id 0)
        × IsEnrolled row (create_student_with_details ts new_id student contacts registrations m).1
  unfolding create_student_with_details new_student
  create_student_with_details-IsEnrolled row h =
      let made = new_student ts (new_id 0) student in
      let (same, left) = passed_on _ m _ row made h in
      let kept =
        store_registrations_keeps (IsEnrolled-IgnoresDetails made) new_id made _ ts registrations _
          (store_contacts_keeps (IsEnrolled-IgnoresDetails made) new_id made 1 ts contacts _
            (store_student-IsEnrolled made m)) in
      (
        ap (λ (s : Student). s.id) (sym same),
        subst
            (λ s.
              IsEnrolled s
                (create_student_with_details ts new_id student contacts registrations m).1)
            same (subst (IsEnrolled made) (sym left) kept),
      )
