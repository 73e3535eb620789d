-- ===== src/Store/Touches.antt =====
-- Which tables the loops of the store write.
use kingsway_academy.Base.{ℕ, ◌+◌, String, ◌==◌, List, [], ◌∷◌, inl, inr, Bool-cases, Option-cases}
use kingsway_academy.Base.Text.{trim_space}
use kingsway_academy.Map.{Map, lookup}
use kingsway_academy.Domain.{
  Time, Student, StudentParentContact, StudentCourseRegistration, StudentTeacherAssignment, Exam,
  ExamParticipant, IdempotencyRecord,
}
use kingsway_academy.Store.State.{Memory}
use kingsway_academy.Store.Keeps.{
  Keeps, keeps_ok, keeps_when, keeps_with_row, keeps_if_passed, ways_out,
}
use kingsway_academy.Store.Students.{
  store_contact, store_contacts, assign_student_teacher, store_registration, store_registrations,
  add_contacts, add_registrations, ids_taken,
}
use kingsway_academy.Store.Academic.{add_participants}
use kingsway_academy.Store.Idempotency.{begin_idempotency, meet_record, has_expired, key_of}

-- A statement about a store that does not depend on the tables of the students' details.
pub record IgnoresDetails (I : Memory → Type 0) : Type 0 where
  pub moves :
      (m : Memory) (p : Map StudentParentContact) (c : Map StudentCourseRegistration)
      (a : Map StudentTeacherAssignment)
      → I m
      → I (record m { student_parents = p; student_courses = c; student_teacher_assignments = a })

module _ {I : Memory → Type 0} (free : IgnoresDetails I) (new_id : ℕ → String)
    (student : Student) where
  pub store_contacts_keeps :
      (n : ℕ) (ts : Time) (cs : List StudentParentContact) (m : Memory)
      → I m
      → I (store_contacts new_id student n ts cs m).1
  unfolding store_contacts store_contact
  store_contacts_keeps n ts [] m x = x
  store_contacts_keeps n ts (c ∷ cs) m x =
      store_contacts_keeps (n + 1) ts cs (store_contact new_id student n ts c m)
        (free.moves m _ _ _ x)

  store_registration_keeps :
      (n : ℕ) (ts : Time) (r : StudentCourseRegistration) (m : Memory)
      → I m
      → I (store_registration new_id student n ts r m)
  unfolding store_registration assign_student_teacher
  store_registration_keeps n ts r m x = elim (Bool-cases (r.teacher_id == "")) [
    | inl none_named ↦ rw none_named (free.moves m _ _ _ x)
    | inr named ↦ rw named (free.moves m _ _ _ x)
  ]

  pub store_registrations_keeps :
      (n : ℕ) (ts : Time) (rs : List StudentCourseRegistration) (m : Memory)
      → I m
      → I (store_registrations new_id student n ts rs m)
  unfolding store_registrations
  store_registrations_keeps n ts [] m x = x
  store_registrations_keeps n ts (r ∷ rs) m x =
      store_registrations_keeps (n + ids_taken new_id student r) ts rs _
        (store_registration_keeps n ts r m x)

  pub add_contacts_keeps :
      (n : ℕ) (clock : ℕ → Time) (cs : List StudentParentContact) (m : Memory)
      → I m
      → Keeps I (add_contacts new_id student n clock cs m)
  unfolding add_contacts store_contact
  add_contacts_keeps n clock [] m x = keeps_ok x
  add_contacts_keeps n clock (c ∷ cs) m x = keeps_if_passed _ _ _ x λ checked.
      keeps_ok
        (add_contacts_keeps (n + 1) clock cs (store_contact new_id student n (clock n) c m)
          (free.moves m _ _ _ x)).kept

  pub add_registrations_keeps :
      (n : ℕ) (ts : Time) (rs : List StudentCourseRegistration) (m : Memory)
      → I m
      → Keeps I (add_registrations new_id student n ts rs m)
  unfolding add_registrations
  add_registrations_keeps n ts [] m x = keeps_ok x
  add_registrations_keeps n ts (r ∷ rs) m x = keeps_if_passed _ _ _ x λ checked.
      keeps_ok
        (add_registrations_keeps (n + ids_taken new_id student r) ts rs
          (store_registration new_id student n ts r m) (store_registration_keeps n ts r m x)).kept

module _ {I : Memory → Type 0}
    (free : (m : Memory) (t : Map ExamParticipant)
      → I m
      → I (record m { exam_participants = t })) where
  pub add_participants_keeps :
      (exam : Exam) (ids : List String) (m : Memory) → I m → Keeps I (add_participants exam ids m)
  unfolding add_participants
  add_participants_keeps exam [] m x = keeps_ok x
  add_participants_keeps exam (s ∷ ss) m x = elim (Bool-cases (trim_space s == "")) [
    | inl blank ↦ rw blank (add_participants_keeps exam ss m x)
    | inr named ↦ rw named (
        keeps_with_row _ _ _ x λ student found.
          keeps_when _ _ _ _ x
            λ right. keeps_ok (add_participants_keeps exam ss _ (free m _ x)).kept)
  ]

module _ {I : Memory → Type 0}
    (free : (m : Memory) (t : Map IdempotencyRecord) → I m → I (record m { idempotency = t })) where
  meet_record_keeps :
      (checked_at ts : Time) (r existing : IdempotencyRecord) (m : Memory)
      → I m
      → Keeps I (meet_record checked_at ts r existing m)
  unfolding meet_record
  meet_record_keeps checked_at ts r existing m x =
      elim (Bool-cases (has_expired checked_at existing)) [
        | inl old ↦ rw old (keeps_ok (free m _ x))
        | inr current ↦ rw current (search (ways_out, x))
      ]

  pub begin_idempotency_keeps :
      (checked_at ts : Time) (r : IdempotencyRecord) (m : Memory)
      → I m
      → Keeps I (begin_idempotency checked_at ts r m)
  unfolding begin_idempotency
  begin_idempotency_keeps checked_at ts r m x = keeps_when _ _ _ _ x λ complete.
      elim (Option-cases (lookup (key_of r) m.idempotency)) [
        | inl fresh ↦ rw fresh (keeps_ok (free m _ x))
        | inr (existing, found) ↦ rw found (meet_record_keeps checked_at ts r existing m x)
      ]
