-- ===== src/Academic/Isolation/Writes.antt =====
-- What each method of the store that the academic services call writes: rows of one branch.
use kingsway_academy.Base.{
  ℕ, String, ◌≡◌, refl, sym, ◌∙◌, Option, none, some, arith, List, inl, inr, Bool-cases, ◌==◌,
  eq_iff, ap,
}
use kingsway_academy.Base.Text.{trim_space}
use kingsway_academy.Map.{lookup, insert}
use kingsway_academy.Domain.{
  Time, Room, ScheduleItem, Class, ClassStudent, Assignment, Exam, ExamResult, Course,
  ScoreCategory, Student, Teacher, User, StudentParentContact, StudentCourseRegistration,
}
use kingsway_academy.Store.State.{Memory}
use kingsway_academy.Store.Keeps.{
  Keeps, keeps_ok, keeps_when, keeps_with_row, keeps_if_passed, keeps_with_value,
}
use kingsway_academy.Store.Touches.{
  IgnoresDetails, store_contacts_keeps, store_registrations_keeps, add_participants_keeps,
}
use kingsway_academy.Store.Rooms.{create_room, update_room, deactivate_room}
use kingsway_academy.Store.Schedules.{create_schedule_item, place_item}
use kingsway_academy.Store.Courses.{create_course}
use kingsway_academy.Store.Academic.{
  create_class, enroll_student, create_assignment, create_exam, create_exam_result, result_row,
}
use kingsway_academy.Store.Users.{create_user}
use kingsway_academy.Store.Teachers.{
  create_teacher, update_teacher_account, updated_teacher_account,
  replace_teacher_course_specializations,
}
use kingsway_academy.Store.Students.{
  create_student_with_details, update_student, new_student, store_student,
}
use kingsway_academy.Academic.Isolation.{IsConfined, confined_refl}
use kingsway_academy.Academic.Isolation.Rows.{Spares-new, Spares-insert, Adds-insert}
use kingsway_academy.Academic.Isolation.Tables.{
  rooms_written, schedules_written, classes_written, class_students_written, assignments_written,
  exams_written, courses_written, students_written, users_written, teachers_written,
  account_written, results_written, specializations_written, participants_carried, details_carried,
}

module _ (b : String) (m : Memory) where
  same : IsConfined b m m
  same = confined_refl b m

  pub create_room-IsConfined :
      (ts : Time) (id : String) (r : Room)
      → r.branch_id ≡ b
      → lookup id m.rooms ≡ none
      → Keeps (IsConfined b m) (create_room ts id r m)
  unfolding create_room
  create_room-IsConfined ts id r own fresh = keeps_when _ _ _ _ same λ p.
      keeps_when _ _ _ _ same λ q.
        keeps_when _ _ _ _ same
          λ s. keeps_ok (rooms_written b m _ (Spares-new _ b id _ m.rooms own fresh))

  pub update_room-IsConfined :
      (ts : Time) (r : Room)
      → ((v : Room) → lookup r.id m.rooms ≡ some v → (v.id ≡ r.id) × (v.branch_id ≡ b))
      → Keeps (IsConfined b m) (update_room ts r m)
  unfolding update_room
  update_room-IsConfined ts r own = keeps_with_row _ _ _ same λ current found.
      let (filed, here) = own current found in
      keeps_when _ _ _ _ same λ p. keeps_when _ _ _ _ same λ q. keeps_when _ _ _ _ same λ s.
        keeps_ok (
          rooms_written b m _ (
            Spares-insert _ b current.id _ m.rooms here
              λ v e. (own v (ap (λ i. lookup i m.rooms) (sym filed) ∙ e)).1))

  pub deactivate_room-IsConfined :
      (ts : Time) (id : String)
      → ((v : Room) → lookup id m.rooms ≡ some v → v.branch_id ≡ b)
      → Keeps (IsConfined b m) (deactivate_room ts id m)
  unfolding deactivate_room
  deactivate_room-IsConfined ts id own = keeps_with_row _ _ _ same λ current found.
      keeps_ok (rooms_written b m _ (Spares-insert _ b id _ m.rooms (own current found) own))

  pub create_schedule_item-IsConfined :
      (ts : Time) (id : String) (i : ScheduleItem)
      → i.branch_id ≡ b
      → lookup id m.schedules ≡ none
      → Keeps (IsConfined b m) (create_schedule_item ts id i m)
  unfolding create_schedule_item place_item
  create_schedule_item-IsConfined ts id i own fresh = keeps_when _ _ _ _ same λ p.
      keeps_with_row _ _ _ same λ room found. keeps_with_row _ _ _ same λ teacher known.
        keeps_when _ _ _ _ same λ q. keeps_when _ _ _ _ same λ s.
          keeps_when _ _ _ _ same
            λ u. keeps_ok (schedules_written b m _ (Spares-new _ b id _ m.schedules own fresh))

  pub create_class-IsConfined :
      (ts : Time) (id : String) (c : Class)
      → c.branch_id ≡ b
      → lookup id m.classes ≡ none
      → Keeps (IsConfined b m) (create_class ts id c m)
  unfolding create_class
  create_class-IsConfined ts id c own fresh = keeps_when _ _ _ _ same λ p.
      keeps_with_row _ _ _ same λ course found. keeps_with_row _ _ _ same λ teacher known.
        keeps_when _ _ _ _ same λ q.
          keeps_when _ _ _ _ same
            λ s. keeps_ok (classes_written b m _ (Spares-new _ b id _ m.classes own fresh))

  pub enroll_student-IsConfined :
      (ts : Time) (id : String) (e : ClassStudent)
      → e.branch_id ≡ b
      → lookup id m.class_students ≡ none
      → Keeps (IsConfined b m) (enroll_student ts id e m)
  unfolding enroll_student
  enroll_student-IsConfined ts id e own fresh = keeps_with_row _ _ _ same λ class found.
      keeps_with_row _ _ _ same λ student known. keeps_when _ _ _ _ same λ p.
        keeps_when _ _ _ _ same λ q. keeps_when _ _ _ _ same λ s.
          keeps_ok (class_students_written b m _ (Spares-new _ b id _ m.class_students own fresh))

  pub create_assignment-IsConfined :
      (ts : Time) (id : String) (a : Assignment)
      → a.branch_id ≡ b
      → lookup id m.assignments ≡ none
      → Keeps (IsConfined b m) (create_assignment ts id a m)
  unfolding create_assignment
  create_assignment-IsConfined ts id a own fresh = keeps_with_row _ _ _ same λ class found.
      keeps_when _ _ _ _ same
        λ p. keeps_ok (assignments_written b m _ (Spares-new _ b id _ m.assignments own fresh))

  pub create_exam-IsConfined :
      (ts : Time) (id : String) (e : Exam) (ids : List String)
      → e.branch_id ≡ b
      → lookup id m.exams ≡ none
      → Keeps (IsConfined b m) (create_exam ts id e ids m)
  unfolding create_exam
  create_exam-IsConfined ts id e ids own fresh = keeps_with_row _ _ _ same λ course found.
      keeps_when _ _ _ _ same λ p. keeps_if_passed _ _ _ same λ checked.
        keeps_ok
          (add_participants_keeps {I = IsConfined b m} (λ m' t y. participants_carried b m t y)
            (record e { id = id; title = trim_space e.title; created_at = ts; updated_at = ts }) ids
            _ (exams_written b m _ (Spares-new _ b id _ m.exams own fresh))).kept

  result_row-branch :
      (ts : Time) (id : String) (r : ExamResult) (old : Option ExamResult)
      → (result_row ts id r old).branch_id ≡ r.branch_id
  unfolding result_row
  result_row-branch ts id r none = refl
  result_row-branch ts id r (some e) = refl

  pub create_exam_result-IsConfined :
      (ts : Time) (id : String) (r : ExamResult)
      → r.branch_id ≡ b
      → Keeps (IsConfined b m) (create_exam_result ts id r m)
  unfolding create_exam_result
  create_exam_result-IsConfined ts id r own = keeps_with_row _ _ _ same λ exam found.
      keeps_with_row _ _ _ same λ student known. keeps_with_row _ _ _ same λ teacher there.
        keeps_when _ _ _ _ same λ p. keeps_if_passed _ _ _ same λ checked. keeps_ok (
          results_written b m _
            (Adds-insert _ b _ _ m.exam_results (result_row-branch ts id r _ ∙ own)))

  pub create_course-IsConfined :
      (ts : Time) (new_id : ℕ → String) (c : Course) (cs : List ScoreCategory)
      → c.branch_id ≡ b
      → ((v : Course) → lookup (new_id 0) m.courses ≡ some v → v.branch_id ≡ b)
      → Keeps (IsConfined b m) (create_course ts new_id c cs m)
  unfolding create_course
  create_course-IsConfined ts new_id c cs own old = keeps_when _ _ _ _ same λ p.
      keeps_when _ _ _ _ same λ q. keeps_when _ _ _ _ same λ s.
        keeps_with_value _ _ _ same λ rows counted.
          keeps_ok (courses_written b m _ _ (Spares-insert _ b (new_id 0) _ m.courses own old))

  pub create_user-IsConfined :
      (ts : Time) (id : String) (u : User)
      → u.branch_id ≡ b
      → lookup id m.users ≡ none
      → Keeps (IsConfined b m) (create_user ts id u m)
  unfolding create_user
  create_user-IsConfined ts id u own fresh = keeps_when _ _ _ _ same λ p.
      keeps_when _ _ _ _ same λ q. keeps_when _ _ _ _ same λ s.
        keeps_when _ _ _ _ same
          λ r. keeps_ok (users_written b m _ _ (Spares-new _ b id _ m.users own fresh))

  pub create_teacher-IsConfined :
      (ts : Time) (id : String) (t : Teacher)
      → t.branch_id ≡ b
      → ((v : Teacher) → lookup id m.teachers ≡ some v → v.branch_id ≡ b)
      → Keeps (IsConfined b m) (create_teacher ts id t m)
  unfolding create_teacher
  create_teacher-IsConfined ts id t own old = keeps_with_row _ _ _ same λ user found.
      keeps_when _ _ _ _ same λ p.
        keeps_when _ _ _ _ same
          λ q. keeps_ok (teachers_written b m _ _ (Spares-insert _ b id _ m.teachers own old))

  pub replace_teacher_course_specializations-IsConfined :
      (id : String) (ids : List String)
      → Keeps (IsConfined b m) (replace_teacher_course_specializations id ids m)
  unfolding replace_teacher_course_specializations
  replace_teacher_course_specializations-IsConfined id ids =
      keeps_with_row _ _ _ same λ teacher found.
        keeps_with_value _ _ _ same λ courses checked. keeps_ok (specializations_written b m _)

  pub create_student_with_details-IsConfined :
      (ts : Time) (new_id : ℕ → String) (s : Student) (cs : List StudentParentContact)
      (rs : List StudentCourseRegistration)
      → s.branch_id ≡ b
      → lookup (new_id 0) m.students ≡ none
      → Keeps (IsConfined b m) (create_student_with_details ts new_id s cs rs m)
  unfolding create_student_with_details new_student
  create_student_with_details-IsConfined ts new_id s cs rs own fresh =
      let free : IgnoresDetails (IsConfined b m) = record {
        moves = λ m' x y z c. details_carried b m x y z c;
      } in
      let row = new_student ts (new_id 0) s in
      keeps_if_passed _ _ _ same λ checked. keeps_ok (
        store_registrations_keeps free new_id row _ ts rs _ (
          store_contacts_keeps free new_id row 1 ts cs (store_student row m)
            (students_written b m _ _ (Spares-new _ b (new_id 0) _ m.students own fresh))))

  pub update_student-IsConfined :
      (ts : Time) (s : Student) → s.branch_id ≡ b → Keeps (IsConfined b m) (update_student ts s m)
  unfolding update_student
  update_student-IsConfined ts s own = keeps_with_row _ _ _ same λ existing found.
      keeps_when _ _ _ _ same λ alike.
        let written = keeps_ok (
          students_written b m
            (insert s.id (record s { created_at = existing.created_at; updated_at = ts })
              m.students)
            m.students_by_fin
            (Spares-insert _ b s.id _ m.students own
              λ v e. ground (arith, eq_iff existing.branch_id s.branch_id))) in
        elim (Bool-cases (s.user_id == "")) [
          | inl no_user ↦ rw no_user written
          | inr has_user ↦
              rw has_user
                (keeps_with_row _ _ _ same λ user known. keeps_when _ _ _ _ same λ fits. written)
        ]

  pub update_teacher_account-IsConfined :
      (ts ts' : Time) (t : Teacher) (u : User) (hash : String)
      → t.branch_id ≡ b
      → ((v : Teacher) → lookup t.id m.teachers ≡ some v → v.branch_id ≡ b)
      → ((v : Teacher) (w : User)
          → lookup t.id m.teachers ≡ some v
          → lookup v.user_id m.users ≡ some w
          → (w.id ≡ v.user_id) × (w.branch_id ≡ b))
      → Keeps (IsConfined b m) (update_teacher_account ts ts' t u hash m)
  unfolding update_teacher_account updated_teacher_account
  update_teacher_account-IsConfined ts ts' t u hash own old home =
      keeps_with_row _ _ _ same λ current found. keeps_with_row _ _ _ same λ account known.
        keeps_when _ _ _ _ same λ p. keeps_when _ _ _ _ same λ q. keeps_when _ _ _ _ same λ s.
          let (filed, here) = home current account found known in
          keeps_ok (
            account_written b m _ _ _
              (Spares-insert _ b account.id _ m.users own
                λ v e. (home current v found (ap (λ i. lookup i m.users) (sym filed) ∙ e)).1)
              (Spares-insert _ b t.id _ m.teachers own old))
