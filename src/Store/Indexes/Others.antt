-- ===== src/Store/Indexes/Others.antt =====
-- The operations on tables that have no index keep the four indexes.
use kingsway_academy.Store.Notifications.{
  create_notification, store_notification, find_duplicate, mark_notification_read,
}
use kingsway_academy.Base.{ℕ, String, List, Bool-cases, Option-cases, inl, inr, ◌==◌}
use kingsway_academy.Base.Int.{ℤ}
use kingsway_academy.Base.Text.{trim_space}
use kingsway_academy.Domain.{
  Time, Room, Course, ScoreCategory, ScheduleItem, Payment, SalaryModel, FileObject, Class,
  ClassStudent, Assignment, Exam, ExamResult, IdempotencyRecord, Notification,
}
use kingsway_academy.Store.State.{Memory}
use kingsway_academy.Store.Keeps.{
  Keeps, keeps_ok, keeps_if_passed, keeps_when, keeps_with_row, ways_out,
}
use kingsway_academy.Store.Indexes.{Indexes}
use kingsway_academy.Store.Touches.{add_participants_keeps, begin_idempotency_keeps}
use kingsway_academy.Store.Rooms.{create_room, update_room, deactivate_room}
use kingsway_academy.Store.Courses.{create_course}
use kingsway_academy.Store.Schedules.{create_schedule_item}
use kingsway_academy.Store.Payments.{create_payment, create_salary_model}
use kingsway_academy.Store.Files.{register_file, mark_file_deleted}
use kingsway_academy.Store.Teachers.{replace_teacher_course_specializations}
use kingsway_academy.Store.Academic.{
  create_class, enroll_student, create_assignment, create_exam, create_exam_result,
}
use kingsway_academy.Store.Idempotency.{begin_idempotency, complete_idempotency, clear_idempotency}

module _ (m : Memory) (x : Indexes m) where
  pub create_room-Indexes :
      (ts : Time) (id : String) (r : Room) → Keeps Indexes (create_room ts id r m)
  unfolding create_room
  create_room-Indexes ts id r = search (ways_out, x) depth 9

  pub update_room-Indexes : (ts : Time) (r : Room) → Keeps Indexes (update_room ts r m)
  unfolding update_room
  update_room-Indexes ts r = search (ways_out, x) depth 9

  pub deactivate_room-Indexes : (ts : Time) (id : String) → Keeps Indexes (deactivate_room ts id m)
  unfolding deactivate_room
  deactivate_room-Indexes ts id = search (ways_out, x) depth 9

  pub create_schedule_item-Indexes :
      (ts : Time) (id : String) (i : ScheduleItem) → Keeps Indexes (create_schedule_item ts id i m)
  unfolding create_schedule_item
  create_schedule_item-Indexes ts id i = search (ways_out, x) depth 9

  pub create_payment-Indexes :
      (ts : Time) (id : String) (p : Payment) → Keeps Indexes (create_payment ts id p m)
  unfolding create_payment
  create_payment-Indexes ts id p = search (ways_out, x) depth 9

  pub create_salary_model-Indexes :
      (ts : Time) (id : String) (s : SalaryModel) → Keeps Indexes (create_salary_model ts id s m)
  unfolding create_salary_model
  create_salary_model-Indexes ts id s = search (ways_out, x) depth 9

  pub register_file-Indexes :
      (ts : Time) (id : String) (f : FileObject) → Keeps Indexes (register_file ts id f m)
  unfolding register_file
  register_file-Indexes ts id f = search (ways_out, x) depth 9

  pub mark_file_deleted-Indexes :
      (ts : Time) (id : String) → Keeps Indexes (mark_file_deleted ts id m)
  unfolding mark_file_deleted
  mark_file_deleted-Indexes ts id = search (ways_out, x) depth 9

  pub create_class-Indexes :
      (ts : Time) (id : String) (c : Class) → Keeps Indexes (create_class ts id c m)
  unfolding create_class
  create_class-Indexes ts id c = search (ways_out, x) depth 9

  pub enroll_student-Indexes :
      (ts : Time) (id : String) (e : ClassStudent) → Keeps Indexes (enroll_student ts id e m)
  unfolding enroll_student
  enroll_student-Indexes ts id e = search (ways_out, x) depth 9

  pub create_assignment-Indexes :
      (ts : Time) (id : String) (a : Assignment) → Keeps Indexes (create_assignment ts id a m)
  unfolding create_assignment
  create_assignment-Indexes ts id a = search (ways_out, x) depth 9

  pub create_exam_result-Indexes :
      (ts : Time) (id : String) (r : ExamResult) → Keeps Indexes (create_exam_result ts id r m)
  unfolding create_exam_result
  create_exam_result-Indexes ts id r = search (ways_out, x) depth 9

  pub create_course-Indexes :
      (ts : Time) (new_id : ℕ → String) (c : Course) (cs : List ScoreCategory)
      → Keeps Indexes (create_course ts new_id c cs m)
  unfolding create_course
  create_course-Indexes ts new_id c cs = search (ways_out, x) depth 9

  pub replace_teacher_course_specializations-Indexes :
      (id : String) (ids : List String)
      → Keeps Indexes (replace_teacher_course_specializations id ids m)
  unfolding replace_teacher_course_specializations
  replace_teacher_course_specializations-Indexes id ids = search (ways_out, x) depth 9

pub create_exam-Indexes :
    (ts : Time) (id : String) (exam : Exam) (ids : List String) (m : Memory)
    → Indexes m
    → Keeps Indexes (create_exam ts id exam ids m)
unfolding create_exam
create_exam-Indexes ts id exam ids m x = keeps_with_row _ _ _ x λ course found.
    keeps_when _ _ _ _ x λ valid. keeps_if_passed _ _ _ x λ checked.
      keeps_ok
        (add_participants_keeps {I = Indexes} (λ m t y. y)
          (record exam { id = id; title = trim_space exam.title; created_at = ts; updated_at = ts })
          ids _ x).kept

pub begin_idempotency-Indexes :
    (checked_at ts : Time) (r : IdempotencyRecord) (m : Memory)
    → Indexes m
    → Keeps Indexes (begin_idempotency checked_at ts r m)
begin_idempotency-Indexes checked_at ts r m x =
    begin_idempotency_keeps {I = Indexes} (λ m t y. y) checked_at ts r m x

pub complete_idempotency-Indexes :
    (ts : Time) (r : IdempotencyRecord) (status : ℤ) (body : String) (m : Memory)
    → Indexes m
    → Keeps Indexes (complete_idempotency ts r status body m)
unfolding complete_idempotency
complete_idempotency-Indexes ts r status body m x = search (ways_out, x)

pub clear_idempotency-Indexes :
    (r : IdempotencyRecord) (m : Memory) → Indexes m → Indexes (clear_idempotency r m)
unfolding clear_idempotency
clear_idempotency-Indexes r m x = x

pub create_notification-Indexes :
    (ts : Time) (id : String) (n : Notification) (m : Memory)
    → Indexes m
    → Keeps Indexes (create_notification ts id n m)
unfolding create_notification store_notification
create_notification-Indexes ts id n m x = keeps_when _ _ _ _ x λ valid.
    keeps_when _ _ _ _ x λ known. elim (Bool-cases (n.dedupe_key == "")) [
      | inl plain ↦ rw plain (keeps_ok x)
      | inr keyed ↦ elim (Option-cases (find_duplicate n.dedupe_key m.notifications)) [
        | inl new ↦ rw (keyed, new) (keeps_ok x)
        | inr (old, found) ↦ rw (keyed, found) (keeps_ok x)
      ]
    ]

pub mark_notification_read-Indexes :
    (id recipient : String) (read_at : Time) (m : Memory)
    → Indexes m
    → Keeps Indexes (mark_notification_read id recipient read_at m)
unfolding mark_notification_read
mark_notification_read-Indexes id recipient read_at m x = search (ways_out, x) depth 9
