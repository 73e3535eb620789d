-- ===== src/Store/Untouched.antt =====
-- Most methods of memory.go leave the schedule and the files alone. What is said of these two tables
-- holds over time if the five methods that write them keep it.
use kingsway_academy.Store.Notifications.{
  create_notification, store_notification, find_duplicate, mark_notification_read,
}
use kingsway_academy.Base.{ℕ, String, ◌==◌, ◌≡◌, List, inl, inr, Bool-cases, Option-cases, none}
use kingsway_academy.Base.Int.{ℤ}
use kingsway_academy.Base.Text.{trim_space}
use kingsway_academy.Map.{Map, lookup}
use kingsway_academy.Domain.{
  Time, Branch, User, StaffMember, Student, StudentParentContact, StudentCourseRegistration,
  Teacher, Room, Course, ScoreCategory, ScheduleItem, Payment, SalaryModel, FileObject, Class,
  ClassStudent, Assignment, Exam, ExamResult, IdempotencyRecord, Notification,
}
use kingsway_academy.Store.State.{Memory}
use kingsway_academy.Store.Keeps.{
  Keeps, keeps_ok, keeps_when, keeps_with_row, keeps_if_passed, ways_out,
}
use kingsway_academy.Store.Touches.{
  IgnoresDetails, store_contacts_keeps, store_registrations_keeps, add_contacts_keeps,
  add_registrations_keeps, add_participants_keeps, begin_idempotency_keeps,
}
use kingsway_academy.Store.Reach.{Call, Reach, here, next}
use kingsway_academy.Store.Branches
use kingsway_academy.Store.Teachers
use kingsway_academy.Store.Schedules
use kingsway_academy.Store.Branches.{create_branch, update_branch}
use kingsway_academy.Store.Users.{create_user, revoke_user_tokens, record_user_login}
use kingsway_academy.Store.Staff.{create_staff_member, update_staff_member, delete_staff_member}
use kingsway_academy.Store.Students.{
  create_student, create_student_with_details, create_student_parent_contacts,
  create_student_course_registrations, update_student, new_student, store_student,
}
use kingsway_academy.Store.Teachers.{
  create_teacher, update_teacher, update_teacher_account, replace_teacher_course_specializations,
}
use kingsway_academy.Store.Courses.{create_course}
use kingsway_academy.Store.Rooms.{create_room, update_room, deactivate_room}
use kingsway_academy.Store.Payments.{create_payment, create_salary_model}
use kingsway_academy.Store.Files
use kingsway_academy.Store.Academic.{
  create_class, enroll_student, create_assignment, create_exam, create_exam_result,
}
use kingsway_academy.Store.Idempotency.{begin_idempotency, complete_idempotency, clear_idempotency}

-- A statement about the schedule and the files.
abbrev pub Of : (Map ScheduleItem → Map FileObject → Type 0) → Memory → Type 0
Of I m = I m.schedules m.files

-- The five methods that write the schedule or the files keep the statement.
pub record Writers (I : Map ScheduleItem → Map FileObject → Type 0) : Type 0 where
  pub create_schedule_item :
      (ts : Time) (id : String) (i : ScheduleItem) (m : Memory)
      → Of I m
      → Keeps (Of I) (Schedules.create_schedule_item ts id i m)
  pub register_file :
      (ts : Time) (id : String) (f : FileObject) (m : Memory)
      → lookup id m.files ≡ none
      → Of I m
      → Keeps (Of I) (Files.register_file ts id f m)
  pub mark_file_deleted :
      (ts : Time) (id : String) (m : Memory)
      → Of I m
      → Keeps (Of I) (Files.mark_file_deleted ts id m)
  pub delete_branch :
      (id : String) (m : Memory) → Of I m → Keeps (Of I) (Branches.delete_branch id m)
  pub delete_teacher :
      (clock : String → Time) (id : String) (m : Memory)
      → Of I m
      → Keeps (Of I) (Teachers.delete_teacher clock id m)

module _ (I : Map ScheduleItem → Map FileObject → Type 0) where
  module _ (m : Memory) (x : Of I m) where
    create_branch_stays :
        (ts : Time) (id : String) (b : Branch) → Keeps (Of I) (create_branch ts id b m)
    unfolding create_branch
    create_branch_stays ts id b = search (ways_out, x) depth 9

    update_branch_stays : (ts : Time) (b : Branch) → Keeps (Of I) (update_branch ts b m)
    unfolding update_branch
    update_branch_stays ts b = search (ways_out, x) depth 9

    create_user_stays : (ts : Time) (id : String) (u : User) → Keeps (Of I) (create_user ts id u m)
    unfolding create_user
    create_user_stays ts id u = search (ways_out, x) depth 9

    revoke_user_tokens_stays : (ts : Time) (id : String) → Keeps (Of I) (revoke_user_tokens ts id m)
    unfolding revoke_user_tokens
    revoke_user_tokens_stays ts id = search (ways_out, x) depth 9

    record_user_login_stays :
        (login_at : String) (ts : Time) (id : String)
        → Keeps (Of I) (record_user_login login_at ts id m)
    unfolding record_user_login
    record_user_login_stays login_at ts id = search (ways_out, x) depth 9

    create_staff_member_stays :
        (ts : Time) (user_id staff_id : String) (u : User) (s : StaffMember)
        → Keeps (Of I) (create_staff_member ts user_id staff_id u s m)
    unfolding create_staff_member
    create_staff_member_stays ts user_id staff_id u s = search (ways_out, x) depth 9

    update_staff_member_stays :
        (ts ts' : Time) (s : StaffMember) (hash : String)
        → Keeps (Of I) (update_staff_member ts ts' s hash m)
    unfolding update_staff_member
    update_staff_member_stays ts ts' s hash = search (ways_out, x) depth 9

    create_student_stays :
        (ts : Time) (id : String) (s : Student) → Keeps (Of I) (create_student ts id s m)
    unfolding create_student
    create_student_stays ts id s = search (ways_out, x) depth 9

    create_teacher_stays :
        (ts : Time) (id : String) (t : Teacher) → Keeps (Of I) (create_teacher ts id t m)
    unfolding create_teacher
    create_teacher_stays ts id t = search (ways_out, x) depth 9

    update_teacher_stays : (ts : Time) (t : Teacher) → Keeps (Of I) (update_teacher ts t m)
    unfolding update_teacher
    update_teacher_stays ts t = search (ways_out, x) depth 9

    update_teacher_account_stays :
        (ts ts' : Time) (t : Teacher) (u : User) (hash : String)
        → Keeps (Of I) (update_teacher_account ts ts' t u hash m)
    unfolding update_teacher_account
    update_teacher_account_stays ts ts' t u hash = search (ways_out, x) depth 9

    replace_teacher_course_specializations_stays :
        (id : String) (ids : List String)
        → Keeps (Of I) (replace_teacher_course_specializations id ids m)
    unfolding replace_teacher_course_specializations
    replace_teacher_course_specializations_stays id ids = search (ways_out, x) depth 9

    create_course_stays :
        (ts : Time) (new_id : ℕ → String) (c : Course) (cs : List ScoreCategory)
        → Keeps (Of I) (create_course ts new_id c cs m)
    unfolding create_course
    create_course_stays ts new_id c cs = search (ways_out, x) depth 9

    create_room_stays : (ts : Time) (id : String) (r : Room) → Keeps (Of I) (create_room ts id r m)
    unfolding create_room
    create_room_stays ts id r = search (ways_out, x) depth 9

    update_room_stays : (ts : Time) (r : Room) → Keeps (Of I) (update_room ts r m)
    unfolding update_room
    update_room_stays ts r = search (ways_out, x) depth 9

    deactivate_room_stays : (ts : Time) (id : String) → Keeps (Of I) (deactivate_room ts id m)
    unfolding deactivate_room
    deactivate_room_stays ts id = search (ways_out, x) depth 9

    create_payment_stays :
        (ts : Time) (id : String) (p : Payment) → Keeps (Of I) (create_payment ts id p m)
    unfolding create_payment
    create_payment_stays ts id p = search (ways_out, x) depth 9

    create_salary_model_stays :
        (ts : Time) (id : String) (s : SalaryModel) → Keeps (Of I) (create_salary_model ts id s m)
    unfolding create_salary_model
    create_salary_model_stays ts id s = search (ways_out, x) depth 9

    create_class_stays :
        (ts : Time) (id : String) (c : Class) → Keeps (Of I) (create_class ts id c m)
    unfolding create_class
    create_class_stays ts id c = search (ways_out, x) depth 9

    enroll_student_stays :
        (ts : Time) (id : String) (e : ClassStudent) → Keeps (Of I) (enroll_student ts id e m)
    unfolding enroll_student
    enroll_student_stays ts id e = search (ways_out, x) depth 9

    create_assignment_stays :
        (ts : Time) (id : String) (a : Assignment) → Keeps (Of I) (create_assignment ts id a m)
    unfolding create_assignment
    create_assignment_stays ts id a = search (ways_out, x) depth 9

    create_exam_result_stays :
        (ts : Time) (id : String) (r : ExamResult) → Keeps (Of I) (create_exam_result ts id r m)
    unfolding create_exam_result
    create_exam_result_stays ts id r = search (ways_out, x) depth 9

    complete_idempotency_stays :
        (ts : Time) (r : IdempotencyRecord) (status : ℤ) (body : String)
        → Keeps (Of I) (complete_idempotency ts r status body m)
    unfolding complete_idempotency
    complete_idempotency_stays ts r status body = search (ways_out, x) depth 9

    delete_staff_member_stays : (id : String) → Keeps (Of I) (delete_staff_member id m)
    unfolding delete_staff_member
    delete_staff_member_stays id = keeps_with_row _ _ _ x λ staff found.
        elim (Option-cases (lookup staff.user_id m.users)) [
          | inl gone ↦ rw gone (keeps_ok x)
          | inr (user, known) ↦ rw known (keeps_ok x)
        ]

    update_student_stays : (ts : Time) (s : Student) → Keeps (Of I) (update_student ts s m)
    unfolding update_student
    update_student_stays ts s = keeps_with_row _ _ _ x λ existing found.
        keeps_when _ _ _ _ x λ same. elim (Bool-cases (s.user_id == "")) [
          | inl no_user ↦ rw no_user (keeps_ok x)
          | inr has_user ↦ rw has_user (search (ways_out, x) depth 9)
        ]

    create_exam_stays :
        (ts : Time) (id : String) (e : Exam) (ids : List String)
        → Keeps (Of I) (create_exam ts id e ids m)
    unfolding create_exam
    create_exam_stays ts id e ids = keeps_with_row _ _ _ x λ course found.
        keeps_when _ _ _ _ x λ valid. keeps_if_passed _ _ _ x λ checked.
          keeps_ok
            (add_participants_keeps {I = Of I} (λ m t y. y)
              (record e { id = id; title = trim_space e.title; created_at = ts; updated_at = ts })
              ids _ x).kept

    begin_idempotency_stays :
        (checked_at ts : Time) (r : IdempotencyRecord)
        → Keeps (Of I) (begin_idempotency checked_at ts r m)
    begin_idempotency_stays checked_at ts r =
        begin_idempotency_keeps {I = Of I} (λ m t y. y) checked_at ts r m x

    clear_idempotency_stays : (r : IdempotencyRecord) → Of I (clear_idempotency r m)
    unfolding clear_idempotency
    clear_idempotency_stays r = x

  module _ (m : Memory) (x : Of I m) where
    create_notification_stays :
        (ts : Time) (id : String) (n : Notification) → Keeps (Of I) (create_notification ts id n m)
    unfolding create_notification store_notification
    create_notification_stays ts id n = keeps_when _ _ _ _ x λ valid. keeps_when _ _ _ _ x λ known.
        elim (Bool-cases (n.dedupe_key == "")) [
          | inl plain ↦ rw plain (keeps_ok x)
          | inr keyed ↦ elim (Option-cases (find_duplicate n.dedupe_key m.notifications)) [
            | inl new ↦ rw (keyed, new) (keeps_ok x)
            | inr (old, found) ↦ rw (keyed, found) (keeps_ok x)
          ]
        ]

    mark_notification_read_stays :
        (id recipient : String) (read_at : Time)
        → Keeps (Of I) (mark_notification_read id recipient read_at m)
    unfolding mark_notification_read
    mark_notification_read_stays id recipient read_at = search (ways_out, x) depth 9

  Of-IgnoresDetails : IgnoresDetails (Of I)
  Of-IgnoresDetails = record { moves = λ m p c a x. x }

  module _ (m : Memory) (x : Of I m) (new_id : ℕ → String) where
    create_student_with_details_stays :
        (ts : Time) (s : Student) (cs : List StudentParentContact)
        (rs : List StudentCourseRegistration)
        → Keeps (Of I) (create_student_with_details ts new_id s cs rs m)
    unfolding create_student_with_details
    create_student_with_details_stays ts s cs rs =
        let row = new_student ts (new_id 0) s in
        keeps_if_passed _ _ _ x λ checked. keeps_ok (
          store_registrations_keeps Of-IgnoresDetails new_id row _ ts rs _
            (store_contacts_keeps Of-IgnoresDetails new_id row 1 ts cs (store_student row m) x))

    create_student_parent_contacts_stays :
        (clock : ℕ → Time) (id : String) (cs : List StudentParentContact)
        → Keeps (Of I) (create_student_parent_contacts clock new_id id cs m)
    unfolding create_student_parent_contacts
    create_student_parent_contacts_stays clock id cs =
        keeps_with_row _ _ _ x
          λ student found. add_contacts_keeps Of-IgnoresDetails new_id student 0 clock cs m x

    create_student_course_registrations_stays :
        (ts : Time) (id : String) (rs : List StudentCourseRegistration)
        → Keeps (Of I) (create_student_course_registrations ts new_id id rs m)
    unfolding create_student_course_registrations
    create_student_course_registrations_stays ts id rs =
        keeps_with_row _ _ _ x
          λ student found. add_registrations_keeps Of-IgnoresDetails new_id student 0 ts rs m x

  Call_keeps : {m m' : Memory} → Writers I → Call m m' → Of I m → Of I m'
  Call_keeps w (Call.create_branch m ts id b h) x = (create_branch_stays m x ts id b).kept
  Call_keeps w (Call.update_branch m ts b) x = (update_branch_stays m x ts b).kept
  Call_keeps w (Call.delete_branch m id) x = (w.delete_branch id m x).kept
  Call_keeps w (Call.create_user m ts id u h) x = (create_user_stays m x ts id u).kept
  Call_keeps w (Call.revoke_user_tokens m ts id) x = (revoke_user_tokens_stays m x ts id).kept
  Call_keeps w (Call.record_user_login m login_at ts id) x =
      (record_user_login_stays m x login_at ts id).kept
  Call_keeps w (Call.create_staff_member m ts user_id staff_id u s h) x =
      (create_staff_member_stays m x ts user_id staff_id u s).kept
  Call_keeps w (Call.update_staff_member m ts ts' s hash) x =
      (update_staff_member_stays m x ts ts' s hash).kept
  Call_keeps w (Call.delete_staff_member m id) x = (delete_staff_member_stays m x id).kept
  Call_keeps w (Call.create_student m ts id s h) x = (create_student_stays m x ts id s).kept
  Call_keeps w (Call.create_student_with_details m ts new_id s cs rs h) x =
      (create_student_with_details_stays m x new_id ts s cs rs).kept
  Call_keeps w (Call.create_student_parent_contacts m clock new_id id cs) x =
      (create_student_parent_contacts_stays m x new_id clock id cs).kept
  Call_keeps w (Call.create_student_course_registrations m ts new_id id rs) x =
      (create_student_course_registrations_stays m x new_id ts id rs).kept
  Call_keeps w (Call.update_student m ts s) x = (update_student_stays m x ts s).kept
  Call_keeps w (Call.create_teacher m ts id t h) x = (create_teacher_stays m x ts id t).kept
  Call_keeps w (Call.update_teacher m ts t h) x = (update_teacher_stays m x ts t).kept
  Call_keeps w (Call.update_teacher_account m ts ts' t u hash) x =
      (update_teacher_account_stays m x ts ts' t u hash).kept
  Call_keeps w (Call.delete_teacher m clock id) x = (w.delete_teacher clock id m x).kept
  Call_keeps w (Call.replace_teacher_course_specializations m id ids) x =
      (replace_teacher_course_specializations_stays m x id ids).kept
  Call_keeps w (Call.create_course m ts new_id c cs) x =
      (create_course_stays m x ts new_id c cs).kept
  Call_keeps w (Call.create_room m ts id r) x = (create_room_stays m x ts id r).kept
  Call_keeps w (Call.update_room m ts r) x = (update_room_stays m x ts r).kept
  Call_keeps w (Call.deactivate_room m ts id) x = (deactivate_room_stays m x ts id).kept
  Call_keeps w (Call.create_schedule_item m ts id i h) x = (w.create_schedule_item ts id i m x).kept
  Call_keeps w (Call.create_payment m ts id p) x = (create_payment_stays m x ts id p).kept
  Call_keeps w (Call.create_salary_model m ts id s) x = (create_salary_model_stays m x ts id s).kept
  Call_keeps w (Call.register_file m ts id f h) x = (w.register_file ts id f m h x).kept
  Call_keeps w (Call.mark_file_deleted m ts id) x = (w.mark_file_deleted ts id m x).kept
  Call_keeps w (Call.create_class m ts id c) x = (create_class_stays m x ts id c).kept
  Call_keeps w (Call.enroll_student m ts id e) x = (enroll_student_stays m x ts id e).kept
  Call_keeps w (Call.create_assignment m ts id a) x = (create_assignment_stays m x ts id a).kept
  Call_keeps w (Call.create_exam m ts id e ids) x = (create_exam_stays m x ts id e ids).kept
  Call_keeps w (Call.create_exam_result m ts id r) x = (create_exam_result_stays m x ts id r).kept
  Call_keeps w (Call.begin_idempotency m checked_at ts r) x =
      (begin_idempotency_stays m x checked_at ts r).kept
  Call_keeps w (Call.complete_idempotency m ts r status body) x =
      (complete_idempotency_stays m x ts r status body).kept
  Call_keeps w (Call.clear_idempotency m r) x = clear_idempotency_stays m x r
  Call_keeps w (Call.create_notification m ts id n) x = (create_notification_stays m x ts id n).kept
  Call_keeps w (Call.mark_notification_read m id recipient read_at) x =
      (mark_notification_read_stays m x id recipient read_at).kept

  pub Reach_keeps : {m m' : Memory} → Writers I → Reach m m' → Of I m → Of I m'
  Reach_keeps w here x = x
  Reach_keeps w (next r c) x = Call_keeps w c (Reach_keeps w r x)
