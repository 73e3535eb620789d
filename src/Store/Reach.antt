-- ===== src/Store/Reach.antt =====
-- The store over time: each completed method of memory.go, academic_memory.go and
-- notification_memory.go is a step. Methods of several requests
-- interleave freely, also between the start and the end of an idempotent run, where the lock is
-- released. An id from `newID` is fresh for the table that it goes into.
use kingsway_academy.Base.{ℕ, String, ◌≡◌, List, none, some}
use kingsway_academy.Base.Int.{ℤ}
use kingsway_academy.Map.{lookup}
use kingsway_academy.Domain.{
  Time, Branch, User, StaffMember, Student, StudentParentContact, StudentCourseRegistration,
  Teacher, Room, Course, ScoreCategory, ScheduleItem, Payment, SalaryModel, FileObject, Class,
  ClassStudent, Assignment, Exam, ExamResult, IdempotencyRecord, Notification,
}
use kingsway_academy.Map.Index.{empty-IsIndexed}
use kingsway_academy.Store.State.{Memory, new_memory}
use kingsway_academy.Store.Branches
use kingsway_academy.Store.Users
use kingsway_academy.Store.Staff
use kingsway_academy.Store.Students
use kingsway_academy.Store.Teachers
use kingsway_academy.Store.Courses
use kingsway_academy.Store.Rooms
use kingsway_academy.Store.Schedules
use kingsway_academy.Store.Payments
use kingsway_academy.Store.Files
use kingsway_academy.Store.Academic
use kingsway_academy.Store.Idempotency
use kingsway_academy.Store.Notifications
use kingsway_academy.Store.Indexes.{Indexes}
use kingsway_academy.Store.Indexes.Branches.{
  create_branch-Indexes, update_branch-Indexes, delete_branch-Indexes,
}
use kingsway_academy.Store.Indexes.Users.{
  create_user-Indexes, revoke_user_tokens-Indexes, record_user_login-Indexes,
  create_staff_member-Indexes, update_staff_member-Indexes, delete_staff_member-Indexes,
}
use kingsway_academy.Store.Indexes.Students.{
  create_student-Indexes, create_student_with_details-Indexes,
  create_student_parent_contacts-Indexes, create_student_course_registrations-Indexes,
  update_student-Indexes,
}
use kingsway_academy.Store.Indexes.Teachers.{
  create_teacher-Indexes, update_teacher-Indexes, update_teacher_account-Indexes,
  delete_teacher-Indexes,
}
use kingsway_academy.Store.Indexes.Others.{
  replace_teacher_course_specializations-Indexes, create_course-Indexes, create_room-Indexes,
  update_room-Indexes, deactivate_room-Indexes, create_schedule_item-Indexes,
  create_payment-Indexes, create_salary_model-Indexes, register_file-Indexes,
  mark_file_deleted-Indexes, create_class-Indexes, enroll_student-Indexes,
  create_assignment-Indexes, create_exam-Indexes, create_exam_result-Indexes,
  begin_idempotency-Indexes, complete_idempotency-Indexes, clear_idempotency-Indexes,
  create_notification-Indexes, mark_notification_read-Indexes,
}

-- One method call, whatever it returns.
pub data Call : Memory → Memory → Type 0 where
  create_branch :
      (m : Memory) (ts : Time) (id : String) (b : Branch)
      → lookup id m.branches ≡ none
      → Call m (Branches.create_branch ts id b m).1
  update_branch : (m : Memory) (ts : Time) (b : Branch) → Call m (Branches.update_branch ts b m).1
  delete_branch : (m : Memory) (id : String) → Call m (Branches.delete_branch id m).1
  create_user :
      (m : Memory) (ts : Time) (id : String) (u : User)
      → lookup id m.users ≡ none
      → Call m (Users.create_user ts id u m).1
  revoke_user_tokens :
      (m : Memory) (ts : Time) (id : String) → Call m (Users.revoke_user_tokens ts id m).1
  record_user_login :
      (m : Memory) (login_at : String) (ts : Time) (id : String)
      → Call m (Users.record_user_login login_at ts id m).1
  create_staff_member :
      (m : Memory) (ts : Time) (user_id staff_id : String) (u : User) (s : StaffMember)
      → lookup user_id m.users ≡ none
      → Call m (Staff.create_staff_member ts user_id staff_id u s m).1
  update_staff_member :
      (m : Memory) (ts ts' : Time) (s : StaffMember) (hash : String)
      → Call m (Staff.update_staff_member ts ts' s hash m).1
  delete_staff_member : (m : Memory) (id : String) → Call m (Staff.delete_staff_member id m).1
  create_student :
      (m : Memory) (ts : Time) (id : String) (s : Student)
      → lookup id m.students ≡ none
      → Call m (Students.create_student ts id s m).1
  create_student_with_details :
      (m : Memory) (ts : Time) (new_id : ℕ → String) (s : Student) (cs : List StudentParentContact)
      (rs : List StudentCourseRegistration)
      → lookup (new_id 0) m.students ≡ none
      → Call m (Students.create_student_with_details ts new_id s cs rs m).1
  create_student_parent_contacts :
      (m : Memory) (clock : ℕ → Time) (new_id : ℕ → String) (id : String)
      (cs : List StudentParentContact)
      → Call m (Students.create_student_parent_contacts clock new_id id cs m).1
  create_student_course_registrations :
      (m : Memory) (ts : Time) (new_id : ℕ → String) (id : String)
      (rs : List StudentCourseRegistration)
      → Call m (Students.create_student_course_registrations ts new_id id rs m).1
  update_student :
      (m : Memory) (ts : Time) (s : Student) → Call m (Students.update_student ts s m).1
  create_teacher :
      (m : Memory) (ts : Time) (id : String) (t : Teacher)
      → lookup id m.teachers ≡ none
      → Call m (Teachers.create_teacher ts id t m).1
  update_teacher :
      (m : Memory) (ts : Time) (t : Teacher)
      → ((current : Teacher) → lookup t.id m.teachers ≡ some current → t.user_id ≡ current.user_id)
      → Call m (Teachers.update_teacher ts t m).1
  update_teacher_account :
      (m : Memory) (ts ts' : Time) (t : Teacher) (u : User) (hash : String)
      → Call m (Teachers.update_teacher_account ts ts' t u hash m).1
  delete_teacher :
      (m : Memory) (clock : String → Time) (id : String)
      → Call m (Teachers.delete_teacher clock id m).1
  replace_teacher_course_specializations :
      (m : Memory) (id : String) (ids : List String)
      → Call m (Teachers.replace_teacher_course_specializations id ids m).1
  create_course :
      (m : Memory) (ts : Time) (new_id : ℕ → String) (c : Course) (cs : List ScoreCategory)
      → Call m (Courses.create_course ts new_id c cs m).1
  create_room :
      (m : Memory) (ts : Time) (id : String) (r : Room) → Call m (Rooms.create_room ts id r m).1
  update_room : (m : Memory) (ts : Time) (r : Room) → Call m (Rooms.update_room ts r m).1
  deactivate_room :
      (m : Memory) (ts : Time) (id : String) → Call m (Rooms.deactivate_room ts id m).1
  create_schedule_item :
      (m : Memory) (ts : Time) (id : String) (i : ScheduleItem)
      → lookup id m.schedules ≡ none
      → Call m (Schedules.create_schedule_item ts id i m).1
  create_payment :
      (m : Memory) (ts : Time) (id : String) (p : Payment)
      → Call m (Payments.create_payment ts id p m).1
  create_salary_model :
      (m : Memory) (ts : Time) (id : String) (s : SalaryModel)
      → Call m (Payments.create_salary_model ts id s m).1
  register_file :
      (m : Memory) (ts : Time) (id : String) (f : FileObject)
      → lookup id m.files ≡ none
      → Call m (Files.register_file ts id f m).1
  mark_file_deleted :
      (m : Memory) (ts : Time) (id : String) → Call m (Files.mark_file_deleted ts id m).1
  create_class :
      (m : Memory) (ts : Time) (id : String) (c : Class)
      → Call m (Academic.create_class ts id c m).1
  enroll_student :
      (m : Memory) (ts : Time) (id : String) (e : ClassStudent)
      → Call m (Academic.enroll_student ts id e m).1
  create_assignment :
      (m : Memory) (ts : Time) (id : String) (a : Assignment)
      → Call m (Academic.create_assignment ts id a m).1
  create_exam :
      (m : Memory) (ts : Time) (id : String) (e : Exam) (ids : List String)
      → Call m (Academic.create_exam ts id e ids m).1
  create_exam_result :
      (m : Memory) (ts : Time) (id : String) (r : ExamResult)
      → Call m (Academic.create_exam_result ts id r m).1
  begin_idempotency :
      (m : Memory) (checked_at ts : Time) (r : IdempotencyRecord)
      → Call m (Idempotency.begin_idempotency checked_at ts r m).1
  complete_idempotency :
      (m : Memory) (ts : Time) (r : IdempotencyRecord) (status : ℤ) (body : String)
      → Call m (Idempotency.complete_idempotency ts r status body m).1
  clear_idempotency :
      (m : Memory) (r : IdempotencyRecord) → Call m (Idempotency.clear_idempotency r m)
  create_notification :
      (m : Memory) (ts : Time) (id : String) (n : Notification)
      → Call m (Notifications.create_notification ts id n m).1
  mark_notification_read :
      (m : Memory) (id recipient : String) (read_at : Time)
      → Call m (Notifications.mark_notification_read id recipient read_at m).1

pub data Reach (m : Memory) : Memory → Type 0 where
  here : Reach m m
  next : {m' m'' : Memory} → Reach m m' → Call m' m'' → Reach m m''

Call-Indexes : {m m' : Memory} → Call m m' → Indexes m → Indexes m'
Call-Indexes (Call.create_branch m ts id b h) x = (create_branch-Indexes ts id b m x h).kept
Call-Indexes (Call.update_branch m ts b) x = (update_branch-Indexes ts b m x).kept
Call-Indexes (Call.delete_branch m id) x = (delete_branch-Indexes id m x).kept
Call-Indexes (Call.create_user m ts id u h) x = (create_user-Indexes ts id u m x h).kept
Call-Indexes (Call.revoke_user_tokens m ts id) x = (revoke_user_tokens-Indexes ts id m x).kept
Call-Indexes (Call.record_user_login m login_at ts id) x =
    (record_user_login-Indexes login_at ts id m x).kept
Call-Indexes (Call.create_staff_member m ts user_id staff_id u s h) x =
    (create_staff_member-Indexes ts user_id staff_id u s m x h).kept
Call-Indexes (Call.update_staff_member m ts ts' s hash) x =
    (update_staff_member-Indexes ts ts' s hash m x).kept
Call-Indexes (Call.delete_staff_member m id) x = (delete_staff_member-Indexes id m x).kept
Call-Indexes (Call.create_student m ts id s h) x = (create_student-Indexes ts id s m x h).kept
Call-Indexes (Call.create_student_with_details m ts new_id s cs rs h) x =
    (create_student_with_details-Indexes ts new_id s cs rs m x h).kept
Call-Indexes (Call.create_student_parent_contacts m clock new_id id cs) x =
    (create_student_parent_contacts-Indexes clock new_id id cs m x).kept
Call-Indexes (Call.create_student_course_registrations m ts new_id id rs) x =
    (create_student_course_registrations-Indexes ts new_id id rs m x).kept
Call-Indexes (Call.update_student m ts s) x = (update_student-Indexes ts s m x).kept
Call-Indexes (Call.create_teacher m ts id t h) x = (create_teacher-Indexes ts id t m x h).kept
Call-Indexes (Call.update_teacher m ts t h) x = (update_teacher-Indexes ts t m x h).kept
Call-Indexes (Call.update_teacher_account m ts ts' t u hash) x =
    (update_teacher_account-Indexes ts ts' t u hash m x).kept
Call-Indexes (Call.delete_teacher m clock id) x = (delete_teacher-Indexes clock id m x).kept
Call-Indexes (Call.replace_teacher_course_specializations m id ids) x =
    (replace_teacher_course_specializations-Indexes m x id ids).kept
Call-Indexes (Call.create_course m ts new_id c cs) x =
    (create_course-Indexes m x ts new_id c cs).kept
Call-Indexes (Call.create_room m ts id r) x = (create_room-Indexes m x ts id r).kept
Call-Indexes (Call.update_room m ts r) x = (update_room-Indexes m x ts r).kept
Call-Indexes (Call.deactivate_room m ts id) x = (deactivate_room-Indexes m x ts id).kept
Call-Indexes (Call.create_schedule_item m ts id i h) x =
    (create_schedule_item-Indexes m x ts id i).kept
Call-Indexes (Call.create_payment m ts id p) x = (create_payment-Indexes m x ts id p).kept
Call-Indexes (Call.create_salary_model m ts id s) x = (create_salary_model-Indexes m x ts id s).kept
Call-Indexes (Call.register_file m ts id f h) x = (register_file-Indexes m x ts id f).kept
Call-Indexes (Call.mark_file_deleted m ts id) x = (mark_file_deleted-Indexes m x ts id).kept
Call-Indexes (Call.create_class m ts id c) x = (create_class-Indexes m x ts id c).kept
Call-Indexes (Call.enroll_student m ts id e) x = (enroll_student-Indexes m x ts id e).kept
Call-Indexes (Call.create_assignment m ts id a) x = (create_assignment-Indexes m x ts id a).kept
Call-Indexes (Call.create_exam m ts id e ids) x = (create_exam-Indexes ts id e ids m x).kept
Call-Indexes (Call.create_exam_result m ts id r) x = (create_exam_result-Indexes m x ts id r).kept
Call-Indexes (Call.begin_idempotency m checked_at ts r) x =
    (begin_idempotency-Indexes checked_at ts r m x).kept
Call-Indexes (Call.complete_idempotency m ts r status body) x =
    (complete_idempotency-Indexes ts r status body m x).kept
Call-Indexes (Call.clear_idempotency m r) x = clear_idempotency-Indexes r m x
Call-Indexes (Call.create_notification m ts id n) x = (create_notification-Indexes ts id n m x).kept
Call-Indexes (Call.mark_notification_read m id recipient read_at) x =
    (mark_notification_read-Indexes id recipient read_at m x).kept

Reach-Indexes : {m m' : Memory} → Reach m m' → Indexes m → Indexes m'
Reach-Indexes here x = x
Reach-Indexes (next r c) x = Call-Indexes c (Reach-Indexes r x)

-- From the empty store on, whatever methods are called in whatever order, every row stands under
-- its own id, and the indexes of slugs, addresses, FIN codes and teachers' accounts list exactly
-- the rows that are stored.
pub new_memory-Indexes : (m : Memory) → Reach new_memory m → Indexes m
new_memory-Indexes m r = Reach-Indexes r (record {
  slugs = empty-IsIndexed _ _;
  emails = empty-IsIndexed _ _;
  fins = empty-IsIndexed _ _;
  accounts = empty-IsIndexed _ _;
})
