-- ===== src/Store/State.antt =====
-- The struct Memory of memory.go, and the helpers that its methods share. The lock is held for the
-- whole of a method, so a method is one step. What a method reads from outside enters as arguments:
-- `ts` and its like are readings of the clock (`now`), `id` and its like results of `newID`.
use kingsway_academy.Base.{String, List, [], Bool, true, false, Option, none, some}
use kingsway_academy.Base.Text.{trim_space, to_lower}
use kingsway_academy.Map.{Map}
use kingsway_academy.Domain.{
  Branch, User, StaffMember, Student, StudentParentContact, StudentCourseRegistration,
  StudentTeacherAssignment, Teacher, Course, ScoreCategory, Class, ClassStudent, Assignment, Room,
  ScheduleItem, Exam, ExamParticipant, ExamResult, Payment, SalaryModel, FileObject, Notification,
  IdempotencyRecord, Result, ok, err, Error, not_found,
}

pub record Memory : Type 0 where
  pub branches : Map Branch
  pub branches_by_slug : Map String
  pub users : Map User
  pub users_by_email : Map String
  pub staff_members : Map StaffMember
  pub students : Map Student
  pub students_by_fin : Map String
  pub student_parents : Map StudentParentContact
  pub student_courses : Map StudentCourseRegistration
  pub student_teacher_assignments : Map StudentTeacherAssignment
  pub teachers : Map Teacher
  pub teachers_by_user : Map String
  -- the courses of each teacher, as a list for each set
  pub teacher_courses : Map (List String)
  pub courses : Map Course
  pub course_categories : Map (List ScoreCategory)
  pub classes : Map Class
  pub class_students : Map ClassStudent
  pub assignments : Map Assignment
  pub rooms : Map Room
  pub schedules : Map ScheduleItem
  pub exams : Map Exam
  pub exam_participants : Map ExamParticipant
  pub exam_results : Map ExamResult
  pub payments : Map Payment
  pub salary_models : Map SalaryModel
  pub files : Map FileObject
  pub notifications : Map Notification
  pub idempotency : Map IdempotencyRecord

-- NewMemory
abbrev pub new_memory : Memory
new_memory = record {
  branches = [];
  branches_by_slug = [];
  users = [];
  users_by_email = [];
  staff_members = [];
  students = [];
  students_by_fin = [];
  student_parents = [];
  student_courses = [];
  student_teacher_assignments = [];
  teachers = [];
  teachers_by_user = [];
  teacher_courses = [];
  courses = [];
  course_categories = [];
  classes = [];
  class_students = [];
  assignments = [];
  rooms = [];
  schedules = [];
  exams = [];
  exam_participants = [];
  exam_results = [];
  payments = [];
  salary_models = [];
  files = [];
  notifications = [];
  idempotency = [];
}

-- What a method returns, and the store that it leaves behind.
abbrev pub Outcome : Type 0 → Type 0
Outcome A = Result A × Memory

-- The early return that writes nothing.
abbrev pub refuse : {A : Type 0} → Error → Memory → Outcome A
refuse e m = (err e, m)

-- `if test { return e }`, with the rest of the method
infix 1 when◌fail◌from◌otherwise◌
unfoldable pub when◌fail◌from◌otherwise◌ :
    {A : Type 0} → Bool → Error → Memory → Outcome A → Outcome A
when true fail e from m otherwise rest = refuse e m
when false fail e from m otherwise rest = rest

-- `row, ok := table[key]; if !ok { return ErrNotFound }`, with the rest of the method
unfoldable pub with_row : {V A : Type 0} → Option V → Memory → (V → Outcome A) → Outcome A
with_row none m rest = refuse not_found m
with_row (some v) m rest = rest v

-- A group of tests that return an error, with the rest of the method.
unfoldable pub if_passed : {A : Type 0} → Result (Unit {0}) → Memory → Outcome A → Outcome A
if_passed (err e) m rest = refuse e m
if_passed (ok _) m rest = rest

-- A computed value or its error, with the rest of the method.
unfoldable pub with_value : {V A : Type 0} → Result V → Memory → (V → Outcome A) → Outcome A
with_value (err e) m rest = refuse e m
with_value (ok v) m rest = rest v

-- normalizeEmail and normalizeSlug
unfoldable pub normalize_email : String → String
normalize_email email = to_lower (trim_space email)

unfoldable pub normalize_slug : String → String
normalize_slug slug = to_lower (trim_space slug)
