-- ===== src/Academic/Isolation.antt =====
-- What a function of the academic services leaves alone: the rows of the other branches.
pub mod Rows
pub mod Tables
pub mod Writes
pub mod Guards
pub mod Boundary
pub mod Owners
pub mod Office
pub mod People
use kingsway_academy.Base.{String, ◌≡◌, none, some, Bool-cases, inl, inr, ◌==◌, arith, eq_iff}
use kingsway_academy.Map.{Map, lookup}
use kingsway_academy.Domain.{
  Branch, StaffMember, User, Student, Teacher, Course, Class, ClassStudent, Assignment, Room,
  ScheduleItem, Exam, Payment, SalaryModel, FileObject, Notification, ExamResult,
}
use kingsway_academy.Store.State.{Memory}
use kingsway_academy.Academic.Isolation.Rows.{
  Spares, Adds, Spares-refl, Spares-trans, Adds-refl, Adds-trans,
}

-- The tables of rows that stand under an id of their own.
pub data Table : Type 0 where
  branches staff_members users students teachers courses classes class_students assignments rooms
        schedules exams payments salary_models files notifications :
      Table

abbrev pub Row : Table → Type 0
Row Table.branches = Branch
Row Table.staff_members = StaffMember
Row Table.users = User
Row Table.students = Student
Row Table.teachers = Teacher
Row Table.courses = Course
Row Table.classes = Class
Row Table.class_students = ClassStudent
Row Table.assignments = Assignment
Row Table.rooms = Room
Row Table.schedules = ScheduleItem
Row Table.exams = Exam
Row Table.payments = Payment
Row Table.salary_models = SalaryModel
Row Table.files = FileObject
Row Table.notifications = Notification

abbrev pub rows : (t : Table) → Memory → Map (Row t)
rows Table.branches m = m.branches
rows Table.staff_members m = m.staff_members
rows Table.users m = m.users
rows Table.students m = m.students
rows Table.teachers m = m.teachers
rows Table.courses m = m.courses
rows Table.classes m = m.classes
rows Table.class_students m = m.class_students
rows Table.assignments m = m.assignments
rows Table.rooms m = m.rooms
rows Table.schedules m = m.schedules
rows Table.exams m = m.exams
rows Table.payments m = m.payments
rows Table.salary_models m = m.salary_models
rows Table.files m = m.files
rows Table.notifications m = m.notifications

-- The branch of a row; a branch is its own.
abbrev pub branch_in : (t : Table) → Row t → String
branch_in Table.branches row = row.id
branch_in Table.staff_members row = row.branch_id
branch_in Table.users row = row.branch_id
branch_in Table.students row = row.branch_id
branch_in Table.teachers row = row.branch_id
branch_in Table.courses row = row.branch_id
branch_in Table.classes row = row.branch_id
branch_in Table.class_students row = row.branch_id
branch_in Table.assignments row = row.branch_id
branch_in Table.rooms row = row.branch_id
branch_in Table.schedules row = row.branch_id
branch_in Table.exams row = row.branch_id
branch_in Table.payments row = row.branch_id
branch_in Table.salary_models row = row.branch_id
branch_in Table.files row = row.branch_id
branch_in Table.notifications row = row.branch_id

-- The rows of every other branch than `b` are the same, and no result of an exam is written for
-- another branch.
pub record IsConfined (b : String) (m m' : Memory) : Type 0 where
  pub spares : (t : Table) → Spares (branch_in t) b (rows t m) (rows t m')
  pub results : Adds (λ (r : ExamResult). r.branch_id) b m.exam_results m'.exam_results

-- A key that was free has a row of the branch at most.
pub free_key :
    (b : String) {m m' : Memory}
    → IsConfined b m m'
    → (t : Table) (k : String) (v : Row t) → lookup k (rows t m) ≡ none
    → lookup k (rows t m') ≡ some v
    → branch_in t v ≡ b
free_key b c t k v free found = elim (Bool-cases (branch_in t v == b)) [
  | inl here ↦ ground (arith, eq_iff (branch_in t v) b)
  | inr elsewhere ↦
      let stored = (c.spares t).no_other k v found λ e. ground (arith, eq_iff (branch_in t v) b) in
      absurd (ground arith)
]

module _ (b : String) where
  pub confined_refl : (m : Memory) → IsConfined b m m
  confined_refl m = record {
    spares = λ t. Spares-refl (branch_in t) b (rows t m);
    results = Adds-refl _ b m.exam_results;
  }

  pub confined_trans :
      {m m' m'' : Memory} → IsConfined b m m' → IsConfined b m' m'' → IsConfined b m m''
  confined_trans x y = record {
    spares = λ t. Spares-trans (branch_in t) b (x.spares t) (y.spares t);
    results = Adds-trans _ b x.results y.results;
  }

abbrev pub Between : String → Memory → Memory → Table → Type 0
Between b m m' t = Spares (branch_in t) b (rows t m) (rows t m')
