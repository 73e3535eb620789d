-- ===== src/Academic/Isolation/Tables.antt =====
-- A store of which one table is written, for rows of one branch.
use kingsway_academy.Base.{String, List}
use kingsway_academy.Map.{Map}
use kingsway_academy.Domain.{
  User, Student, Teacher, Course, ScoreCategory, Class, ClassStudent, Assignment, Room,
  ScheduleItem, Exam, ExamResult, ExamParticipant, StudentParentContact, StudentCourseRegistration,
  StudentTeacherAssignment,
}
use kingsway_academy.Store.State.{Memory}
use kingsway_academy.Academic.Isolation.{IsConfined, Table, Between}
use kingsway_academy.Academic.Isolation.Rows.{Adds, Spares-refl, Adds-refl}

module _ (b : String) (m : Memory) where
  pub rooms_written :
      (x : Map Room)
      → Between b m (record m { rooms = x }) Table.rooms
      → IsConfined b m (record m { rooms = x })
  rooms_written x s = record {
    spares = λ t. elim t as (Between b m (record m { rooms = x })) [
      | Table.rooms ↦ s
      | _ ↦ Spares-refl _ b _
    ];
    results = Adds-refl _ b _;
  }

  pub schedules_written :
      (x : Map ScheduleItem)
      → Between b m (record m { schedules = x }) Table.schedules
      → IsConfined b m (record m { schedules = x })
  schedules_written x s = record {
    spares = λ t. elim t as (Between b m (record m { schedules = x })) [
      | Table.schedules ↦ s
      | _ ↦ Spares-refl _ b _
    ];
    results = Adds-refl _ b _;
  }

  pub classes_written :
      (x : Map Class)
      → Between b m (record m { classes = x }) Table.classes
      → IsConfined b m (record m { classes = x })
  classes_written x s = record {
    spares = λ t. elim t as (Between b m (record m { classes = x })) [
      | Table.classes ↦ s
      | _ ↦ Spares-refl _ b _
    ];
    results = Adds-refl _ b _;
  }

  pub class_students_written :
      (x : Map ClassStudent)
      → Between b m (record m { class_students = x }) Table.class_students
      → IsConfined b m (record m { class_students = x })
  class_students_written x s = record {
    spares = λ t. elim t as (Between b m (record m { class_students = x })) [
      | Table.class_students ↦ s
      | _ ↦ Spares-refl _ b _
    ];
    results = Adds-refl _ b _;
  }

  pub assignments_written :
      (x : Map Assignment)
      → Between b m (record m { assignments = x }) Table.assignments
      → IsConfined b m (record m { assignments = x })
  assignments_written x s = record {
    spares = λ t. elim t as (Between b m (record m { assignments = x })) [
      | Table.assignments ↦ s
      | _ ↦ Spares-refl _ b _
    ];
    results = Adds-refl _ b _;
  }

  pub exams_written :
      (x : Map Exam)
      → Between b m (record m { exams = x }) Table.exams
      → IsConfined b m (record m { exams = x })
  exams_written x s = record {
    spares = λ t. elim t as (Between b m (record m { exams = x })) [
      | Table.exams ↦ s
      | _ ↦ Spares-refl _ b _
    ];
    results = Adds-refl _ b _;
  }

  pub courses_written :
      (x : Map Course) (y : Map (List ScoreCategory))
      → Between b m (record m { courses = x }) Table.courses
      → IsConfined b m (record m { courses = x; course_categories = y })
  courses_written x y s = record {
    spares = λ t. elim t as (Between b m (record m { courses = x; course_categories = y })) [
      | Table.courses ↦ s
      | _ ↦ Spares-refl _ b _
    ];
    results = Adds-refl _ b _;
  }

  pub students_written :
      (x : Map Student) (y : Map String)
      → Between b m (record m { students = x }) Table.students
      → IsConfined b m (record m { students = x; students_by_fin = y })
  students_written x y s = record {
    spares = λ t. elim t as (Between b m (record m { students = x; students_by_fin = y })) [
      | Table.students ↦ s
      | _ ↦ Spares-refl _ b _
    ];
    results = Adds-refl _ b _;
  }

  pub users_written :
      (x : Map User) (y : Map String)
      → Between b m (record m { users = x }) Table.users
      → IsConfined b m (record m { users = x; users_by_email = y })
  users_written x y s = record {
    spares = λ t. elim t as (Between b m (record m { users = x; users_by_email = y })) [
      | Table.users ↦ s
      | _ ↦ Spares-refl _ b _
    ];
    results = Adds-refl _ b _;
  }

  pub teachers_written :
      (x : Map Teacher) (y : Map String)
      → Between b m (record m { teachers = x }) Table.teachers
      → IsConfined b m (record m { teachers = x; teachers_by_user = y })
  teachers_written x y s = record {
    spares = λ t. elim t as (Between b m (record m { teachers = x; teachers_by_user = y })) [
      | Table.teachers ↦ s
      | _ ↦ Spares-refl _ b _
    ];
    results = Adds-refl _ b _;
  }

  pub account_written :
      (x : Map User) (y : Map String) (z : Map Teacher)
      → Between b m (record m { users = x }) Table.users
      → Between b m (record m { teachers = z }) Table.teachers
      → IsConfined b m (record m { users = x; users_by_email = y; teachers = z })
  account_written x y z s u = record {
    spares = λ t.
        elim t as (Between b m (record m { users = x; users_by_email = y; teachers = z })) [
          | Table.users ↦ s
          | Table.teachers ↦ u
          | _ ↦ Spares-refl _ b _
        ];
    results = Adds-refl _ b _;
  }

  pub results_written :
      (x : Map ExamResult)
      → Adds (λ (r : ExamResult). r.branch_id) b m.exam_results x
      → IsConfined b m (record m { exam_results = x })
  results_written x a = record {
    spares = λ t. elim t as (Between b m (record m { exam_results = x })) [
      | Table.rooms ↦ Spares-refl _ b _
      | _ ↦ Spares-refl _ b _
    ];
    results = a;
  }

  pub specializations_written :
      (x : Map (List String)) → IsConfined b m (record m { teacher_courses = x })
  specializations_written x = record {
    spares = λ t. elim t as (Between b m (record m { teacher_courses = x })) [
      | Table.rooms ↦ Spares-refl _ b _
      | _ ↦ Spares-refl _ b _
    ];
    results = Adds-refl _ b _;
  }

  pub participants_carried :
      {m' : Memory} (x : Map ExamParticipant)
      → IsConfined b m m'
      → IsConfined b m (record m' { exam_participants = x })
  participants_carried {m' = m'} x c = record {
    spares = λ t. elim t as (Between b m (record m' { exam_participants = x })) [
      | Table.rooms ↦ c.spares Table.rooms
      | k ↦ c.spares k
    ];
    results = c.results;
  }

  pub details_carried :
      {m' : Memory} (x : Map StudentParentContact) (y : Map StudentCourseRegistration)
      (z : Map StudentTeacherAssignment)
      → IsConfined b m m'
      → IsConfined b m
          (record m' { student_parents = x; student_courses = y; student_teacher_assignments = z })
  details_carried {m' = m'} x y z c = record {
    spares = λ t.
        elim t
          as (Between b m (record m' {
            student_parents = x;
            student_courses = y;
            student_teacher_assignments = z;
          })) [ Table.rooms ↦ c.spares Table.rooms | k ↦ c.spares k ];
    results = c.results;
  }
