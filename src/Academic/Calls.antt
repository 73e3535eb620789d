-- ===== src/Academic/Calls.antt =====
-- The calls of the academic services that change the store, as steps: one call of an actor, whatever
-- it returns. A new id is fresh for the table that it goes into. Each of these functions is several
-- methods of the store in a row; here nothing comes between them.
use kingsway_academy.Base.{ℕ, String, ◌≡◌, none}
use kingsway_academy.Map.{lookup}
use kingsway_academy.Domain.{Time, Principal}
use kingsway_academy.Store.State.{Memory}
use kingsway_academy.Auth.Libraries.{Jwt, Bcrypt}
use kingsway_academy.Academic.Inputs.{
  CreateBranchInput, UpdateBranchInput, CreateStaffInput, UpdateStaffInput, CreateRoomInput,
  UpdateRoomInput, CreateScheduleItemInput, CreateCourseInput, CreateClassInput, EnrollStudentInput,
  CreateAssignmentInput, CreateExamInput, CreateExamResultInput, CreateStudentInput,
  UpdateStudentInput, CreateStudentAccountInput, RegisterTeacherInput, UpdateTeacherInput,
}
use kingsway_academy.Academic.Branches
use kingsway_academy.Academic.Staff
use kingsway_academy.Academic.Rooms
use kingsway_academy.Academic.Schedule
use kingsway_academy.Academic.Courses
use kingsway_academy.Academic.Classes
use kingsway_academy.Academic.Exams
use kingsway_academy.Academic.Students
use kingsway_academy.Academic.Teachers

pub data ServiceCall (jwt : Jwt) (bcrypt : Bcrypt) (secret : String) (actor : Principal)
    (m : Memory) : Memory → Type 0 where
  create_branch :
      (ts : Time) (id : String) (i : CreateBranchInput)
      → lookup id m.branches ≡ none
      → ServiceCall jwt bcrypt secret actor m (Branches.create_branch ts id actor i m).1
  update_branch :
      (ts : Time) (i : UpdateBranchInput)
      → ServiceCall jwt bcrypt secret actor m (Branches.update_branch ts actor i m).1
  delete_branch :
      (id : String) → ServiceCall jwt bcrypt secret actor m (Branches.delete_branch actor id m).1
  create_staff_member :
      (ts : Time) (user_id staff_id : String) (i : CreateStaffInput)
      → lookup user_id m.users ≡ none
      → lookup staff_id m.staff_members ≡ none
      → ServiceCall jwt bcrypt secret actor m
          (Staff.create_staff_member bcrypt ts user_id staff_id actor i m).1
  update_staff_member :
      (ts ts' : Time) (i : UpdateStaffInput)
      → ServiceCall jwt bcrypt secret actor m (Staff.update_staff_member bcrypt ts ts' actor i m).1
  delete_staff_member :
      (id : String) → ServiceCall jwt bcrypt secret actor m (Staff.delete_staff_member actor id m).1
  create_room :
      (ts : Time) (id : String) (i : CreateRoomInput)
      → lookup id m.rooms ≡ none
      → ServiceCall jwt bcrypt secret actor m (Rooms.create_room ts id actor i m).1
  update_room :
      (ts : Time) (i : UpdateRoomInput)
      → ServiceCall jwt bcrypt secret actor m (Rooms.update_room ts actor i m).1
  remove_room :
      (ts : Time) (id : String)
      → ServiceCall jwt bcrypt secret actor m (Rooms.remove_room ts actor id m).1
  create_schedule_item :
      (ts : Time) (id : String) (i : CreateScheduleItemInput)
      → lookup id m.schedules ≡ none
      → ServiceCall jwt bcrypt secret actor m (Schedule.create_schedule_item ts id actor i m).1
  create_course :
      (ts : Time) (new_id : ℕ → String) (i : CreateCourseInput)
      → lookup (new_id 0) m.courses ≡ none
      → ServiceCall jwt bcrypt secret actor m (Courses.create_course ts new_id actor i m).1
  create_class :
      (ts : Time) (id : String) (i : CreateClassInput)
      → lookup id m.classes ≡ none
      → ServiceCall jwt bcrypt secret actor m (Classes.create_class ts id actor i m).1
  enroll_student :
      (ts : Time) (id : String) (i : EnrollStudentInput)
      → lookup id m.class_students ≡ none
      → ServiceCall jwt bcrypt secret actor m (Classes.enroll_student ts id actor i m).1
  create_assignment :
      (ts : Time) (id : String) (i : CreateAssignmentInput)
      → lookup id m.assignments ≡ none
      → ServiceCall jwt bcrypt secret actor m (Classes.create_assignment ts id actor i m).1
  create_exam :
      (ts : Time) (id : String) (i : CreateExamInput)
      → lookup id m.exams ≡ none
      → ServiceCall jwt bcrypt secret actor m (Exams.create_exam ts id actor i m).1
  create_exam_result :
      (ts : Time) (id : String) (i : CreateExamResultInput)
      → ServiceCall jwt bcrypt secret actor m (Exams.create_exam_result ts id actor i m).1
  create_student :
      (ts : Time) (new_id : ℕ → String) (i : CreateStudentInput)
      → lookup (new_id 0) m.students ≡ none
      → ServiceCall jwt bcrypt secret actor m (Students.create_student ts new_id actor i m).1
  update_student :
      (ts : Time) (id : String) (i : UpdateStudentInput)
      → ServiceCall jwt bcrypt secret actor m (Students.update_student ts actor id i m).1
  create_student_account :
      (ts ts' : Time) (user_id id : String) (i : CreateStudentAccountInput)
      → lookup user_id m.users ≡ none
      → ServiceCall jwt bcrypt secret actor m
          (Students.create_student_account jwt bcrypt secret ts ts' user_id actor id i m).1
  register_teacher :
      (ts ts' : Time) (clock : ℕ → Time) (user_id teacher_id : String) (new_id : ℕ → ℕ → String)
      (i : RegisterTeacherInput)
      → lookup user_id m.users ≡ none
      → lookup teacher_id m.teachers ≡ none
      → ((n : ℕ) → lookup (new_id n 0) m.courses ≡ none)
      → ServiceCall jwt bcrypt secret actor m
          (Teachers.register_teacher jwt bcrypt secret ts ts' clock user_id teacher_id new_id actor
            i m).1
  update_teacher :
      (ts ts' : Time) (clock : ℕ → Time) (new_id : ℕ → ℕ → String) (i : UpdateTeacherInput)
      → ((n : ℕ) → lookup (new_id n 0) m.courses ≡ none)
      → ServiceCall jwt bcrypt secret actor m
          (Teachers.update_teacher jwt bcrypt secret ts ts' clock new_id actor i m).1
  activate_teacher :
      (ts : Time) (id : String)
      → ServiceCall jwt bcrypt secret actor m (Teachers.activate_teacher ts actor id m).1
