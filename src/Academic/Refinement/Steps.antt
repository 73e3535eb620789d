-- ===== src/Academic/Refinement/Steps.antt =====
-- Each function of the academic services, as a run of calls of the store.
use kingsway_academy.Base.{ℕ, String, ◌≡◌, none}
use kingsway_academy.Domain.{Time, Principal}
use kingsway_academy.Map.{lookup}
use kingsway_academy.Store.State.{Memory, Outcome}
use kingsway_academy.Store.Keeps.{Keeps, keeps_when, keeps_if_passed, keeps_with_value}
use kingsway_academy.Store.Reach.{Reach, here, next, Call}
use kingsway_academy.Auth.Libraries.{Bcrypt}
use kingsway_academy.Academic.Inputs.{
  CreateBranchInput, UpdateBranchInput, CreateStaffInput, UpdateStaffInput, CreateRoomInput,
  UpdateRoomInput, CreateScheduleItemInput, CreateCourseInput, CreateClassInput, EnrollStudentInput,
  CreateAssignmentInput, CreateExamInput, CreateExamResultInput, CreateStudentInput,
  UpdateStudentInput,
}
use kingsway_academy.Academic.Branches.{create_branch, update_branch, delete_branch}
use kingsway_academy.Academic.Staff.{create_staff_member, update_staff_member, delete_staff_member}
use kingsway_academy.Academic.Rooms.{create_room, update_room, remove_room}
use kingsway_academy.Academic.Schedule.{create_schedule_item}
use kingsway_academy.Academic.Courses.{create_course}
use kingsway_academy.Academic.Classes.{create_class, enroll_student, create_assignment}
use kingsway_academy.Academic.Exams.{create_exam, create_exam_result}
use kingsway_academy.Academic.Students.{create_student, update_student}

-- One more call.
pub stepped :
    {A : Type 0} {m m' : Memory} {o : Outcome A} → Reach m m' → Call m' o.1 → Keeps (Reach m) o
stepped r c = record { kept = next r c }

module _ (m : Memory) where
  pub one : {A : Type 0} {o : Outcome A} → Call m o.1 → Keeps (Reach m) o
  one c = stepped here c

  pub branch_created :
      (ts : Time) (id : String) (actor : Principal) (i : CreateBranchInput)
      → lookup id m.branches ≡ none
      → Keeps (Reach m) (create_branch ts id actor i m)
  unfolding create_branch
  branch_created ts id actor i fresh = keeps_if_passed _ _ _ here λ p.
      keeps_with_value _ _ _ here
        λ a q. keeps_with_value _ _ _ here λ b r. one (Call.create_branch m ts id _ fresh)

  pub branch_updated :
      (ts : Time) (actor : Principal) (i : UpdateBranchInput)
      → Keeps (Reach m) (update_branch ts actor i m)
  unfolding update_branch
  branch_updated ts actor i = keeps_if_passed _ _ _ here λ p. keeps_with_value _ _ _ here λ b s.
      keeps_with_value _ _ _ here
        λ a q. keeps_with_value _ _ _ here λ c r. one (Call.update_branch m ts _)

  pub branch_deleted :
      (actor : Principal) (id : String) → Keeps (Reach m) (delete_branch actor id m)
  unfolding delete_branch
  branch_deleted actor id =
      keeps_if_passed _ _ _ here λ p. keeps_when _ _ _ _ here λ q. one (Call.delete_branch m _)

  pub staff_created :
      (bcrypt : Bcrypt) (ts : Time) (user_id staff_id : String) (actor : Principal)
      (i : CreateStaffInput)
      → lookup user_id m.users ≡ none
      → Keeps (Reach m) (create_staff_member bcrypt ts user_id staff_id actor i m)
  unfolding create_staff_member
  staff_created bcrypt ts user_id staff_id actor i fresh = keeps_if_passed _ _ _ here λ p.
      keeps_with_value _ _ _ here λ b q. keeps_when _ _ _ _ here λ r.
        keeps_with_value _ _ _ here λ d s.
          keeps_with_value _ _ _ here
            λ h t. one (Call.create_staff_member m ts user_id staff_id _ _ fresh)

  pub staff_updated :
      (bcrypt : Bcrypt) (ts ts' : Time) (actor : Principal) (i : UpdateStaffInput)
      → Keeps (Reach m) (update_staff_member bcrypt ts ts' actor i m)
  unfolding update_staff_member
  staff_updated bcrypt ts ts' actor i = keeps_if_passed _ _ _ here λ p.
      keeps_with_value _ _ _ here λ c q. keeps_if_passed _ _ _ here λ r.
        keeps_with_value _ _ _ here λ b s. keeps_when _ _ _ _ here λ t.
          keeps_with_value _ _ _ here
            λ d u. keeps_with_value _ _ _ here λ h v. one (Call.update_staff_member m ts ts' _ h)

  pub staff_deleted :
      (actor : Principal) (id : String) → Keeps (Reach m) (delete_staff_member actor id m)
  unfolding delete_staff_member
  staff_deleted actor id = keeps_if_passed _ _ _ here λ p.
      keeps_with_value _ _ _ here
        λ s q. keeps_if_passed _ _ _ here λ r. one (Call.delete_staff_member m s.id)

  pub room_created :
      (ts : Time) (id : String) (actor : Principal) (i : CreateRoomInput)
      → Keeps (Reach m) (create_room ts id actor i m)
  unfolding create_room
  room_created ts id actor i = keeps_if_passed _ _ _ here λ p. one (Call.create_room m ts id _)

  pub room_updated :
      (ts : Time) (actor : Principal) (i : UpdateRoomInput)
      → Keeps (Reach m) (update_room ts actor i m)
  unfolding update_room
  room_updated ts actor i = keeps_if_passed _ _ _ here λ p. keeps_with_value _ _ _ here λ r q.
      keeps_if_passed _ _ _ here λ s. keeps_when _ _ _ _ here λ t. one (Call.update_room m ts _)

  pub room_removed :
      (ts : Time) (actor : Principal) (id : String) → Keeps (Reach m) (remove_room ts actor id m)
  unfolding remove_room
  room_removed ts actor id = keeps_if_passed _ _ _ here λ p.
      keeps_with_value _ _ _ here
        λ r q. keeps_if_passed _ _ _ here λ s. one (Call.deactivate_room m ts r.id)

  pub item_created :
      (ts : Time) (id : String) (actor : Principal) (i : CreateScheduleItemInput)
      → lookup id m.schedules ≡ none
      → Keeps (Reach m) (create_schedule_item ts id actor i m)
  unfolding create_schedule_item
  item_created ts id actor i fresh =
      keeps_if_passed _ _ _ here
        λ p. keeps_with_value _ _ _ here λ t q. one (Call.create_schedule_item m ts id _ fresh)

  pub course_created :
      (ts : Time) (new_id : ℕ → String) (actor : Principal) (i : CreateCourseInput)
      → Keeps (Reach m) (create_course ts new_id actor i m)
  unfolding create_course
  course_created ts new_id actor i =
      keeps_if_passed _ _ _ here λ p. one (Call.create_course m ts new_id _ _)

  pub class_created :
      (ts : Time) (id : String) (actor : Principal) (i : CreateClassInput)
      → Keeps (Reach m) (create_class ts id actor i m)
  unfolding create_class
  class_created ts id actor i =
      keeps_if_passed _ _ _ here λ p. keeps_when _ _ _ _ here λ q. one (Call.create_class m ts id _)

  pub student_enrolled :
      (ts : Time) (id : String) (actor : Principal) (i : EnrollStudentInput)
      → Keeps (Reach m) (enroll_student ts id actor i m)
  unfolding enroll_student
  student_enrolled ts id actor i =
      keeps_if_passed _ _ _ here
        λ p. keeps_when _ _ _ _ here λ q. one (Call.enroll_student m ts id _)

  pub assignment_created :
      (ts : Time) (id : String) (actor : Principal) (i : CreateAssignmentInput)
      → Keeps (Reach m) (create_assignment ts id actor i m)
  unfolding create_assignment
  assignment_created ts id actor i = keeps_if_passed _ _ _ here λ p.
      keeps_when _ _ _ _ here
        λ q. keeps_if_passed _ _ _ here λ r. one (Call.create_assignment m ts id _)

  pub exam_created :
      (ts : Time) (id : String) (actor : Principal) (i : CreateExamInput)
      → Keeps (Reach m) (create_exam ts id actor i m)
  unfolding create_exam
  exam_created ts id actor i = keeps_if_passed _ _ _ here λ p.
      keeps_when _ _ _ _ here
        λ q. keeps_if_passed _ _ _ here λ r. one (Call.create_exam m ts id _ _)

  pub result_created :
      (ts : Time) (id : String) (actor : Principal) (i : CreateExamResultInput)
      → Keeps (Reach m) (create_exam_result ts id actor i m)
  unfolding create_exam_result
  result_created ts id actor i =
      keeps_if_passed _ _ _ here
        λ p. keeps_with_value _ _ _ here λ t q. one (Call.create_exam_result m ts id _)

  pub student_created :
      (ts : Time) (new_id : ℕ → String) (actor : Principal) (i : CreateStudentInput)
      → lookup (new_id 0) m.students ≡ none
      → Keeps (Reach m) (create_student ts new_id actor i m)
  unfolding create_student
  student_created ts new_id actor i fresh = keeps_if_passed _ _ _ here λ p.
      keeps_with_value _ _ _ here λ f q. keeps_when _ _ _ _ here λ r.
        keeps_if_passed _ _ _ here λ s. keeps_with_value _ _ _ here λ c t.
          keeps_with_value _ _ _ here
            λ d u. one (Call.create_student_with_details m ts new_id _ c d fresh)

  pub student_updated :
      (ts : Time) (actor : Principal) (id : String) (i : UpdateStudentInput)
      → Keeps (Reach m) (update_student ts actor id i m)
  unfolding update_student
  student_updated ts actor id i = keeps_if_passed _ _ _ here λ p.
      keeps_with_value _ _ _ here
        λ s q. keeps_if_passed _ _ _ here λ r. one (Call.update_student m ts _)
