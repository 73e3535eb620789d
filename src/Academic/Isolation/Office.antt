-- ===== src/Academic/Isolation/Office.antt =====
-- Rooms, schedule, courses, classes and exams: what an actor who is no owner changes by them.
use kingsway_academy.Base.{ℕ, String, ◌≡◌, false, arith, ap, some, none, ◌∙◌}
use kingsway_academy.Base.Text.{trim_space}
use kingsway_academy.Domain.{Time, Principal, Room, ok, is_owner}
use kingsway_academy.Map.{lookup}
use kingsway_academy.Store.State.{Memory, with_row}
use kingsway_academy.Store.Keeps.{Keeps, keeps_when, keeps_if_passed, keeps_with_value}
use kingsway_academy.Store.Rooms
use kingsway_academy.Academic.Inputs.{
  CreateRoomInput, UpdateRoomInput, CreateScheduleItemInput, CreateCourseInput, CreateClassInput,
  EnrollStudentInput, CreateAssignmentInput, CreateExamInput, CreateExamResultInput,
}
use kingsway_academy.Academic.Rooms.{create_room, update_room, remove_room}
use kingsway_academy.Academic.Schedule.{create_schedule_item}
use kingsway_academy.Academic.Courses.{create_course}
use kingsway_academy.Academic.Classes.{create_class, enroll_student, create_assignment}
use kingsway_academy.Academic.Exams.{create_exam, create_exam_result}
use kingsway_academy.Academic.Steps.{own_branch}
use kingsway_academy.Academic.Isolation.{IsConfined, confined_refl}
use kingsway_academy.Academic.Isolation.Guards.{own_branch-no_owner, branch_passed}
use kingsway_academy.Academic.Isolation.Writes.{
  create_room-IsConfined, update_room-IsConfined, deactivate_room-IsConfined,
  create_schedule_item-IsConfined, create_class-IsConfined, enroll_student-IsConfined,
  create_assignment-IsConfined, create_exam-IsConfined, create_exam_result-IsConfined,
  create_course-IsConfined,
}

-- Every room stands under its own id.
pub record RoomsAreFiled (m : Memory) : Type 0 where
  pub own : (k : String) (r : Room) → lookup k m.rooms ≡ some r → r.id ≡ k

get_room_found :
    (id : String) (m : Memory) (room : Room)
    → (Rooms.get_room id m).0 ≡ ok room
    → lookup id m.rooms ≡ some room
unfolding Rooms.get_room with_row
get_room_found id m room h = ground arith

module _ (actor : Principal) (no_owner : is_owner actor ≡ false) (m : Memory) where
  same : IsConfined actor.branch_id m m
  same = confined_refl actor.branch_id m

  own : (given : String) → own_branch actor given ≡ actor.branch_id
  own given = own_branch-no_owner actor no_owner given

  pub room_created :
      (ts : Time) (id : String) (input : CreateRoomInput)
      → lookup id m.rooms ≡ none
      → Keeps (IsConfined actor.branch_id m) (create_room ts id actor input m)
  unfolding create_room
  room_created ts id input fresh =
      keeps_if_passed _ _ _ same
        λ passed. create_room-IsConfined _ m ts id _ (own input.branch_id) fresh

  stored_room :
      (id : String) (room : Room)
      → RoomsAreFiled m
      → lookup id m.rooms ≡ some room
      → room.branch_id ≡ actor.branch_id
      → (v : Room) → lookup room.id m.rooms ≡ some v
      → (v.id ≡ room.id) × (v.branch_id ≡ actor.branch_id)
  stored_room id room filed found here v e =
      let filed_here : room.id ≡ id = filed.own id room found in
      let again : lookup room.id m.rooms ≡ some room =
        ap (λ i. lookup i m.rooms) filed_here ∙ found in
      (ground arith, ground arith)

  pub room_updated :
      (ts : Time) (input : UpdateRoomInput)
      → RoomsAreFiled m
      → Keeps (IsConfined actor.branch_id m) (update_room ts actor input m)
  unfolding update_room
  room_updated ts input filed = keeps_if_passed _ _ _ same λ allowed.
      keeps_with_value _ _ _ same λ room got. keeps_if_passed _ _ _ same λ passed.
        keeps_when _ _ _ _ same λ named. update_room-IsConfined _ m ts _ (
          stored_room (trim_space input.id) room filed (get_room_found _ m room got)
            (branch_passed actor no_owner room.branch_id passed))

  pub room_removed :
      (ts : Time) (id : String)
      → RoomsAreFiled m
      → Keeps (IsConfined actor.branch_id m) (remove_room ts actor id m)
  unfolding remove_room
  room_removed ts id filed = keeps_if_passed _ _ _ same λ allowed.
      keeps_with_value _ _ _ same λ room got. keeps_if_passed _ _ _ same λ passed.
        deactivate_room-IsConfined _ m ts room.id λ v e.
          (stored_room (trim_space id) room filed (get_room_found _ m room got)
            (branch_passed actor no_owner room.branch_id passed) v e).1

  pub item_created :
      (ts : Time) (id : String) (input : CreateScheduleItemInput)
      → lookup id m.schedules ≡ none
      → Keeps (IsConfined actor.branch_id m) (create_schedule_item ts id actor input m)
  unfolding create_schedule_item
  item_created ts id input fresh = keeps_if_passed _ _ _ same λ passed.
      keeps_with_value _ _ _ same
        λ teacher_id chosen. create_schedule_item-IsConfined _ m ts id _ (own input.branch_id) fresh

  pub course_created :
      (ts : Time) (new_id : ℕ → String) (input : CreateCourseInput)
      → lookup (new_id 0) m.courses ≡ none
      → Keeps (IsConfined actor.branch_id m) (create_course ts new_id actor input m)
  unfolding create_course
  course_created ts new_id input fresh = keeps_if_passed _ _ _ same λ passed.
      create_course-IsConfined _ m ts new_id _ _ (own input.branch_id) λ v e. absurd (ground arith)

  pub class_created :
      (ts : Time) (id : String) (input : CreateClassInput)
      → lookup id m.classes ≡ none
      → Keeps (IsConfined actor.branch_id m) (create_class ts id actor input m)
  unfolding create_class
  class_created ts id input fresh = keeps_if_passed _ _ _ same λ passed.
      keeps_when _ _ _ _ same
        λ dated. create_class-IsConfined _ m ts id _ (own input.branch_id) fresh

  pub student_enrolled :
      (ts : Time) (id : String) (input : EnrollStudentInput)
      → lookup id m.class_students ≡ none
      → Keeps (IsConfined actor.branch_id m) (enroll_student ts id actor input m)
  unfolding enroll_student
  student_enrolled ts id input fresh = keeps_if_passed _ _ _ same λ passed.
      keeps_when _ _ _ _ same
        λ dated. enroll_student-IsConfined _ m ts id _ (own input.branch_id) fresh

  pub assignment_created :
      (ts : Time) (id : String) (input : CreateAssignmentInput)
      → lookup id m.assignments ≡ none
      → Keeps (IsConfined actor.branch_id m) (create_assignment ts id actor input m)
  unfolding create_assignment
  assignment_created ts id input fresh = keeps_if_passed _ _ _ same λ passed.
      keeps_when _ _ _ _ same λ titled.
        keeps_if_passed _ _ _ same
          λ taught. create_assignment-IsConfined _ m ts id _ (own input.branch_id) fresh

  pub exam_created :
      (ts : Time) (id : String) (input : CreateExamInput)
      → lookup id m.exams ≡ none
      → Keeps (IsConfined actor.branch_id m) (create_exam ts id actor input m)
  unfolding create_exam
  exam_created ts id input fresh = keeps_if_passed _ _ _ same λ passed.
      keeps_when _ _ _ _ same λ titled.
        keeps_if_passed _ _ _ same
          λ taught. create_exam-IsConfined _ m ts id _ _ (own input.branch_id) fresh

  pub result_created :
      (ts : Time) (id : String) (input : CreateExamResultInput)
      → Keeps (IsConfined actor.branch_id m) (create_exam_result ts id actor input m)
  unfolding create_exam_result
  result_created ts id input = keeps_if_passed _ _ _ same λ passed.
      keeps_with_value _ _ _ same
        λ teacher_id chosen. create_exam_result-IsConfined _ m ts id _ (own input.branch_id)
