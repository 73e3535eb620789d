-- ===== src/Academic/Classes.antt =====
-- The classes, enrolments and assignments of academic/course_class_assignment_service.go.
use kingsway_academy.Base.{
  String, ◌==◌, ◌||◌, ◌&&◌, not, Bool, false, if◌then◌else◌, List, [], ◌∷◌, ℕ, Option,
}
use kingsway_academy.Base.Text.{trim_space, is_empty}
use kingsway_academy.Domain.{
  Time, Role, Principal, Class, ClassStudent, Assignment, PageRequest, Result, ok, invalid_input,
  forbidden, is_owner, is_zero, refuse_if, page_slice, ◌>>=◌, ◌>>◌,
}
use kingsway_academy.Store.State.{when◌fail◌from◌otherwise◌, Memory, Outcome, if_passed}
use kingsway_academy.Store.Academic
use kingsway_academy.Store.Academic.{left_before}
use kingsway_academy.Store.Teachers.{get_teacher_by_user}
use kingsway_academy.Store.Listings
use kingsway_academy.Store.Pages
use kingsway_academy.Store.Pages.{keep_active}
use kingsway_academy.Auth.Service.{require_any_role, require_branch}
use kingsway_academy.Academic.Inputs.{CreateClassInput, EnrollStudentInput, CreateAssignmentInput}
use kingsway_academy.Academic.Steps.{own_branch, office, is_teacher, is_student}
use kingsway_academy.Academic.Filters.{
  can_use_class, filter_classes_for_actor, filter_assignments_for_actor,
}

abbrev pub asked_class : String → CreateClassInput → Class
asked_class branch_id input = record {
  id = "";
  branch_id = branch_id;
  course_id = trim_space input.course_id;
  teacher_id = trim_space input.teacher_id;
  name = trim_space input.name;
  start_date = input.start_date;
  end_date = input.end_date;
  is_active = false;
  created_at = 0;
  updated_at = 0;
}

-- CreateClass
unfoldable pub create_class : Time → String → Principal → CreateClassInput → Memory → Outcome Class
create_class ts id actor input m =
    let branch_id = own_branch actor input.branch_id in
    if_passed (require_any_role actor office >> require_branch actor branch_id) m (
      when is_zero input.start_date || left_before input.end_date input.start_date
      fail invalid_input
      from m
      otherwise Academic.create_class ts id (asked_class branch_id input) m)

-- GetClass
unfoldable pub get_class : Principal → String → Memory → Result Class
get_class actor id m = (Academic.get_class (trim_space id) m).0 >>= λ class.
    require_branch actor class.branch_id
    >> refuse_if (not (can_use_class actor class m)) forbidden
    >> ok class

-- ListClasses
unfoldable pub list_classes : Principal → String → Memory → Result (List Class)
list_classes actor given m =
    let branch_id = own_branch actor given in
    if is_owner actor && is_empty branch_id
    then ok (Listings.list_classes "" m)
    else require_branch actor branch_id
      >> filter_classes_for_actor actor (Listings.list_classes branch_id m) m

-- ListClassesPage
unfoldable pub list_classes_page :
    Principal → String → Option Bool → PageRequest → Memory → Result (List Class × ℕ)
unfolding list_classes
list_classes_page actor given active page m =
    let branch_id = trim_space (own_branch actor given) in
    if is_teacher actor || is_student actor
    then (list_classes actor given m >>= λ classes.
        ok (page_slice (keep_active active classes) page))
    else if is_owner actor && is_empty branch_id
    then ok (Pages.list_classes_page "" active page m)
    else require_branch actor branch_id >> ok (Pages.list_classes_page branch_id active page m)

abbrev pub asked_enrollment : String → EnrollStudentInput → ClassStudent
asked_enrollment branch_id input = record {
  id = "";
  branch_id = branch_id;
  class_id = trim_space input.class_id;
  student_id = trim_space input.student_id;
  joined_at = input.joined_at;
  left_at = input.left_at;
  created_at = 0;
}

-- EnrollStudent
unfoldable pub enroll_student :
    Time → String → Principal → EnrollStudentInput → Memory → Outcome ClassStudent
enroll_student ts id actor input m =
    let branch_id = own_branch actor input.branch_id in
    if_passed (require_any_role actor office >> require_branch actor branch_id) m (
      when is_zero input.joined_at || left_before input.left_at input.joined_at
      fail invalid_input
      from m
      otherwise Academic.enroll_student ts id (asked_enrollment branch_id input) m)

-- ListClassStudents
unfoldable pub list_class_students : Principal → String → Memory → Result (List ClassStudent)
list_class_students actor class_id m = (Academic.get_class (trim_space class_id) m).0 >>= λ class.
    require_branch actor class.branch_id
    >> ok (Listings.list_class_students class.branch_id class.id m)

-- ListClassStudentsPage
unfoldable pub list_class_students_page :
    Principal → String → PageRequest → Memory → Result (List ClassStudent × ℕ)
list_class_students_page actor class_id page m =
    (Academic.get_class (trim_space class_id) m).0 >>= λ class.
    require_branch actor class.branch_id
    >> ok (Pages.list_class_students_page class.branch_id class.id page m)

-- A teacher uses the own classes alone: the test of CreateAssignment and CreateExam.
unfoldable pub check_own_class : Principal → String → Memory → Result (Unit {0})
check_own_class actor class_id m = (Academic.get_class class_id m).0 >>= λ class.
    (get_teacher_by_user actor.user_id m).0 >>= λ teacher.
    refuse_if (not (class.teacher_id == teacher.id)) forbidden

abbrev pub asked_assignment : Principal → String → CreateAssignmentInput → Assignment
asked_assignment actor branch_id input = record {
  id = "";
  branch_id = branch_id;
  class_id = trim_space input.class_id;
  title = trim_space input.title;
  description = trim_space input.description;
  due_at = input.due_at;
  material_file_id = trim_space input.material_file_id;
  created_by_user_id = actor.user_id;
  created_at = 0;
  updated_at = 0;
}

-- CreateAssignment
unfoldable pub create_assignment :
    Time → String → Principal → CreateAssignmentInput → Memory → Outcome Assignment
unfolding check_own_class
create_assignment ts id actor input m =
    let branch_id = own_branch actor input.branch_id in
    if_passed
      (require_any_role actor (Role.owner ∷ Role.receptionist ∷ Role.teacher ∷ [])
        >> require_branch actor branch_id)
      m
      (when is_empty (trim_space input.title)
        fail invalid_input
        from m
        otherwise if_passed
            (if is_teacher actor then check_own_class actor input.class_id m else ok tt) m
            (Academic.create_assignment ts id (asked_assignment actor branch_id input) m))

-- The class of a listing that names one, if the actor may use it.
unfoldable pub usable_class : Principal → String → Memory → Result Class
usable_class actor class_id m = (Academic.get_class (trim_space class_id) m).0 >>= λ class.
    require_branch actor class.branch_id
    >> refuse_if (not (can_use_class actor class m)) forbidden
    >> ok class

-- ListAssignments
unfoldable pub list_assignments : Principal → String → String → Memory → Result (List Assignment)
unfolding usable_class
list_assignments actor given class_id m =
    let branch_id = own_branch actor given in
    if not (is_empty class_id)
    then (usable_class actor class_id m >>= λ class.
        ok (Listings.list_assignments class.branch_id class.id m))
    else if is_owner actor && is_empty branch_id
    then ok (Listings.list_assignments "" "" m)
    else require_branch actor branch_id
      >> filter_assignments_for_actor actor (Listings.list_assignments branch_id "" m) m

-- ListAssignmentsPage
unfoldable pub list_assignments_page :
    Principal → String → String → PageRequest → Memory → Result (List Assignment × ℕ)
unfolding usable_class list_assignments
list_assignments_page actor given class_id page m =
    let branch_id = trim_space (own_branch actor given) in
    if not (is_empty class_id)
    then (usable_class actor class_id m >>= λ class.
        ok (Pages.list_assignments_page class.branch_id class.id page m))
    else if is_teacher actor || is_student actor
    then (list_assignments actor given class_id m >>= λ rows. ok (page_slice rows page))
    else if is_owner actor && is_empty branch_id
    then ok (Pages.list_assignments_page "" "" page m)
    else require_branch actor branch_id >> ok (Pages.list_assignments_page branch_id "" page m)
