-- ===== src/Academic/Exams.antt =====
-- academic/exam_service.go.
use kingsway_academy.Base.{String, ◌==◌, ◌||◌, ◌&&◌, not, if◌then◌else◌, List, [], ◌∷◌, ℕ}
use kingsway_academy.Base.Text.{trim_space, is_empty}
use kingsway_academy.Domain.{
  Time, Role, Principal, Exam, ExamParticipant, ExamResult, AcademicDashboard, PageRequest, Result,
  ok, err, invalid_input, forbidden, is_owner, refuse_if, page_slice, ◌>>=◌, ◌>>◌,
}
use kingsway_academy.Store.State.{when◌fail◌from◌otherwise◌, Memory, Outcome, if_passed, with_value}
use kingsway_academy.Store.Academic
use kingsway_academy.Store.Teachers.{get_teacher_by_user}
use kingsway_academy.Store.Listings
use kingsway_academy.Store.Pages
use kingsway_academy.Auth.Service.{require_any_role, require_branch}
use kingsway_academy.Academic.Inputs.{CreateExamInput, CreateExamResultInput}
use kingsway_academy.Academic.Steps.{own_branch, is_teacher, is_student}
use kingsway_academy.Academic.Filters.{filter_exams_for_actor, filter_exam_results_for_actor}
use kingsway_academy.Academic.Classes.{check_own_class, usable_class}

abbrev pub asked_exam : Principal → String → CreateExamInput → Exam
asked_exam actor branch_id input = record {
  id = "";
  branch_id = branch_id;
  course_id = trim_space input.course_id;
  class_id = trim_space input.class_id;
  schedule_item_id = trim_space input.schedule_item_id;
  title = trim_space input.title;
  created_by_user_id = actor.user_id;
  created_at = 0;
  updated_at = 0;
}

-- CreateExam
unfoldable pub create_exam :
    Time → String → Principal → CreateExamInput → Memory → Outcome (Exam × List ExamParticipant)
create_exam ts id actor input m =
    let branch_id = own_branch actor input.branch_id in
    if_passed
      (require_any_role actor (Role.owner ∷ Role.receptionist ∷ Role.teacher ∷ [])
        >> require_branch actor branch_id)
      m
      (when is_empty (trim_space input.title) || is_empty (trim_space input.course_id)
        fail invalid_input
        from m
        otherwise if_passed
            (if is_teacher actor && not (is_empty input.class_id)
              then check_own_class actor input.class_id m
              else ok tt)
            m
            (Academic.create_exam ts id (asked_exam actor branch_id input)
              input.participant_student_ids m))

-- GetExam
unfoldable pub get_exam : Principal → String → Memory → Result Exam
get_exam actor id m = (Academic.get_exam (trim_space id) m).0 >>= λ exam.
    require_branch actor exam.branch_id
    >> (filter_exams_for_actor actor (exam ∷ []) m >>= λ filtered. elim filtered [
      | [] ↦ err forbidden
      | e ∷ rest ↦ ok exam
    ])

-- ListExams
unfoldable pub list_exams : Principal → String → String → Memory → Result (List Exam)
list_exams actor given class_id m =
    let branch_id = own_branch actor given in
    if not (is_empty class_id)
    then (usable_class actor class_id m >>= λ class.
        ok (Listings.list_exams class.branch_id class.id m))
    else if is_owner actor && is_empty branch_id
    then ok (Listings.list_exams "" "" m)
    else require_branch actor branch_id
      >> filter_exams_for_actor actor (Listings.list_exams branch_id "" m) m

-- ListExamsPage
unfoldable pub list_exams_page :
    Principal → String → String → PageRequest → Memory → Result (List Exam × ℕ)
unfolding list_exams
list_exams_page actor given class_id page m =
    let branch_id = trim_space (own_branch actor given) in
    if not (is_empty class_id)
    then (usable_class actor class_id m >>= λ class.
        ok (Pages.list_exams_page class.branch_id class.id page m))
    else if is_teacher actor || is_student actor
    then (list_exams actor given class_id m >>= λ rows. ok (page_slice rows page))
    else if is_owner actor && is_empty branch_id
    then ok (Pages.list_exams_page "" "" page m)
    else require_branch actor branch_id >> ok (Pages.list_exams_page branch_id "" page m)

-- May the teacher enter results of the exam?
unfoldable pub check_own_exam : Principal → String → Exam → Memory → Result (Unit {0})
check_own_exam actor teacher_id exam m =
    if not (is_empty exam.class_id)
    then ((Academic.get_class exam.class_id m).0 >>= λ class.
        refuse_if (not (class.teacher_id == teacher_id)) forbidden)
    else refuse_if (not (exam.created_by_user_id == actor.user_id)) forbidden

-- The teacher whom CreateExamResult records, or why it does not.
unfoldable pub teacher_of_result : Principal → CreateExamResultInput → Memory → Result String
unfolding check_own_exam
teacher_of_result actor input m =
    (if is_teacher actor
      then ((get_teacher_by_user actor.user_id m).0 >>= λ teacher.
          (Academic.get_exam input.exam_id m).0 >>= λ exam.
          check_own_exam actor teacher.id exam m >> ok teacher.id)
      else ok "")
    >>= λ own.
        let teacher_id = if is_empty own then trim_space input.entered_by_teacher_id else own in
        refuse_if (is_empty teacher_id) invalid_input >> ok teacher_id

abbrev pub asked_result : String → String → CreateExamResultInput → ExamResult
asked_result branch_id teacher_id input = record {
  id = "";
  branch_id = branch_id;
  exam_id = trim_space input.exam_id;
  student_id = trim_space input.student_id;
  category_id = trim_space input.category_id;
  score = input.score;
  feedback = trim_space input.feedback;
  document_file_id = trim_space input.document_file_id;
  entered_by_teacher_id = teacher_id;
  created_at = 0;
  updated_at = 0;
}

-- CreateExamResult
unfoldable pub create_exam_result :
    Time → String → Principal → CreateExamResultInput → Memory → Outcome ExamResult
unfolding teacher_of_result
create_exam_result ts id actor input m =
    let branch_id = own_branch actor input.branch_id in
    if_passed
      (require_any_role actor (Role.owner ∷ Role.teacher ∷ []) >> require_branch actor branch_id) m
      (with_value (teacher_of_result actor input m) m
        λ teacher_id. Academic.create_exam_result ts id (asked_result branch_id teacher_id input) m)

-- ListExamResults
unfoldable pub list_exam_results :
    Principal → String → String → String → Memory → Result (List ExamResult)
list_exam_results actor given exam_id student_id m =
    let branch_id = own_branch actor given in
    let found =
      λ (b : String). Listings.list_exam_results b (trim_space exam_id) (trim_space student_id) m in
    if is_owner actor && is_empty branch_id
    then ok (found "")
    else require_branch actor branch_id >> filter_exam_results_for_actor actor (found branch_id) m

-- ListExamResultsPage
unfoldable pub list_exam_results_page :
    Principal → String → String → String → PageRequest → Memory → Result (List ExamResult × ℕ)
unfolding list_exam_results
list_exam_results_page actor given exam_id student_id page m =
    let branch_id = trim_space (own_branch actor given) in
    let found = λ (b : String).
      Pages.list_exam_results_page b (trim_space exam_id) (trim_space student_id) page m in
    if is_teacher actor || is_student actor
    then (list_exam_results actor given exam_id student_id m >>= λ rows. ok (page_slice rows page))
    else if is_owner actor && is_empty branch_id
    then ok (found "")
    else require_branch actor branch_id >> ok (found branch_id)

-- AcademicDashboard
unfoldable pub academic_dashboard : Time → Principal → String → Memory → Result AcademicDashboard
academic_dashboard ts actor given m =
    let branch_id = own_branch actor given in
    if is_owner actor && is_empty branch_id
    then ok (Academic.academic_dashboard ts "" m)
    else require_branch actor branch_id >> ok (Academic.academic_dashboard ts branch_id m)
