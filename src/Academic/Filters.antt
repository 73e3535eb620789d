-- ===== src/Academic/Filters.antt =====
-- academic/filters.go: what of a listing an actor may see.
use kingsway_academy.Base.{
  String, ◌==◌, ◌&&◌, not, Bool, true, false, if◌then◌else◌, List, [], ◌∷◌, any, keep,
}
use kingsway_academy.Base.Text.{is_empty}
use kingsway_academy.Domain.{
  Role, Principal, Class, Student, Teacher, Assignment, ScheduleItem, Exam, ExamResult, Result, ok,
  err, ◌>>=◌,
}
use kingsway_academy.Store.State.{Memory}
use kingsway_academy.Store.Schedules.{is_set}
use kingsway_academy.Store.Teachers.{get_teacher_by_user}
use kingsway_academy.Store.Academic.{get_class, get_exam}
use kingsway_academy.Store.Listings.{get_student_by_user, list_classes, list_class_students}
use kingsway_academy.Academic.Steps.{as_student, attends, filter_by_role}

-- filterClassesForActor
unfoldable pub filter_classes_for_actor : Principal → List Class → Memory → Result (List Class)
unfolding as_student attends filter_by_role
filter_classes_for_actor actor classes m =
    filter_by_role actor.role (ok classes)
      ((get_teacher_by_user actor.user_id m).0 >>= λ teacher.
        ok (keep (λ c. c.teacher_id == teacher.id) classes))
      (as_student actor m λ student. keep (λ c. attends student m c.id) classes)

-- Is the student in a class of the teacher, by an enrolment that is not over?
unfoldable pub is_taught : Teacher → Memory → String → Bool
is_taught teacher m student_id =
    let classes = list_classes teacher.branch_id m in
    any
      (λ e.
        any (λ c. c.teacher_id == teacher.id && c.id == e.class_id) classes
        && not (is_set e.left_at)
        && e.student_id == student_id)
      (list_class_students teacher.branch_id "" m)

-- filterStudentsForActor
unfoldable pub filter_students_for_actor : Principal → List Student → Memory → Result (List Student)
unfolding as_student is_taught filter_by_role
filter_students_for_actor actor students m =
    filter_by_role actor.role (ok students)
      ((get_teacher_by_user actor.user_id m).0 >>= λ teacher.
        ok (keep (λ s. is_taught teacher m s.id) students))
      (as_student actor m λ student. student ∷ [])

-- The student's branch of canUseClass.
unfoldable pub attends_class : Student → Class → Memory → Bool
attends_class student class m =
    any (λ e. e.student_id == student.id && not (is_set e.left_at))
      (list_class_students student.branch_id class.id m)

-- canUseClass
unfoldable pub can_use_class : Principal → Class → Memory → Bool
unfolding attends_class
can_use_class actor class m = elim actor.role [
  | Role.owner ↦ true
  | Role.receptionist ↦ true
  | Role.teacher ↦ elim (get_teacher_by_user actor.user_id m).0 [
    | err e ↦ false
    | ok teacher ↦ class.teacher_id == teacher.id
  ]
  | Role.student ↦ elim (get_student_by_user actor.user_id m).0 [
    | err e ↦ false
    | ok student ↦ attends_class student class m
  ]
  | Role.other s ↦ false
]

-- filterAssignmentsForActor
unfoldable pub filter_assignments_for_actor :
    Principal → List Assignment → Memory → Result (List Assignment)
unfolding can_use_class
filter_assignments_for_actor actor [] m = ok []
filter_assignments_for_actor actor (a ∷ rest) m =
    let others = filter_assignments_for_actor actor rest m in
    (get_class a.class_id m).0 >>= λ class.
    others >>= λ kept. ok (if can_use_class actor class m then a ∷ kept else kept)

-- filterScheduleForActor
unfoldable pub filter_schedule_for_actor :
    Principal → List ScheduleItem → Memory → Result (List ScheduleItem)
unfolding as_student attends filter_by_role
filter_schedule_for_actor actor items m =
    filter_by_role actor.role (ok items)
      ((get_teacher_by_user actor.user_id m).0 >>= λ teacher.
        ok (keep (λ i. i.teacher_id == teacher.id) items))
      (as_student actor m
        λ student. keep (λ i. not (is_empty i.class_id) && attends student m i.class_id) items)

-- The loop over the exams for a teacher.
unfoldable pub teachers_exams : Principal → Teacher → List Exam → Memory → Result (List Exam)
teachers_exams actor teacher [] m = ok []
teachers_exams actor teacher (e ∷ rest) m =
    let others = teachers_exams actor teacher rest m in
    if e.created_by_user_id == actor.user_id
    then others >>= (λ kept. ok (e ∷ kept))
    else if is_empty e.class_id
    then others
    else (get_class e.class_id m).0 >>= λ class.
        others >>= λ kept. ok (if class.teacher_id == teacher.id then e ∷ kept else kept)

-- filterExamsForActor
unfoldable pub filter_exams_for_actor : Principal → List Exam → Memory → Result (List Exam)
unfolding as_student attends filter_by_role teachers_exams
filter_exams_for_actor actor exams m =
    filter_by_role actor.role (ok exams)
      ((get_teacher_by_user actor.user_id m).0 >>= λ teacher. teachers_exams actor teacher exams m)
      (as_student actor m
        λ student. keep (λ e. not (is_empty e.class_id) && attends student m e.class_id) exams)

-- The loop over the results for a teacher.
unfoldable pub teachers_results : Teacher → List ExamResult → Memory → Result (List ExamResult)
teachers_results teacher [] m = ok []
teachers_results teacher (r ∷ rest) m =
    let others = teachers_results teacher rest m in
    if r.entered_by_teacher_id == teacher.id
    then others >>= (λ kept. ok (r ∷ kept))
    else (get_exam r.exam_id m).0 >>= λ exam.
        if is_empty exam.class_id
        then others
        else (get_class exam.class_id m).0 >>= λ class.
            others >>= λ kept. ok (if class.teacher_id == teacher.id then r ∷ kept else kept)

-- filterExamResultsForActor
unfoldable pub filter_exam_results_for_actor :
    Principal → List ExamResult → Memory → Result (List ExamResult)
unfolding as_student filter_by_role teachers_results
filter_exam_results_for_actor actor results m =
    filter_by_role actor.role (ok results)
      ((get_teacher_by_user actor.user_id m).0 >>= λ teacher. teachers_results teacher results m)
      (as_student actor m λ student. keep (λ r. r.student_id == student.id) results)
