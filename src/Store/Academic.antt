-- ===== src/Store/Academic.antt =====
-- The classes, enrolments, assignments and exams of academic_memory.go.
use Prim.Native.Nat.{◌*◌, ◌/◌}
use Prim.Native.String
use kingsway_academy.Base.{
  String, ◌==◌, ◌||◌, ◌&&◌, not, Bool, true, false, Option, none, some, if◌then◌else◌, List, [],
  ◌∷◌, eqb, length,
}
use kingsway_academy.Base.Int.{pos, ltb_ℤ}
use kingsway_academy.Base.Text.{trim_space, is_empty, equal_fold}
use kingsway_academy.Map.{lookup, insert, any_value, get_or, values_where}
use kingsway_academy.Domain.{
  Time, Class, ClassStudent, Assignment, Exam, ExamParticipant, ExamResult, ScoreCategory,
  AcademicDashboard, StudentStatus, PaymentStatus, FilePurpose, RsvpStatus, Result, ok, err,
  invalid_input, conflict, not_found, is_zero, before, after, ◌>>=◌,
}
use kingsway_academy.Store.State.{when◌fail◌from◌otherwise◌, Memory, Outcome, if_passed, with_row}
use kingsway_academy.Store.Students.{is_active_teacher}
use kingsway_academy.Store.Schedules.{is_set}

-- The test of the loop in CreateClass.
abbrev pub same_class : Class → Class → Bool
same_class class existing =
    existing.branch_id == class.branch_id && equal_fold existing.name class.name

-- CreateClass
unfoldable pub create_class : Time → String → Class → Memory → Outcome Class
create_class ts id class m =
    let row = record class {
      id = id;
      name = trim_space class.name;
      is_active = true;
      created_at = ts;
      updated_at = ts;
    } in
    when is_empty (trim_space class.name)
      || is_empty class.course_id
      || is_empty class.teacher_id
      || is_zero class.start_date
    fail invalid_input
    from m
    otherwise with_row (lookup class.course_id m.courses) m λ course.
      with_row (lookup class.teacher_id m.teachers) m λ teacher.
        when not (course.branch_id == class.branch_id)
          || not (teacher.branch_id == class.branch_id)
          || not (is_active_teacher teacher.status)
        fail invalid_input
        from m
        otherwise when any_value (same_class class) m.classes
        fail conflict
        from m
        otherwise (ok row, record m { classes = insert id row m.classes })

-- GetClass
unfoldable pub get_class : String → Memory → Outcome Class
get_class id m = with_row (lookup id m.classes) m (λ class. (ok class, m))

-- sameDay, for times in UTC
unfoldable pub same_day : Time → Time → Bool
same_day a b = eqb (a / (24 * 3600 * 1000000000)) (b / (24 * 3600 * 1000000000))

-- `left.Before(joined)`, for a pointer that may be nil
abbrev pub left_before : Option Time → Time → Bool
left_before none joined = false
left_before (some t) joined = before t joined

-- The test of the loop in EnrollStudent.
abbrev pub same_enrollment : ClassStudent → ClassStudent → Bool
same_enrollment enrollment existing =
    existing.class_id == enrollment.class_id
    && existing.student_id == enrollment.student_id
    && same_day existing.joined_at enrollment.joined_at

-- EnrollStudent
unfoldable pub enroll_student : Time → String → ClassStudent → Memory → Outcome ClassStudent
enroll_student ts id enrollment m = with_row (lookup enrollment.class_id m.classes) m λ class.
    with_row (lookup enrollment.student_id m.students) m λ student.
      let row = record enrollment { id = id; created_at = ts } in
      when not (class.branch_id == enrollment.branch_id)
        || not (student.branch_id == enrollment.branch_id)
        || is_zero enrollment.joined_at
      fail invalid_input
      from m
      otherwise when left_before enrollment.left_at enrollment.joined_at
      fail invalid_input
      from m
      otherwise when any_value (same_enrollment enrollment) m.class_students
      fail conflict
      from m
      otherwise (ok row, record m { class_students = insert id row m.class_students })

-- CreateAssignment
unfoldable pub create_assignment : Time → String → Assignment → Memory → Outcome Assignment
create_assignment ts id assignment m = with_row (lookup assignment.class_id m.classes) m λ class.
    let row = record assignment {
      id = id;
      title = trim_space assignment.title;
      description = trim_space assignment.description;
      created_at = ts;
      updated_at = ts;
    } in
    when not (class.branch_id == assignment.branch_id)
      || is_empty (trim_space assignment.title)
      || is_empty assignment.created_by_user_id
    fail invalid_input
    from m
    otherwise (ok row, record m { assignments = insert id row m.assignments })

-- The test of an exam's class, if it names one.
unfoldable pub check_exam_class : Exam → Memory → Result (Unit {0})
check_exam_class exam m =
    if is_empty exam.class_id then ok tt else elim (lookup exam.class_id m.classes) [
      | none ↦ err not_found
      | some class ↦
          if not (class.branch_id == exam.branch_id) || not (class.course_id == exam.course_id)
          then err invalid_input
          else ok tt
    ]

abbrev pub participant_row : Exam → String → ExamParticipant
participant_row exam student_id = record {
  exam_id = exam.id;
  student_id = student_id;
  branch_id = exam.branch_id;
  rsvp_status = RsvpStatus.pending;
}

-- The loop of CreateExam over the participants: what is written before an error stays written.
unfoldable pub add_participants : Exam → List String → Memory → Outcome (List ExamParticipant)
add_participants exam [] m = (ok [], m)
add_participants exam (s ∷ ss) m =
    let student_id = trim_space s in
    let row = participant_row exam student_id in
    let key = String.◌++◌ exam.id (String.◌++◌ ":" student_id) in
    let skipped = add_participants exam ss m in
    let rest =
      add_participants exam ss
        (record m { exam_participants = insert key row m.exam_participants }) in
    if is_empty student_id
    then skipped
    else with_row (lookup student_id m.students) m λ student.
      when not (student.branch_id == exam.branch_id)
      fail invalid_input
      from m
      otherwise (rest.0 >>= (λ rows. ok (row ∷ rows)), rest.1)

-- CreateExam
unfoldable pub create_exam :
    Time → String → Exam → List String → Memory → Outcome (Exam × List ExamParticipant)
unfolding check_exam_class add_participants
create_exam ts id exam student_ids m = with_row (lookup exam.course_id m.courses) m λ course.
    let row = record exam {
      id = id;
      title = trim_space exam.title;
      created_at = ts;
      updated_at = ts;
    } in
    let added = add_participants row student_ids (record m { exams = insert id row m.exams }) in
    when not (course.branch_id == exam.branch_id)
      || is_empty (trim_space exam.title)
      || is_empty exam.created_by_user_id
    fail invalid_input
    from m
    otherwise if_passed (check_exam_class exam m) m (added.0 >>= (λ rows. ok (row, rows)), added.1)

-- GetExam
unfoldable pub get_exam : String → Memory → Outcome Exam
get_exam id m = with_row (lookup id m.exams) m (λ exam. (ok exam, m))

-- The loop of CreateExamResult over the categories of the course; `found` is `categoryOK`.
unfoldable pub check_score : ExamResult → Bool → List ScoreCategory → Result (Unit {0})
check_score result found [] = if found then ok tt else err not_found
check_score result found (c ∷ cs) =
    let rest = check_score result (found || c.id == result.category_id) cs in
    if c.id == result.category_id
      && (ltb_ℤ result.score c.min_score || ltb_ℤ c.max_score result.score)
    then err invalid_input
    else rest

-- The key of a result: one for each exam, student and category.
abbrev pub result_key : ExamResult → String
result_key r =
    String.◌++◌ r.exam_id
      (String.◌++◌ ":" (String.◌++◌ r.student_id (String.◌++◌ ":" r.category_id)))

-- The row that is stored: it keeps the id of the row that it replaces.
unfoldable pub result_row : Time → String → ExamResult → Option ExamResult → ExamResult
result_row ts id result none = record result {
  id = id;
  created_at = ts;
  updated_at = ts;
  feedback = trim_space result.feedback;
}
result_row ts id result (some existing) = record result {
  id = existing.id;
  created_at = existing.created_at;
  updated_at = ts;
  feedback = trim_space result.feedback;
}

-- CreateExamResult
unfoldable pub create_exam_result : Time → String → ExamResult → Memory → Outcome ExamResult
unfolding check_score result_row
create_exam_result ts id result m = with_row (lookup result.exam_id m.exams) m λ exam.
    with_row (lookup result.student_id m.students) m λ student.
      with_row (lookup result.entered_by_teacher_id m.teachers) m λ teacher.
        let row = result_row ts id result (lookup (result_key result) m.exam_results) in
        when not (exam.branch_id == result.branch_id)
          || not (student.branch_id == result.branch_id)
          || not (teacher.branch_id == result.branch_id)
        fail invalid_input
        from m
        otherwise if_passed
            (check_score result false (get_or exam.course_id m.course_categories [])) m
            (ok row, record m { exam_results = insert (result_key result) row m.exam_results })

abbrev is_active_student : StudentStatus → Bool
is_active_student StudentStatus.active = true
is_active_student _ = false

abbrev is_unpaid : PaymentStatus → Bool
is_unpaid PaymentStatus.pending = true
is_unpaid PaymentStatus.overdue = true
is_unpaid _ = false

abbrev is_writing : FilePurpose → Bool
is_writing FilePurpose.exam_writing = true
is_writing _ = false

-- AcademicDashboard; `ts` is the reading of the clock
unfoldable pub academic_dashboard : Time → String → Memory → AcademicDashboard
academic_dashboard ts branch_id m =
    let here = λ (b : String). is_empty branch_id || b == branch_id in
    record {
      branch_id = branch_id;
      active_students =
          pos (
            length (values_where (λ s. here s.branch_id && is_active_student s.status) m.students));
      active_teachers =
          pos (
            length (values_where (λ t. here t.branch_id && is_active_teacher t.status) m.teachers));
      active_classes = pos (length (values_where (λ c. here c.branch_id && c.is_active) m.classes));
      upcoming_schedule = pos (
          length (
            values_where
              (λ s. here s.branch_id && not (is_set s.cancelled_at) && after s.starts_at ts)
              m.schedules));
      pending_payments =
          pos (length (values_where (λ p. here p.branch_id && is_unpaid p.status) m.payments));
      writing_files_retained = pos (
          length (
            values_where
              (λ f. here f.branch_id && is_writing f.purpose && not (is_set f.deleted_at))
              m.files));
    }
