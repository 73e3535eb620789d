-- ===== src/Store/Listings.antt =====
-- The listings and lookups of memory.go and academic_memory.go that the services read and that
-- stand beside no other method. A map is visited in the order of its entries.
use kingsway_academy.Base.{
  String, ◌==◌, ◌||◌, ◌&&◌, Bool, true, Option, none, some, if◌then◌else◌, List, [], ◌∷◌,
}
use kingsway_academy.Base.Text.{is_empty, text_lt}
use kingsway_academy.Base.Sort.{sort_slice}
use kingsway_academy.Map.{Map, lookup, get_or, values_where}
use kingsway_academy.Domain.{
  Branch, StaffMember, Student, StudentStatus, Class, ClassStudent, Assignment, Exam, ExamResult,
  ok, after,
}
use kingsway_academy.Store.State.{Memory, Outcome, with_row}

-- ListBranches
unfoldable pub list_branches : Memory → List Branch
list_branches m = sort_slice (λ b c. text_lt b.name c.name) (values_where (λ b. true) m.branches)

abbrev pub staff_less : StaffMember → StaffMember → Bool
staff_less s t =
    if s.last_name == t.last_name
    then text_lt s.first_name t.first_name
    else text_lt s.last_name t.last_name

-- ListStaffMembers
unfoldable pub list_staff_members : String → Memory → List StaffMember
list_staff_members branch_id m =
    sort_slice staff_less (values_where (λ s. s.branch_id == branch_id) m.staff_members)

-- The first value that a `range` meets and that passes the test.
unfoldable pub first_value : {V : Type 0} → (V → Bool) → Map V → Option V
first_value p [] = none
first_value p ((k, v) ∷ m) = if p v then some v else first_value p m

-- GetStudentByUser
unfoldable pub get_student_by_user : String → Memory → Outcome Student
unfolding first_value
get_student_by_user user_id m =
    with_row (first_value (λ s. s.user_id == user_id) m.students) m (λ student. (ok student, m))

-- The zero value of the struct Student.
abbrev pub zero_student : Student
zero_student = record {
  id = "";
  branch_id = "";
  user_id = "";
  fin = "";
  first_name = "";
  last_name = "";
  birth_date = "";
  gender = "";
  phone = "";
  address = "";
  profile_photo_file_id = "";
  status = StudentStatus.other "";
  left_reason = "";
  created_at = 0;
  updated_at = 0;
}

-- GetStudentByFIN
unfoldable pub get_student_by_fin : String → Memory → Outcome Student
get_student_by_fin fin m =
    with_row (lookup fin m.students_by_fin) m λ id. (ok (get_or id m.students zero_student), m)

-- ListClasses
unfoldable pub list_classes : String → Memory → List Class
list_classes branch_id m =
    sort_slice (λ c d. after c.start_date d.start_date)
      (values_where (λ c. is_empty branch_id || c.branch_id == branch_id) m.classes)

-- ListClassStudents
unfoldable pub list_class_students : String → String → Memory → List ClassStudent
list_class_students branch_id class_id m =
    values_where
      (λ e.
        (is_empty branch_id || e.branch_id == branch_id)
        && (is_empty class_id || e.class_id == class_id))
      m.class_students

-- ListAssignments
unfoldable pub list_assignments : String → String → Memory → List Assignment
list_assignments branch_id class_id m =
    values_where
      (λ a.
        (is_empty branch_id || a.branch_id == branch_id)
        && (is_empty class_id || a.class_id == class_id))
      m.assignments

-- ListExams
unfoldable pub list_exams : String → String → Memory → List Exam
list_exams branch_id class_id m =
    sort_slice (λ e f. after e.created_at f.created_at)
      (values_where
        (λ e.
          (is_empty branch_id || e.branch_id == branch_id)
          && (is_empty class_id || e.class_id == class_id))
        m.exams)

-- ListExamResults
unfoldable pub list_exam_results : String → String → String → Memory → List ExamResult
list_exam_results branch_id exam_id student_id m =
    values_where
      (λ r.
        (is_empty branch_id || r.branch_id == branch_id)
        && (is_empty exam_id || r.exam_id == exam_id)
        && (is_empty student_id || r.student_id == student_id))
      m.exam_results
