-- ===== src/Store/TeacherFinance.antt =====
-- The finance records of teachers in memory.go and memory_pagination.go.
use kingsway_academy.Base.{
  ℕ, String, ◌==◌, ◌||◌, ◌&&◌, not, Bool, true, false, Option, none, some, if◌then◌else◌, List, [],
  ◌∷◌, any, length, keep, map,
}
use Prim.Native.String
use kingsway_academy.Base.Int.{ℤ, pos}
use kingsway_academy.Base.Text.{is_empty, trim_space, to_lower, text_lt, contains_text}
use kingsway_academy.Base.Sort.{sort_slice}
use kingsway_academy.Map.{lookup, get_or, values_where}
use kingsway_academy.Domain.{
  Teacher, TeacherStatus, User, Branch, SalaryModel, SalaryModelType, TeacherFinanceRecord,
  PageRequest, after, teacher_status_text, salary_type_text,
}
use kingsway_academy.Store.State.{Memory}
use kingsway_academy.Store.Schedules.{is_set}
use kingsway_academy.Store.Pages.{page_slice, keep_text}

-- The loop of latestTeacherSalary over the models of the teacher.
unfoldable pub latest_model : Option SalaryModel → List SalaryModel → Option SalaryModel
latest_model latest [] = latest
latest_model none (s ∷ ss) = latest_model (some s) ss
latest_model (some l) (s ∷ ss) =
    let newer = latest_model (some s) ss in
    let older = latest_model (some l) ss in if after s.created_at l.created_at then newer else older

abbrev pays_fixed : SalaryModelType → Bool
pays_fixed SalaryModelType.fixed = true
pays_fixed SalaryModelType.hybrid = true
pays_fixed _ = false

-- latestTeacherSalary
unfoldable pub latest_teacher_salary : String → Memory → SalaryModelType × ℤ
unfolding latest_model
latest_teacher_salary teacher_id m =
    elim (latest_model none (values_where (λ s. s.teacher_id == teacher_id) m.salary_models)) [
      | none ↦ (SalaryModelType.other "", pos 0)
      | some s ↦
          (s.model_type, if pays_fixed s.model_type then s.fixed_monthly_amount_cents else pos 0)
    ]

-- The names of the courses that are stored.
unfoldable pub course_names : List String → Memory → List String
course_names [] m = []
course_names (c ∷ cs) m =
    let rest = course_names cs m in
    elim (lookup c m.courses) [ none ↦ rest | some course ↦ course.name ∷ rest ]

-- `strings.Join(names, ", ")`
unfoldable pub join_names : List String → String
join_names [] = ""
join_names (n ∷ []) = n
join_names (n ∷ n' ∷ ns) = String.◌++◌ n (String.◌++◌ ", " (join_names (n' ∷ ns)))

-- subjectsForTeacher
unfoldable pub subjects_for_teacher : String → Memory → String
unfolding course_names join_names
subjects_for_teacher teacher_id m =
    join_names (sort_slice text_lt (course_names (get_or teacher_id m.teacher_courses []) m))

-- The texts of a list, each once.
unfoldable pub distinct : List String → List String
distinct [] = []
distinct (s ∷ ss) = let rest = distinct ss in if any (λ t. t == s) rest then rest else s ∷ rest

-- assignedStudentsForTeacher
unfoldable pub assigned_students_for_teacher : String → Memory → ℤ
unfolding distinct
assigned_students_for_teacher teacher_id m =
    let classes = values_where (λ c. c.teacher_id == teacher_id && c.is_active) m.classes in
    let enrolled =
      values_where (λ e. not (is_set e.left_at) && any (λ c. c.id == e.class_id) classes)
        m.class_students in
    pos (length (distinct (map (λ e. e.student_id) enrolled)))

abbrev pub finance_record : Teacher → User → Branch → Memory → TeacherFinanceRecord
finance_record teacher user branch m =
    let salary = latest_teacher_salary teacher.id m in
    record {
      id = teacher.id;
      branch_id = teacher.branch_id;
      branch_name = branch.name;
      user_id = teacher.user_id;
      email = user.email;
      first_name = user.first_name;
      last_name = user.last_name;
      profile_photo_file_id = teacher.profile_photo_file_id;
      subject = subjects_for_teacher teacher.id m;
      status = teacher.status;
      salary_type = salary.0;
      assigned_students = assigned_students_for_teacher teacher.id m;
      calculated_salary_amount_cents = salary.1;
      created_at = teacher.created_at;
      updated_at = teacher.updated_at;
    }

-- The loop of ListTeacherFinanceRecords: a teacher without an account or a branch has no record.
unfoldable pub finance_records : List Teacher → Memory → List TeacherFinanceRecord
unfolding latest_teacher_salary subjects_for_teacher assigned_students_for_teacher
finance_records [] m = []
finance_records (t ∷ ts) m =
    let rest = finance_records ts m in
    elim (lookup t.user_id m.users) [
      | none ↦ rest
      | some user ↦ elim (lookup t.branch_id m.branches) [
        | none ↦ rest
        | some branch ↦ finance_record t user branch m ∷ rest
      ]
    ]

abbrev record_less : TeacherFinanceRecord → TeacherFinanceRecord → Bool
record_less r s =
    if r.last_name == s.last_name
    then text_lt r.first_name s.first_name
    else text_lt r.last_name s.last_name

-- ListTeacherFinanceRecords
unfoldable pub list_teacher_finance_records : String → Memory → List TeacherFinanceRecord
unfolding finance_records
list_teacher_finance_records branch_id m = sort_slice record_less (
    finance_records (values_where (λ t. is_empty branch_id || t.branch_id == branch_id) m.teachers)
      m)

-- The filter of the page, and of the service: an unset field keeps every record.
unfoldable pub keep_records :
    String
    → TeacherStatus
    → SalaryModelType
    → (TeacherFinanceRecord → String)
    → List TeacherFinanceRecord
    → List TeacherFinanceRecord
keep_records subject status salary_model subject_of records =
    keep_text (λ r. salary_type_text r.salary_type) (salary_type_text salary_model)
      (keep_text (λ r. teacher_status_text r.status) (teacher_status_text status)
        (keep (λ r. is_empty subject || contains_text (subject_of r) subject) records))

-- ListTeacherFinanceRecordsPage
unfoldable pub list_teacher_finance_records_page :
    String
    → String
    → TeacherStatus
    → SalaryModelType
    → PageRequest
    → Memory
    → List TeacherFinanceRecord × ℕ
unfolding keep_records
list_teacher_finance_records_page branch_id subject status salary_model page m =
    page_slice
      (keep_records (to_lower (trim_space subject)) status salary_model (λ r. to_lower r.subject)
        (list_teacher_finance_records branch_id m))
      page
