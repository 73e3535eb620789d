-- ===== src/Store/Pages.antt =====
-- The pages of memory_pagination.go, and the helpers of pagination.go. A filter that is not set
-- (`""`, or a nil pointer) keeps every item.
pub mod Slices
use kingsway_academy.Base.{
  ℕ, ◌-◌, ◌+◌, ltb, String, ◌==◌, ◌||◌, ◌&&◌, not, Bool, true, false, Option, none, some,
  if◌then◌else◌, List, [], ◌∷◌, take, drop, length, keep,
}
use kingsway_academy.Base.Int.{ℤ, pos, pos_part, leb_ℤ, ltb_ℤ}
use kingsway_academy.Base.Text.{is_empty}
use kingsway_academy.Domain.{
  Branch, StaffMember, Student, StudentStatus, Teacher, TeacherStatus, Course, Class, ClassStudent,
  Assignment, Room, ScheduleItem, ScheduleItemType, Exam, ExamResult, Payment, PaymentStatus,
  SalaryModel, FileObject, FilePurpose, Notification, PageRequest, student_status_text,
  teacher_status_text, item_type_text, payment_status_text, purpose_text,
}
use kingsway_academy.Store.State.{Memory}
use kingsway_academy.Store.Listings.{
  list_branches, list_staff_members, list_classes, list_class_students, list_assignments,
  list_exams, list_exam_results,
}
use kingsway_academy.Store.Students.{list_students}
use kingsway_academy.Store.Teachers.{list_teachers}
use kingsway_academy.Store.Courses.{list_courses}
use kingsway_academy.Store.Rooms.{list_rooms}
use kingsway_academy.Store.Schedules.{list_schedule}
use kingsway_academy.Store.Payments.{list_payments, list_salary_models}
use kingsway_academy.Store.Files.{list_files}
use kingsway_academy.Store.Notifications.{list_notifications}

-- normalizePage
unfoldable pub normalize_page : PageRequest → PageRequest
normalize_page page =
    let limit =
      if leb_ℤ page.limit (pos 0) || ltb_ℤ (pos 500) page.limit then pos 100 else page.limit in
    let offset = if ltb_ℤ page.offset (pos 0) then pos 0 else page.offset in
    record { limit = limit; offset = offset }

-- pageSlice; neither number of a normalized request is negative
unfoldable pub page_slice : {T : Type 0} → List T → PageRequest → List T × ℕ
unfolding normalize_page
page_slice items given =
    let page = normalize_page given in
    let total = length items in
    let offset = pos_part page.offset in
    let start = if ltb total offset then total else offset in
    let stop = start + pos_part page.limit in
    let end = if ltb total stop then total else stop in
    (take (end - start) (drop start items), total)

-- The loop of a page over the items of which a field has the text that is asked for.
abbrev pub keep_text : {T : Type 0} → (T → String) → String → List T → List T
keep_text field wanted items =
    if is_empty wanted then items else keep (λ item. field item == wanted) items

-- ListBranchesPage
unfoldable pub list_branches_page : PageRequest → Memory → List Branch × ℕ
unfolding page_slice
list_branches_page page m = page_slice (list_branches m) page

-- ListStaffMembersPage
unfoldable pub list_staff_members_page : String → PageRequest → Memory → List StaffMember × ℕ
unfolding page_slice
list_staff_members_page branch_id page m = page_slice (list_staff_members branch_id m) page

-- ListStudentsPage
unfoldable pub list_students_page : String → StudentStatus → PageRequest → Memory → List Student × ℕ
unfolding page_slice
list_students_page branch_id status page m =
    page_slice
      (keep_text (λ s. student_status_text s.status) (student_status_text status)
        (list_students branch_id m))
      page

-- ListTeachersPage
unfoldable pub list_teachers_page : String → TeacherStatus → PageRequest → Memory → List Teacher × ℕ
unfolding page_slice
list_teachers_page branch_id status page m =
    page_slice
      (keep_text (λ t. teacher_status_text t.status) (teacher_status_text status)
        (list_teachers branch_id m))
      page

-- ListCoursesPage
unfoldable pub list_courses_page : String → PageRequest → Memory → List Course × ℕ
unfolding page_slice
list_courses_page branch_id page m = page_slice (list_courses branch_id m) page

-- The loop of a page over the classes that are as active as asked for.
unfoldable pub keep_active : Option Bool → List Class → List Class
keep_active none classes = classes
keep_active (some true) classes = keep (λ c. c.is_active) classes
keep_active (some false) classes = keep (λ c. not c.is_active) classes

-- ListClassesPage
unfoldable pub list_classes_page : String → Option Bool → PageRequest → Memory → List Class × ℕ
unfolding page_slice keep_active
list_classes_page branch_id active page m =
    page_slice (keep_active active (list_classes branch_id m)) page

-- ListClassStudentsPage
unfoldable pub list_class_students_page :
    String → String → PageRequest → Memory → List ClassStudent × ℕ
unfolding page_slice
list_class_students_page branch_id class_id page m =
    page_slice (list_class_students branch_id class_id m) page

-- ListAssignmentsPage
unfoldable pub list_assignments_page : String → String → PageRequest → Memory → List Assignment × ℕ
unfolding page_slice
list_assignments_page branch_id class_id page m =
    page_slice (list_assignments branch_id class_id m) page

-- ListRoomsPage
unfoldable pub list_rooms_page : String → PageRequest → Memory → List Room × ℕ
unfolding page_slice
list_rooms_page branch_id page m = page_slice (list_rooms branch_id m) page

-- ListSchedulePage
unfoldable pub list_schedule_page :
    String → ScheduleItemType → PageRequest → Memory → List ScheduleItem × ℕ
unfolding page_slice
list_schedule_page branch_id item_type page m =
    page_slice
      (keep_text (λ s. item_type_text s.item_type) (item_type_text item_type)
        (list_schedule branch_id m))
      page

-- ListExamsPage
unfoldable pub list_exams_page : String → String → PageRequest → Memory → List Exam × ℕ
unfolding page_slice
list_exams_page branch_id class_id page m = page_slice (list_exams branch_id class_id m) page

-- ListExamResultsPage
unfoldable pub list_exam_results_page :
    String → String → String → PageRequest → Memory → List ExamResult × ℕ
unfolding page_slice
list_exam_results_page branch_id exam_id student_id page m =
    page_slice (list_exam_results branch_id exam_id student_id m) page

-- ListPaymentsPage
unfoldable pub list_payments_page : String → PaymentStatus → PageRequest → Memory → List Payment × ℕ
unfolding page_slice
list_payments_page branch_id status page m =
    page_slice
      (keep_text (λ p. payment_status_text p.status) (payment_status_text status)
        (list_payments branch_id m))
      page

-- ListSalaryModelsPage
unfoldable pub list_salary_models_page :
    String → String → PageRequest → Memory → List SalaryModel × ℕ
unfolding page_slice
list_salary_models_page branch_id teacher_id page m =
    page_slice (keep_text (λ s. s.teacher_id) teacher_id (list_salary_models branch_id m)) page

-- ListFilesPage
unfoldable pub list_files_page :
    String → String → String → FilePurpose → PageRequest → Memory → List FileObject × ℕ
unfolding page_slice
list_files_page branch_id owner_type owner_id purpose page m =
    page_slice
      (keep_text (λ f. purpose_text f.purpose) (purpose_text purpose)
        (keep_text (λ f. f.owner_id) owner_id
          (keep_text (λ f. f.owner_type) owner_type (list_files branch_id m))))
      page

-- ListNotificationsPage
unfoldable pub list_notifications_page :
    String → Bool → PageRequest → Memory → List Notification × ℕ
unfolding page_slice
list_notifications_page recipient unread_only page m =
    page_slice (list_notifications recipient unread_only m) page
