-- ===== src/Academic/Courses.antt =====
-- The courses of academic/course_class_assignment_service.go.
use kingsway_academy.Base.{String, ◌&&◌, false, if◌then◌else◌, List, ℕ, map}
use kingsway_academy.Base.Int.{pos}
use kingsway_academy.Base.Text.{trim_space, is_empty}
use kingsway_academy.Domain.{
  Time, Principal, Course, ScoreCategory, PageRequest, Result, ok, is_owner, ◌>>=◌, ◌>>◌,
}
use kingsway_academy.Store.State.{Memory, Outcome, if_passed}
use kingsway_academy.Store.Courses
use kingsway_academy.Store.Pages
use kingsway_academy.Auth.Service.{require_any_role, require_branch}
use kingsway_academy.Academic.Inputs.{CourseCategoryInput, CreateCourseInput}
use kingsway_academy.Academic.Steps.{own_branch, office}

abbrev pub asked_category : CourseCategoryInput → ScoreCategory
asked_category category = record {
  id = "";
  branch_id = "";
  course_id = "";
  name = trim_space category.name;
  min_score = category.min_score;
  max_score = category.max_score;
  requires_feedback = category.requires_feedback;
  requires_document = category.requires_document;
  document_purpose = trim_space category.document_purpose;
  sort_order = pos 0;
  created_at = 0;
}

-- The course that is asked of the store.
abbrev pub asked_course : String → String → Course
asked_course branch_id name = record {
  id = "";
  branch_id = branch_id;
  name = name;
  is_active = false;
  created_at = 0;
  updated_at = 0;
}

-- CreateCourse
unfoldable pub create_course :
    Time
    → (ℕ → String)
    → Principal
    → CreateCourseInput
    → Memory
    → Outcome (Course × List ScoreCategory)
create_course ts new_id actor input m =
    let branch_id = own_branch actor input.branch_id in
    if_passed (require_any_role actor office >> require_branch actor branch_id) m (
      Courses.create_course ts new_id (asked_course branch_id (trim_space input.name))
        (map asked_category input.categories) m)

-- ListCourses
unfoldable pub list_courses : Principal → String → Memory → Result (List Course)
list_courses actor given m =
    let branch_id = own_branch actor given in
    if is_owner actor && is_empty branch_id
    then ok (Courses.list_courses "" m)
    else require_branch actor branch_id >> ok (Courses.list_courses branch_id m)

-- ListCoursesPage
unfoldable pub list_courses_page :
    Principal → String → PageRequest → Memory → Result (List Course × ℕ)
list_courses_page actor given page m =
    let branch_id = trim_space (own_branch actor given) in
    if is_owner actor && is_empty branch_id
    then ok (Pages.list_courses_page "" page m)
    else require_branch actor branch_id >> ok (Pages.list_courses_page branch_id page m)

-- GetCourse
unfoldable pub get_course : Principal → String → Memory → Result Course
get_course actor id m = (Courses.get_course (trim_space id) m).0 >>= λ course.
    require_branch actor course.branch_id >> ok course
