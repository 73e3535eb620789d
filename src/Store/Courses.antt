-- ===== src/Store/Courses.antt =====
-- The courses of memory.go, with their score categories.
use kingsway_academy.Base.{
  ℕ, ◌+◌, String, ◌==◌, ◌||◌, ◌&&◌, not, Bool, true, if◌then◌else◌, List, [], ◌∷◌,
}
use kingsway_academy.Base.Int.{pos, ltb_ℤ}
use kingsway_academy.Base.Text.{trim_space, is_empty, equal_fold, text_lt}
use kingsway_academy.Base.Sort.{sort_slice}
use kingsway_academy.Map.{lookup, contains, insert, any_value, values_where}
use kingsway_academy.Domain.{
  Time, Course, ScoreCategory, Result, ok, err, invalid_input, conflict, not_found, ◌>>=◌,
}
use kingsway_academy.Store.State.{when◌fail◌from◌otherwise◌, Memory, Outcome, with_row, with_value}

-- The test of the loop in CreateCourse.
abbrev pub same_course : Course → Course → Bool
same_course course existing =
    existing.branch_id == course.branch_id && equal_fold existing.name course.name

-- The two tests of a category.
abbrev pub bad_category : ScoreCategory → Bool
bad_category c =
    is_empty c.name
    || ltb_ℤ c.max_score c.min_score
    || (c.requires_document && is_empty c.document_purpose)

-- The loop over the categories: `i` of them came before, and `new_id n` is the n-th new id.
unfoldable pub number_categories :
    Time → (ℕ → String) → Course → ℕ → List ScoreCategory → Result (List ScoreCategory)
number_categories ts new_id course i [] = ok []
number_categories ts new_id course i (c ∷ cs) =
    let rest = number_categories ts new_id course (i + 1) cs in
    let row = record c {
      id = new_id (i + 1);
      branch_id = course.branch_id;
      course_id = course.id;
      sort_order = pos i;
      created_at = ts;
    } in
    if bad_category c then err invalid_input else rest >>= (λ rows. ok (row ∷ rows))

-- CreateCourse
unfoldable pub create_course :
    Time
    → (ℕ → String)
    → Course
    → List ScoreCategory
    → Memory
    → Outcome (Course × List ScoreCategory)
unfolding number_categories
create_course ts new_id course categories m =
    let row = record course { id = new_id 0; is_active = true; created_at = ts; updated_at = ts } in
    when not (contains course.branch_id m.branches)
    fail not_found
    from m
    otherwise when is_empty (trim_space course.name)
    fail invalid_input
    from m
    otherwise when any_value (same_course course) m.courses
    fail conflict
    from m
    otherwise with_value (number_categories ts new_id row 0 categories) m λ rows. (
      ok (row, rows),
      record m {
        courses = insert row.id row m.courses;
        course_categories = insert row.id rows m.course_categories;
      },
    )

-- GetCourse
unfoldable pub get_course : String → Memory → Outcome Course
get_course id m = with_row (lookup id m.courses) m (λ course. (ok course, m))

-- ListCourses
unfoldable pub list_courses : String → Memory → List Course
list_courses branch_id m =
    sort_slice (λ c d. text_lt c.name d.name)
      (values_where (λ c. is_empty branch_id || c.branch_id == branch_id) m.courses)
