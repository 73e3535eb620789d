-- ===== src/Store/Branches.antt =====
-- The branches of memory.go.
use kingsway_academy.Base.{String, ◌==◌, ◌||◌, not, Bool, false, none, some, if◌then◌else◌}
use kingsway_academy.Base.Text.{trim_space, is_empty}
use kingsway_academy.Map.{Map, lookup, contains, insert, erase, erase_keys, delete_where, keys}
use kingsway_academy.Map.Sweep.{sweep}
use kingsway_academy.Domain.{Time, Branch, ok, invalid_input, conflict}
use kingsway_academy.Store.State.{
  when◌fail◌from◌otherwise◌, Memory, Outcome, with_row, normalize_slug,
}

-- Is the key listed, for another row than `id`?
abbrev pub taken_by_other : String → String → Map String → Bool
taken_by_other key id index = elim (lookup key index) [
  | none ↦ false
  | some other ↦ not (other == id)
]

-- CreateBranch
unfoldable pub create_branch : Time → String → Branch → Memory → Outcome Branch
create_branch ts id branch m =
    let slug = normalize_slug branch.slug in
    let row = record branch { id = id; slug = slug; created_at = ts; updated_at = ts } in
    when is_empty branch.name || is_empty slug
    fail invalid_input
    from m
    otherwise when contains slug m.branches_by_slug
    fail conflict
    from m
    otherwise (
      ok row,
      record m {
        branches = insert id row m.branches;
        branches_by_slug = insert slug id m.branches_by_slug;
      },
    )

-- GetBranch
unfoldable pub get_branch : String → Memory → Outcome Branch
get_branch id m = with_row (lookup id m.branches) m (λ branch. (ok branch, m))

-- The index of slugs after an update of the branch `id`.
unfoldable pub move_slug : Branch → Branch → Map String → Map String
move_slug current row index =
    if not (current.slug == row.slug)
    then insert row.slug row.id (erase current.slug index)
    else index

-- UpdateBranch
unfoldable pub update_branch : Time → Branch → Memory → Outcome Branch
unfolding move_slug
update_branch ts branch m = with_row (lookup branch.id m.branches) m λ current.
    let slug = normalize_slug branch.slug in
    let row = record branch { slug = slug; created_at = current.created_at; updated_at = ts } in
    when is_empty (trim_space branch.name) || is_empty slug
    fail invalid_input
    from m
    otherwise when taken_by_other slug branch.id m.branches_by_slug
    fail conflict
    from m
    otherwise (
      ok row,
      record m {
        branches = insert branch.id row m.branches;
        branches_by_slug = move_slug current row m.branches_by_slug;
      },
    )

-- What DeleteBranch deletes: the rows of the branch, table by table, with their index entries.
unfoldable pub clear_branch : String → Branch → Memory → Memory
clear_branch id branch m =
    let users = sweep (λ u. u.branch_id == id) (λ u. u.email) m.users m.users_by_email in
    let deleted_users = delete_where (λ u. not (u.branch_id == id)) m.users in
    let students = sweep (λ s. s.branch_id == id) (λ s. s.fin) m.students m.students_by_fin in
    let teachers = sweep (λ t. t.branch_id == id) (λ t. t.user_id) m.teachers m.teachers_by_user in
    let deleted_teachers = delete_where (λ t. not (t.branch_id == id)) m.teachers in
    let deleted_courses = delete_where (λ c. not (c.branch_id == id)) m.courses in
    record m {
      branches = erase id m.branches;
      branches_by_slug = erase branch.slug m.branches_by_slug;
      users = users.0;
      users_by_email = users.1;
      staff_members = delete_where (λ s. s.branch_id == id) m.staff_members;
      students = students.0;
      students_by_fin = students.1;
      teachers = teachers.0;
      teachers_by_user = teachers.1;
      teacher_courses = erase_keys (keys deleted_teachers) m.teacher_courses;
      courses = delete_where (λ c. c.branch_id == id) m.courses;
      course_categories = erase_keys (keys deleted_courses) m.course_categories;
      classes = delete_where (λ c. c.branch_id == id) m.classes;
      class_students = delete_where (λ e. e.branch_id == id) m.class_students;
      assignments = delete_where (λ a. a.branch_id == id) m.assignments;
      rooms = delete_where (λ r. r.branch_id == id) m.rooms;
      schedules = delete_where (λ s. s.branch_id == id) m.schedules;
      exams = delete_where (λ e. e.branch_id == id) m.exams;
      exam_participants = delete_where (λ p. p.branch_id == id) m.exam_participants;
      exam_results = delete_where (λ r. r.branch_id == id) m.exam_results;
      payments = delete_where (λ p. p.branch_id == id) m.payments;
      salary_models = delete_where (λ s. s.branch_id == id) m.salary_models;
      files = delete_where (λ f. f.branch_id == id) m.files;
      notifications =
          delete_where (λ n. n.branch_id == id || contains n.recipient_user_id deleted_users)
            m.notifications;
    }

-- DeleteBranch
unfoldable pub delete_branch : String → Memory → Outcome Branch
delete_branch id m =
    with_row (lookup id m.branches) m (λ branch. (ok branch, clear_branch id branch m))
