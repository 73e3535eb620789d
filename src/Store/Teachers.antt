-- ===== src/Store/Teachers.antt =====
-- The teachers of memory.go.
use kingsway_academy.Base.{String, ◌==◌, ◌||◌, ◌&&◌, not, none, some, if◌then◌else◌, List, [], ◌∷◌}
use kingsway_academy.Base.Int.{pos}
use kingsway_academy.Base.Word.{add64}
use kingsway_academy.Base.Text.{trim_space, is_empty}
use kingsway_academy.Map.{
  lookup, contains, insert, erase, erase_keys, delete_where, update_where, keys, get_or,
  values_where,
}
use kingsway_academy.Domain.{
  Time, Role, User, Teacher, TeacherStatus, ScheduleItem, Exam, Result, ok, err, invalid_input,
  conflict, not_found, eq_role,
}
use kingsway_academy.Store.State.{
  when◌fail◌from◌otherwise◌, Memory, Outcome, with_row, with_value, normalize_email,
}
use kingsway_academy.Store.Branches.{taken_by_other}

-- An unset status becomes pending.
abbrev pub default_teacher_status : TeacherStatus → TeacherStatus
default_teacher_status (TeacherStatus.other s) =
    if is_empty s then TeacherStatus.pending else TeacherStatus.other s
default_teacher_status s = s

-- CreateTeacher
unfoldable pub create_teacher : Time → String → Teacher → Memory → Outcome Teacher
create_teacher ts id teacher m = with_row (lookup teacher.user_id m.users) m λ user.
    let row = record teacher {
      id = id;
      status = default_teacher_status teacher.status;
      created_at = ts;
      updated_at = ts;
    } in
    when not (eq_role user.role Role.teacher) || not (user.branch_id == teacher.branch_id)
    fail invalid_input
    from m
    otherwise when contains teacher.user_id m.teachers_by_user
    fail conflict
    from m
    otherwise (
      ok row,
      record m {
        teachers = insert id row m.teachers;
        teachers_by_user = insert teacher.user_id id m.teachers_by_user;
      },
    )

-- GetTeacher
unfoldable pub get_teacher : String → Memory → Outcome Teacher
get_teacher id m = with_row (lookup id m.teachers) m (λ teacher. (ok teacher, m))

-- The zero value of the struct Teacher.
abbrev pub zero_teacher : Teacher
zero_teacher = record {
  id = "";
  branch_id = "";
  user_id = "";
  status = TeacherStatus.other "";
  birth_date = "";
  gender = "";
  phone = "";
  address = "";
  profile_photo_file_id = "";
  created_at = 0;
  updated_at = 0;
}

-- GetTeacherByUser
unfoldable pub get_teacher_by_user : String → Memory → Outcome Teacher
get_teacher_by_user user_id m =
    with_row (lookup user_id m.teachers_by_user) m
      (λ id. (ok (get_or id m.teachers zero_teacher), m))

-- UpdateTeacher
unfoldable pub update_teacher : Time → Teacher → Memory → Outcome Teacher
update_teacher ts teacher m = with_row (lookup teacher.id m.teachers) m λ current.
    let row = record teacher { updated_at = ts } in
    (ok row, record m { teachers = insert teacher.id row m.teachers })

-- The account of a teacher after an update.
unfoldable pub updated_teacher_account : Time → User → String → Teacher → User → String → User
updated_teacher_account ts current_user email teacher user password_hash =
    let has_password = not (is_empty (trim_space password_hash)) in
    let should_revoke = not (current_user.branch_id == teacher.branch_id) || has_password in
    record current_user {
      branch_id = teacher.branch_id;
      email = email;
      first_name = trim_space user.first_name;
      last_name = trim_space user.last_name;
      password_hash = if has_password then trim_space password_hash else current_user.password_hash;
      token_version =
          if should_revoke
          then add64 current_user.token_version (pos 1)
          else current_user.token_version;
      updated_at = ts;
    }

-- UpdateTeacherAccount; the clock is read twice
unfoldable pub update_teacher_account :
    Time → Time → Teacher → User → String → Memory → Outcome (Teacher × User)
update_teacher_account ts ts' teacher user password_hash m =
    with_row (lookup teacher.id m.teachers) m λ current.
      with_row (lookup current.user_id m.users) m λ current_user.
        let email = normalize_email user.email in
        let account = updated_teacher_account ts current_user email teacher user password_hash in
        let row = record teacher {
          user_id = current.user_id;
          created_at = current.created_at;
          updated_at = ts';
        } in
        when is_empty email
          || is_empty (trim_space user.first_name)
          || is_empty (trim_space user.last_name)
        fail invalid_input
        from m
        otherwise when taken_by_other email current_user.id m.users_by_email
        fail conflict
        from m
        otherwise when not (contains teacher.branch_id m.branches)
        fail not_found
        from m
        otherwise (
          ok (row, account),
          record m {
            users = insert current_user.id account m.users;
            users_by_email =
                insert account.email current_user.id (erase current_user.email m.users_by_email);
            teachers = insert teacher.id row m.teachers;
          },
        )

-- What DeleteTeacher deletes; `clock` is the reading of the clock at a student's row.
unfoldable pub clear_teacher : (String → Time) → Teacher → Memory → Memory
clear_teacher clock teacher m =
    let class_ids = delete_where (λ c. not (c.teacher_id == teacher.id)) m.classes in
    let of_teacher_schedule = λ (s : ScheduleItem).
      s.teacher_id == teacher.id
      || s.created_by_user_id == teacher.user_id
      || contains s.class_id class_ids in
    let schedule_ids = delete_where (λ s. not (of_teacher_schedule s)) m.schedules in
    let of_teacher_exam = λ (e : Exam).
      e.created_by_user_id == teacher.user_id
      || contains e.class_id class_ids
      || contains e.schedule_item_id schedule_ids in
    let exam_ids = delete_where (λ e. not (of_teacher_exam e)) m.exams in
    record m {
      exam_results =
          delete_where (λ r. r.entered_by_teacher_id == teacher.id || contains r.exam_id exam_ids)
            m.exam_results;
      exam_participants = delete_where (λ p. contains p.exam_id exam_ids) m.exam_participants;
      exams = erase_keys (keys exam_ids) m.exams;
      assignments =
          delete_where
            (λ a. a.created_by_user_id == teacher.user_id || contains a.class_id class_ids)
            m.assignments;
      payments = delete_where (λ p. p.created_by_user_id == teacher.user_id) m.payments;
      schedules = erase_keys (keys schedule_ids) m.schedules;
      class_students = delete_where (λ e. contains e.class_id class_ids) m.class_students;
      classes = erase_keys (keys class_ids) m.classes;
      salary_models = delete_where (λ s. s.teacher_id == teacher.id) m.salary_models;
      files =
          delete_where
            (λ f.
              f.uploader_user_id == teacher.user_id
              || (f.owner_type == "teacher" && f.owner_id == teacher.id))
            m.files;
      notifications = delete_where (λ n. n.recipient_user_id == teacher.user_id) m.notifications;
      teachers = erase teacher.id m.teachers;
      teachers_by_user = erase teacher.user_id m.teachers_by_user;
      teacher_courses = erase teacher.id m.teacher_courses;
      students =
          update_where (λ s. s.user_id == teacher.user_id)
            (λ k s. record s { user_id = ""; updated_at = clock k }) m.students;
      users_by_email = elim (lookup teacher.user_id m.users) [
        | none ↦ m.users_by_email
        | some user ↦ erase user.email m.users_by_email
      ];
      users = erase teacher.user_id m.users;
    }

-- DeleteTeacher
unfoldable pub delete_teacher : (String → Time) → String → Memory → Outcome Teacher
delete_teacher clock id m =
    with_row (lookup id m.teachers) m (λ teacher. (ok teacher, clear_teacher clock teacher m))

-- ListTeachers
unfoldable pub list_teachers : String → Memory → List Teacher
list_teachers branch_id m =
    values_where (λ t. is_empty branch_id || t.branch_id == branch_id) m.teachers

-- The loop of ReplaceTeacherCourseSpecializations: the courses to store, or why not.
unfoldable pub collect_courses : String → List String → Memory → Result (List String)
collect_courses branch_id [] m = ok []
collect_courses branch_id (c ∷ cs) m =
    let rest = collect_courses branch_id cs m in
    let course_id = trim_space c in
    if is_empty course_id then rest else elim (lookup course_id m.courses) [
      | none ↦ err not_found
      | some course ↦
          if not (course.branch_id == branch_id)
          then err invalid_input
          else elim rest [ err e ↦ err e | ok ids ↦ ok (course_id ∷ ids) ]
    ]

-- ReplaceTeacherCourseSpecializations
unfoldable pub replace_teacher_course_specializations :
    String → List String → Memory → Outcome (Unit {0})
unfolding collect_courses
replace_teacher_course_specializations teacher_id course_ids m =
    with_row (lookup teacher_id m.teachers) m λ teacher.
      with_value (collect_courses teacher.branch_id course_ids m) m
        λ ids. (ok tt, record m { teacher_courses = insert teacher_id ids m.teacher_courses })
