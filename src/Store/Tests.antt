-- ===== src/Store/Tests.antt =====
-- Runs of the store, and the theorems about it at them.
use kingsway_academy.Base.{◌∷◌, [], ℕ, String, ◌≡◌, refl, true, false, some, none}
use kingsway_academy.Base.Int.{pos}
use kingsway_academy.Base.Text.{to_lower, map_chars, trim_space, is_space, swap_char}
use kingsway_academy.Map.{lookup, insert, erase, any_value}
use kingsway_academy.Domain.{
  Student, StudentStatus, StudentParentContact, StudentCourseRegistration, StudentTeacherAssignment,
  Branch, User, Teacher, Room, ScheduleItem, FileObject, Role, TeacherStatus, ScheduleItemType,
  FileCategory, FilePolicy, FilePurpose, IdempotencyRecord, IdempotencyStatus, range_is_valid,
  overlaps, role_is_valid, requires_branch_scope, category_is_valid, policy_is_valid,
  infer_file_policy, policy_category, must_preserve_original_bytes, ok, err, not_found, conflict,
}
use kingsway_academy.Domain
use kingsway_academy.Store.Pages
use kingsway_academy.Store.Pages.Slices.{page_slice-eq-PageSlice}
use kingsway_academy.Store.State.{
  Memory, new_memory, normalize_slug, if_passed, normalize_email, with_row,
  when◌fail◌from◌otherwise◌,
}
use kingsway_academy.Store.Branches.{create_branch, delete_branch}
use kingsway_academy.Store.Users.{create_user, zero_user}
use kingsway_academy.Store.Rooms.{create_room}
use kingsway_academy.Store.Teachers.{create_teacher, zero_teacher}
use kingsway_academy.Store.Schedules.{create_schedule_item, place_item}
use kingsway_academy.Store.Files.{register_file, effective_policy}
use kingsway_academy.Store.Idempotency.{
  Handler, run_idempotent, begin_idempotency, pending_record, idempotency_map_key, key_of,
  finish_run, replay,
}
use kingsway_academy.Store.Reach.{Call, Reach, here, next, new_memory-Indexes}
use kingsway_academy.Store.Indexes.{Indexes}
use kingsway_academy.Store.Booking.{AreApart, new_memory-AreApart}
use kingsway_academy.Store.Originals.{AreSound, new_memory-AreSound}
use kingsway_academy.Store.Students.{create_student_with_details}
use kingsway_academy.Store.Enrolment.{
  IsEnrolled, create_student_with_details-IsEnrolled, create_student_with_details_fails,
}
use kingsway_academy.Store.Cascade.{
  BranchIsCleared, delete_branch-BranchIsCleared, delete_branch_orphans,
}
use kingsway_academy.Store.Replay.{
  started, run_idempotent_settled, run_idempotent_replays, run_idempotent_retries,
  run_idempotent_excludes,
}

-- A branch with a teacher, a room, a lesson and a file.
abbrev north : Branch
north = record {
  id = "";
  name = "North";
  slug = " North ";
  address = "";
  opening_time = "";
  closing_time = "";
  created_at = 0;
  updated_at = 0;
}

abbrev ann : User
ann = record zero_user {
  branch_id = "b1";
  role = Role.teacher;
  email = " Ann@x.org";
  password_hash = "hash";
  first_name = "Ann";
  last_name = "Lee";
}

abbrev ann_teacher : Teacher
ann_teacher = record zero_teacher {
  branch_id = "b1";
  user_id = "u1";
  status = TeacherStatus.active;
}

abbrev hall : Room
hall = record {
  id = "";
  branch_id = "b1";
  name = "Hall";
  capacity = pos 20;
  is_active = false;
  created_at = 0;
  updated_at = 0;
}

abbrev lesson : ScheduleItem
lesson = record {
  id = "";
  branch_id = "b1";
  class_id = "";
  teacher_id = "t1";
  room_id = "r1";
  item_type = ScheduleItemType.lesson;
  title = "Lesson";
  starts_at = 100;
  ends_at = 200;
  created_by_user_id = "u1";
  cancelled_at = none;
  created_at = 0;
  updated_at = 0;
}

abbrev scan : FileObject
scan = record {
  id = "";
  branch_id = "b1";
  uploader_user_id = "u1";
  owner_type = "teacher";
  owner_id = "t1";
  category = FileCategory.special;
  policy = FilePolicy.other "";
  purpose = FilePurpose.passport;
  original_filename = "a.pdf";
  mime_type = "";
  original_size_bytes = pos 7;
  stored_size_bytes = pos 7;
  original_sha256 = "";
  storage_bucket = "files";
  storage_key = "a";
  retention_until = none;
  deleted_at = none;
  created_at = 0;
}

abbrev with_branch : Memory
with_branch = (create_branch 1 "b1" north new_memory).1

abbrev with_user : Memory
with_user = (create_user 2 "u1" ann with_branch).1

abbrev with_teacher : Memory
with_teacher = (create_teacher 3 "t1" ann_teacher with_user).1

abbrev with_room : Memory
with_room = (create_room 4 "r1" hall with_teacher).1

abbrev with_lesson : Memory
with_lesson = (create_schedule_item 5 "s1" lesson with_room).1

abbrev with_file : Memory
with_file = (register_file 6 "f1" scan with_lesson).1

abbrev all_made : Memory
all_made = (create_schedule_item 7 "s2" lesson with_file).1

-- The second lesson at the same time is refused, and the first and the file are there.
lesson_is_refused :
    ((create_schedule_item 7 "s2" lesson with_file).0 ≡ err conflict)
    × (lookup "s1" all_made.schedules
        ≡ some (record lesson { id = "s1"; created_at = 5; updated_at = 5 }))
unfolding create_branch create_user create_teacher create_room create_schedule_item place_item
    register_file lookup insert erase any_value with_row when◌fail◌from◌otherwise◌ normalize_slug
    normalize_email range_is_valid overlaps role_is_valid requires_branch_scope category_is_valid
    policy_is_valid infer_file_policy policy_category must_preserve_original_bytes effective_policy
    to_lower map_chars trim_space is_space swap_char
lesson_is_refused = (refl, refl)

all_made_reached : Reach new_memory all_made
unfolding create_branch create_user create_teacher create_room create_schedule_item place_item
    register_file lookup insert erase any_value with_row when◌fail◌from◌otherwise◌ normalize_slug
    normalize_email range_is_valid overlaps role_is_valid requires_branch_scope category_is_valid
    policy_is_valid infer_file_policy policy_category must_preserve_original_bytes effective_policy
    to_lower map_chars trim_space is_space swap_char
all_made_reached =
    next
      (next
        (next
          (next
            (next
              (next (next here (Call.create_branch new_memory 1 "b1" north refl))
                (Call.create_user with_branch 2 "u1" ann refl))
              (Call.create_teacher with_user 3 "t1" ann_teacher refl))
            (Call.create_room with_teacher 4 "r1" hall))
          (Call.create_schedule_item with_room 5 "s1" lesson refl))
        (Call.register_file with_lesson 6 "f1" scan refl))
      (Call.create_schedule_item with_file 7 "s2" lesson refl)

new_memory-Indexes_example : Indexes all_made
new_memory-Indexes_example = new_memory-Indexes all_made all_made_reached

new_memory-AreApart_example : AreApart all_made.schedules
new_memory-AreApart_example = new_memory-AreApart all_made all_made_reached

new_memory-AreSound_example : AreSound all_made.files
new_memory-AreSound_example = new_memory-AreSound all_made all_made_reached

north_found :
    (delete_branch "b1" all_made).0
    ≡ ok (record north { id = "b1"; slug = "north"; created_at = 1; updated_at = 1 })
unfolding create_branch create_user create_teacher create_room create_schedule_item place_item
    register_file lookup insert erase any_value with_row when◌fail◌from◌otherwise◌ normalize_slug
    normalize_email range_is_valid overlaps role_is_valid requires_branch_scope category_is_valid
    policy_is_valid infer_file_policy policy_category must_preserve_original_bytes effective_policy
    to_lower map_chars trim_space is_space swap_char delete_branch
north_found = refl

delete_branch-BranchIsCleared_example :
    BranchIsCleared "b1" all_made (delete_branch "b1" all_made).1
delete_branch-BranchIsCleared_example =
    delete_branch-BranchIsCleared "b1"
      (record north { id = "b1"; slug = "north"; created_at = 1; updated_at = 1 }) all_made
      north_found

-- A request, a handler that answers it, and one that fails.
abbrev request : IdempotencyRecord
request = record {
  actor_user_id = "u1";
  method = "POST";
  path = "/payments";
  key = "k";
  request_hash = "h";
  status = IdempotencyStatus.other "";
  response_status = pos 0;
  response_body = "";
  created_at = 0;
  updated_at = 0;
  expires_at = 0;
}

abbrev answers : Handler
answers m = (ok (pos 201, "made"), m)

abbrev fails : Handler
fails m = (err not_found, m)

abbrev pending_request : IdempotencyRecord
pending_request = record request {
  status = IdempotencyStatus.pending;
  created_at = 2;
  updated_at = 2;
  expires_at = 86400000000002;
}

pending_stored :
    lookup (key_of request) (started 2 request new_memory).idempotency
    ≡ some (pending_record 2 request)
unfolding lookup insert erase pending_record idempotency_map_key
pending_stored = refl

none_stored : lookup (key_of request) new_memory.idempotency ≡ none
unfolding lookup
none_stored = refl

run_idempotent_settled_example :
    run_idempotent 3 3 4 request (some answers) (started 2 request new_memory)
    ≡ (err conflict, started 2 request new_memory)
unfolding pending_record replay
run_idempotent_settled_example =
    run_idempotent_settled 3 3 4 request (pending_record 2 request) answers
      (started 2 request new_memory) refl pending_stored refl

run_idempotent_replays_example :
    let run = run_idempotent 1 2 3 request (some answers) new_memory in
    (run.0 ≡ ok (record { replayed = false; response_status = pos 201; response_body = "made" }))
    × (run_idempotent 4 5 6 request (some fails) run.1 ≡ (
      ok (record { replayed = true; response_status = pos 201; response_body = "made" }),
      run.1,
    ))
unfolding pending_record
run_idempotent_replays_example =
    run_idempotent_replays 1 2 3 request answers new_memory (pos 201) "made" 4 5 6 fails
      (run_idempotent 1 2 3 request (some answers) new_memory).1 refl none_stored refl
      pending_stored refl refl

run_idempotent_retries_example :
    let run = run_idempotent 1 2 3 request (some fails) new_memory in
    (run.0 ≡ err not_found)
    × (run_idempotent 4 5 6 request (some answers) run.1
        ≡ finish_run 6 request (answers (started 5 request run.1)))
run_idempotent_retries_example =
    run_idempotent_retries 1 2 3 request fails new_memory not_found 4 5 6 answers refl none_stored
      refl

run_idempotent_excludes_example :
    let begun = begin_idempotency 1 2 request new_memory in
    (begun.0 ≡ ok (true, pending_record 2 request))
    × (run_idempotent 3 4 5 request (some answers) begun.1 ≡ (err conflict, begun.1))
unfolding pending_record
run_idempotent_excludes_example =
    run_idempotent_excludes 1 2 request new_memory 3 4 5 answers
      (begin_idempotency 1 2 request new_memory).1 refl none_stored refl refl

-- A new student with one contact.
abbrev pupil : Student
pupil = record {
  id = "";
  branch_id = "b1";
  user_id = "";
  fin = "AB12CD7";
  first_name = "Eli";
  last_name = "Roy";
  birth_date = "";
  gender = "";
  phone = "";
  address = "";
  profile_photo_file_id = "";
  status = StudentStatus.other "";
  left_reason = "";
  created_at = 0;
  updated_at = 0;
}

abbrev mother : StudentParentContact
mother = record {
  id = "";
  branch_id = "b1";
  student_id = "";
  relation = "mother";
  name = "Ida Roy";
  phones = "123" ∷ [];
  created_at = 0;
}

abbrev new_ids : ℕ → String
new_ids n = "st1"

abbrev pupil_stored : Student
pupil_stored = record pupil {
  id = "st1";
  status = StudentStatus.active;
  created_at = 8;
  updated_at = 8;
}

pupil_made :
    (create_student_with_details 8 new_ids pupil (mother ∷ []) [] with_branch).0 ≡ ok pupil_stored
unfolding create_branch lookup create_student_with_details if_passed when◌fail◌from◌otherwise◌
    normalize_slug to_lower map_chars trim_space is_space swap_char insert
pupil_made = refl

create_student_with_details-IsEnrolled_example :
    (pupil_stored.id ≡ "st1")
    × IsEnrolled pupil_stored
        (create_student_with_details 8 new_ids pupil (mother ∷ []) [] with_branch).1
create_student_with_details-IsEnrolled_example =
    create_student_with_details-IsEnrolled 8 new_ids pupil (mother ∷ []) [] with_branch pupil_stored
      pupil_made

pupil_refused :
    (create_student_with_details 8 new_ids pupil (mother ∷ []) [] new_memory).0 ≡ err not_found
unfolding lookup create_student_with_details if_passed
pupil_refused = refl

create_student_with_details_fails_example :
    (create_student_with_details 8 new_ids pupil (mother ∷ []) [] new_memory).1 ≡ new_memory
create_student_with_details_fails_example =
    create_student_with_details_fails 8 new_ids pupil (mother ∷ []) [] new_memory not_found
      pupil_refused

page_slice-eq-PageSlice_example :
    Pages.page_slice (north ∷ north ∷ []) (record { limit = pos 0; offset = pos 1 })
    ≡ Domain.page_slice (north ∷ north ∷ []) (record { limit = pos 0; offset = pos 1 })
page_slice-eq-PageSlice_example =
    page_slice-eq-PageSlice (north ∷ north ∷ []) (record { limit = pos 0; offset = pos 1 })

-- A branch with a pupil, a contact, a registration and an assignment.
abbrev enrolled_registration : StudentCourseRegistration
enrolled_registration = record {
  id = "g1";
  branch_id = "b1";
  student_id = "st1";
  course_id = "k1";
  teacher_id = "t1";
  monthly_amount_cents = pos 5000;
  start_date = "";
  created_at = 8;
}

abbrev enrolled_assignment : StudentTeacherAssignment
enrolled_assignment = record {
  id = "a1";
  branch_id = "b1";
  student_id = "st1";
  teacher_id = "t1";
  class_id = "";
  valid_from = "";
  valid_to = "";
  reason = "";
  created_at = 8;
}

abbrev north_stored : Branch
north_stored = record north { id = "b1"; slug = "north" }

abbrev with_details : Memory
with_details = record new_memory {
  branches = ("b1", north_stored) ∷ [];
  students = ("st1", pupil_stored) ∷ [];
  student_parents = ("m1", record mother { id = "m1"; student_id = "st1" }) ∷ [];
  student_courses = ("g1", enrolled_registration) ∷ [];
  student_teacher_assignments = ("a1", enrolled_assignment) ∷ [];
}

details_deleted : (delete_branch "b1" with_details).0 ≡ ok north_stored
unfolding delete_branch with_row lookup
details_deleted = refl

delete_branch_orphans_example :
    let m = (delete_branch "b1" with_details).1 in
    ((lookup "m1" m.student_parents ≡ some (record mother { id = "m1"; student_id = "st1" }))
      × (lookup "st1" m.students ≡ none))
    × ((lookup "g1" m.student_courses ≡ some enrolled_registration)
        × (lookup "st1" m.students ≡ none))
    × ((lookup "a1" m.student_teacher_assignments ≡ some enrolled_assignment)
        × (lookup "st1" m.students ≡ none))
unfolding lookup
delete_branch_orphans_example =
    delete_branch_orphans "b1" "st1" "m1" "g1" "a1" north_stored pupil_stored
      (record mother { id = "m1"; student_id = "st1" }) enrolled_registration enrolled_assignment
      with_details details_deleted refl refl (refl, refl) (refl, refl) (refl, refl)
