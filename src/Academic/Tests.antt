-- ===== src/Academic/Tests.antt =====
-- The theorems about the package academic at a small store, with the front desk and a teacher of a
-- branch as actors.
use kingsway_academy.Base.{String, ◌≡◌, refl, [], ◌∷◌, none, some, arith, true, All}
use kingsway_academy.Base.Int.{pos}
use kingsway_academy.Base.Text.{
  trim_space, to_lower, map_chars, trim_left, reverse_onto, is_space, swap_char,
}
use kingsway_academy.Map.{lookup, values_where, any_value}
use kingsway_academy.Domain.{
  is_owner, can_use_branch, range_is_valid, Room, ScheduleItem, Role, Principal, Branch, Class,
  Teacher, TeacherStatus, ScheduleItemType, err, ok, forbidden,
}
use kingsway_academy.Store.State.{
  if_passed, with_value, Memory, new_memory, when◌fail◌from◌otherwise◌, normalize_slug, with_row,
}
use kingsway_academy.Store.Branches.{create_branch}
use kingsway_academy.Base.Sort.{sort_slice}
use kingsway_academy.Store.Listings
use kingsway_academy.Store.Schedules
use kingsway_academy.Auth.Service.{require_branch, require_any_role}
use kingsway_academy.Academic.Filters.{filter_classes_for_actor}
use kingsway_academy.Store.Teachers.{get_teacher_by_user}
use kingsway_academy.Store.Reach.{Call, here, next, new_memory-Indexes}
use kingsway_academy.Store.Indexes.{Indexes}
use kingsway_academy.Auth.Libraries.{Jwt, Bcrypt}
use kingsway_academy.Academic.Inputs.{
  CreateRoomInput, CreateScheduleItemInput, CreateBranchInput, UpdateBranchInput, CreateStaffInput,
  UpdateStaffInput,
}
use kingsway_academy.Academic.Rooms.{create_room}
use kingsway_academy.Academic.Schedule.{
  create_schedule_item, asked_item, teacher_of_item, default_item_type,
}
use kingsway_academy.Academic.Classes.{list_classes}
use kingsway_academy.Academic.Branches
use kingsway_academy.Academic.Staff
use kingsway_academy.Academic.Teachers
use kingsway_academy.Academic.Dates.{parse_date, format_date, normalize_birth_date}
use kingsway_academy.Academic.Dates.RoundTrip.{normalize_birth_date_again}
use kingsway_academy.Academic.Calls.{ServiceCall}
use kingsway_academy.Academic.Isolation.{IsConfined}
use kingsway_academy.Academic.Isolation.Office.{RoomsAreFiled}
use kingsway_academy.Academic.Isolation.People.{TeachersAreHome}
use kingsway_academy.Academic.Isolation.Boundary.{call_confined}
use kingsway_academy.Academic.Isolation.Owners.{owners_alone}
use kingsway_academy.Academic.Schedule.Planned.{IsPlanned, create_schedule_item-IsPlanned}
use kingsway_academy.Store.Schedules.{place_item}
use kingsway_academy.Academic.Schedule.Planning.{create_schedule_item_by_teacher}
use kingsway_academy.Academic.Visibility.{MaySee, list_classes_lem}

abbrev tokens : Jwt
tokens = record {
  numeric_date = λ t. t;
  signed_string = λ key claims. none;
  parse_with_claims = λ now key token. none;
}

abbrev passwords : Bcrypt
passwords = record {
  generate_from_password = λ password. some password;
  compare_hash_and_password = λ hash password. true;
}

abbrev north : Branch
north = record {
  id = "";
  name = "North";
  slug = "north";
  address = "";
  opening_time = "";
  closing_time = "";
  created_at = 0;
  updated_at = 0;
}

abbrev with_north : Memory
with_north = (create_branch 1 "b1" north new_memory).1

abbrev desk : Principal
desk = record { user_id = "u1"; branch_id = "b1"; role = Role.receptionist }

with_north-Indexes : Indexes with_north
unfolding lookup
with_north-Indexes =
    new_memory-Indexes _ (next here (Call.create_branch new_memory 1 "b1" north refl))

with_north-rooms : with_north.rooms ≡ []
unfolding create_branch when◌fail◌from◌otherwise◌ normalize_slug trim_space to_lower map_chars
    trim_left reverse_onto is_space swap_char lookup
with_north-rooms = refl

with_north-teachers : with_north.teachers ≡ []
unfolding create_branch when◌fail◌from◌otherwise◌ normalize_slug trim_space to_lower map_chars
    trim_left reverse_onto is_space swap_char lookup
with_north-teachers = refl

no_rooms : (k : String) → lookup k with_north.rooms ≡ none
unfolding lookup
no_rooms k = rw with_north-rooms refl

no_teachers : (k : String) → lookup k with_north.teachers ≡ none
unfolding lookup
no_teachers k = rw with_north-teachers refl

with_north-RoomsAreFiled : RoomsAreFiled with_north
with_north-RoomsAreFiled = record {
  own = λ k r e. let nothing = no_rooms k in absurd (ground arith);
}

with_north-TeachersAreHome : TeachersAreHome with_north
with_north-TeachersAreHome = record {
  home = λ k t u e h. let nothing = no_teachers k in absurd (ground arith);
}

abbrev hall : CreateRoomInput
hall = record { branch_id = "b2"; name = " Hall "; capacity = pos 0 }

desk_makes_hall :
    ServiceCall tokens passwords "secret" desk with_north
      (create_room 2 "r1" desk hall with_north).1
desk_makes_hall = ServiceCall.create_room 2 "r1" hall (no_rooms "r1")

call_confined_example : IsConfined "b1" with_north (create_room 2 "r1" desk hall with_north).1
unfolding is_owner
call_confined_example =
    call_confined desk refl with_north with_north-Indexes with_north-RoomsAreFiled
      with_north-TeachersAreHome desk_makes_hall

abbrev founder : Principal
founder = record { user_id = "u0"; branch_id = ""; role = Role.owner }

abbrev south_input : CreateBranchInput
south_input = record {
  name = "South";
  slug = "south";
  address = "";
  opening_time = "";
  closing_time = "";
}

abbrev with_south : Memory
with_south = (Branches.create_branch 1 "b1" founder south_input new_memory).1

normalize_birth_date_again_example : normalize_birth_date "01/12/2011" ≡ ok "01/12/2011"
unfolding normalize_birth_date parse_date trim_space trim_left reverse_onto is_space format_date
normalize_birth_date_again_example = normalize_birth_date_again " 01/12/2011 " "01/12/2011" refl

abbrev blank_branch : CreateBranchInput
blank_branch = record { name = ""; slug = ""; address = ""; opening_time = ""; closing_time = "" }

abbrev changed_north : UpdateBranchInput
changed_north = record {
  id = "b1";
  name = "N";
  slug = "n";
  address = "";
  opening_time = "9:30";
  closing_time = "";
}

abbrev new_staff : CreateStaffInput
new_staff = record {
  branch_id = "b1";
  first_name = "A";
  last_name = "B";
  birth_date = "";
  gender = "";
  phone = "";
  address = "";
  hired_at = "";
  salary_amount_azn = pos 0;
  email = "a@x";
  password = "12345678";
  profile_photo_file_id = "";
}

abbrev same_staff : UpdateStaffInput
same_staff = record {
  id = "s1";
  branch_id = "b1";
  first_name = "A";
  last_name = "B";
  birth_date = "";
  gender = "";
  phone = "";
  address = "";
  hired_at = "";
  salary_amount_azn = pos 0;
  email = "a@x";
  password = "";
  profile_photo_file_id = "";
  is_active = none;
}

owners_alone_example :
    (Branches.create_branch 2 "b2" desk blank_branch with_north ≡ (err forbidden, with_north))
    × (Branches.update_branch 2 desk changed_north with_north ≡ (err forbidden, with_north))
    × (Branches.delete_branch desk "b2" with_north ≡ (err forbidden, with_north))
    × (Staff.create_staff_member passwords 2 "b2" "s1" desk new_staff with_north
        ≡ (err forbidden, with_north))
    × (Staff.update_staff_member passwords 2 3 desk same_staff with_north
        ≡ (err forbidden, with_north))
    × (Staff.delete_staff_member desk "b2" with_north ≡ (err forbidden, with_north))
    × (Teachers.activate_teacher 2 desk "b2" with_north ≡ (err forbidden, with_north))
unfolding is_owner
owners_alone_example =
    owners_alone desk passwords with_north 2 3 "b2" "s1" blank_branch changed_north new_staff
      same_staff refl

abbrev ann : Teacher
ann = record {
  id = "t1";
  branch_id = "b1";
  user_id = "u2";
  status = TeacherStatus.active;
  birth_date = "";
  gender = "";
  phone = "";
  address = "";
  profile_photo_file_id = "";
  created_at = 1;
  updated_at = 1;
}

abbrev algebra : Class
algebra = record {
  id = "c1";
  branch_id = "b1";
  course_id = "k1";
  teacher_id = "t1";
  name = "Algebra";
  start_date = 5;
  end_date = none;
  is_active = true;
  created_at = 1;
  updated_at = 1;
}

abbrev drawing : Class
drawing = record algebra { id = "c2"; teacher_id = "t2"; name = "Drawing" }

abbrev school : Memory
school = record new_memory {
  teachers = ("t1", ann) ∷ [];
  teachers_by_user = ("u2", "t1") ∷ [];
  classes = ("c1", algebra) ∷ ("c2", drawing) ∷ [];
}

abbrev ann_actor : Principal
ann_actor = record { user_id = "u2"; branch_id = "b1"; role = Role.teacher }

ann_sees_algebra : list_classes ann_actor "" school ≡ ok (algebra ∷ [])
unfolding list_classes is_owner require_branch can_use_branch filter_classes_for_actor
    get_teacher_by_user with_row lookup Listings.list_classes sort_slice values_where
ann_sees_algebra = refl

list_classes_lem_example :
    All (λ (c : Class). MaySee ann_actor school c.branch_id c.teacher_id c.id) (algebra ∷ [])
unfolding is_owner
list_classes_lem_example = list_classes_lem ann_actor "" school (algebra ∷ []) refl ann_sees_algebra

abbrev maths : CreateScheduleItemInput
maths = record {
  branch_id = "";
  class_id = "c1";
  teacher_id = "";
  room_id = "r1";
  item_type = ScheduleItemType.exam;
  title = "Maths";
  starts_at = 10;
  ends_at = 20;
}

create_schedule_item_by_teacher_example :
    (create_schedule_item 2 "i1" ann_actor
        (record maths { item_type = ScheduleItemType.lesson })
        school
      ≡ (err forbidden, school))
    × (create_schedule_item 2 "i1" ann_actor
          (record maths { item_type = ScheduleItemType.other "" })
          school
        ≡ Schedules.create_schedule_item 2 "i1"
            (asked_item ann_actor "b1" "t1" (record maths { item_type = ScheduleItemType.lesson }))
            school)
unfolding get_teacher_by_user with_row lookup
create_schedule_item_by_teacher_example =
    create_schedule_item_by_teacher "u2" "b1" refl 2 "i1" maths ann school refl

abbrev lab : Room
lab = record {
  id = "r1";
  branch_id = "b1";
  name = "Lab";
  capacity = pos 0;
  is_active = true;
  created_at = 1;
  updated_at = 1;
}

abbrev school_with_lab : Memory
school_with_lab = record school {
  teachers = ("t1", record ann { status = TeacherStatus.active }) ∷ [];
  rooms = ("r1", lab) ∷ [];
}

abbrev maths_planned : ScheduleItem
maths_planned = record (asked_item ann_actor "b1" "t1" maths) {
  id = "i1";
  created_at = 2;
  updated_at = 2;
}

maths_made : (create_schedule_item 2 "i1" ann_actor maths school_with_lab).0 ≡ ok maths_planned
unfolding create_schedule_item if_passed require_any_role require_branch can_use_branch with_value
    teacher_of_item get_teacher_by_user with_row lookup Schedules.create_schedule_item place_item
    when◌fail◌from◌otherwise◌ any_value range_is_valid is_owner trim_space trim_left reverse_onto
    is_space default_item_type
maths_made = refl

create_schedule_item-IsPlanned_example :
    IsPlanned ann_actor "i1" maths_planned school_with_lab
      (create_schedule_item 2 "i1" ann_actor maths school_with_lab).1
create_schedule_item-IsPlanned_example =
    create_schedule_item-IsPlanned 2 "i1" ann_actor maths maths_planned school_with_lab maths_made
