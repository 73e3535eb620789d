-- ===== src/Academic/Staff.antt =====
-- The staff of academic/branch_staff_service.go.
use kingsway_academy.Base.{
  String, ◌==◌, ◌||◌, ◌&&◌, not, Bool, false, if◌then◌else◌, List, [], ◌∷◌, ℕ, Option, none, some,
}
use kingsway_academy.Base.Int.{ℤ, pos, ltb_ℤ}
use kingsway_academy.Base.Text.{trim_space, is_empty, to_lower}
use kingsway_academy.Domain.{
  Time, Role, Principal, User, StaffMember, PageRequest, Result, ok, invalid_input, refuse_if,
  ◌>>=◌, ◌>>◌,
}
use kingsway_academy.Store.State.{when◌fail◌from◌otherwise◌, Memory, Outcome, if_passed, with_value}
use kingsway_academy.Store.Branches
use kingsway_academy.Store.Users.{zero_user}
use kingsway_academy.Store.Staff
use kingsway_academy.Store.Listings
use kingsway_academy.Store.Pages
use kingsway_academy.Auth.Libraries.{Bcrypt}
use kingsway_academy.Auth.Service.{require_any_role, require_branch, hash_password}
use kingsway_academy.Academic.Inputs.{CreateStaffInput, UpdateStaffInput}
use kingsway_academy.Academic.Steps.{own_branch}
use kingsway_academy.Academic.Dates.{normalize_birth_date, is_hire_date_on_or_after_birth_date}

-- normalizeOptionalTeacherGender of teacher_service.go
unfoldable pub normalize_optional_teacher_gender : String → String
normalize_optional_teacher_gender value =
    let gender = to_lower (trim_space value) in
    if is_empty gender || gender == "male" || gender == "female" || gender == "other"
    then gender
    else ""

-- The dates of an input, normalized, and the tests on them and on the salary.
unfoldable pub staff_dates : String → String → ℤ → Result (String × String)
staff_dates birth hired salary = normalize_birth_date birth >>= λ birth_date.
    normalize_birth_date hired >>= λ hired_at.
    refuse_if (not (is_hire_date_on_or_after_birth_date birth_date hired_at)) invalid_input
    >> refuse_if (ltb_ℤ salary (pos 0)) invalid_input
    >> ok (birth_date, hired_at)

abbrev pub asked_account : String → String → CreateStaffInput → User
asked_account branch_id hash input = record zero_user {
  branch_id = branch_id;
  role = Role.receptionist;
  email = trim_space input.email;
  password_hash = hash;
  first_name = trim_space input.first_name;
  last_name = trim_space input.last_name;
}

abbrev pub asked_staff : String → String × String → CreateStaffInput → StaffMember
asked_staff branch_id dates input = record {
  id = "";
  branch_id = branch_id;
  user_id = "";
  role = Role.receptionist;
  email = "";
  first_name = "";
  last_name = "";
  birth_date = dates.0;
  gender = normalize_optional_teacher_gender input.gender;
  phone = trim_space input.phone;
  address = trim_space input.address;
  hired_at = dates.1;
  salary_amount_azn = input.salary_amount_azn;
  profile_photo_file_id = trim_space input.profile_photo_file_id;
  is_active = false;
  last_login_at = "";
  created_at = 0;
  updated_at = 0;
}

-- CreateStaffMember
unfoldable pub create_staff_member :
    Bcrypt → Time → String → String → Principal → CreateStaffInput → Memory → Outcome StaffMember
unfolding staff_dates
create_staff_member bcrypt ts user_id staff_id actor input m =
    let branch_id = trim_space input.branch_id in
    if_passed (require_any_role actor (Role.owner ∷ []) >> require_branch actor branch_id) m (
      with_value (Branches.get_branch branch_id m).0 m λ branch.
        when is_empty (trim_space input.first_name)
          || is_empty (trim_space input.last_name)
          || is_empty (trim_space input.email)
          || is_empty input.password
        fail invalid_input
        from m
        otherwise with_value (staff_dates input.birth_date input.hired_at input.salary_amount_azn) m
            λ dates. with_value (hash_password bcrypt input.password) m λ hash.
              Staff.create_staff_member ts user_id staff_id (asked_account branch_id hash input)
                (asked_staff branch_id dates input) m)

-- The branch after UpdateStaffMember, or why it does not change.
unfoldable pub next_branch : Principal → StaffMember → String → Memory → Result String
next_branch actor current given m =
    let branch_id = trim_space given in
    if not (is_empty branch_id) && not (branch_id == current.branch_id)
    then (require_branch actor branch_id
        >> ((Branches.get_branch branch_id m).0 >>= λ branch. ok branch_id))
    else ok current.branch_id

-- The hash of the password that UpdateStaffMember sets, `""` for none.
unfoldable pub new_password : Bcrypt → String → Result String
new_password bcrypt password =
    if is_empty (trim_space password) then ok "" else hash_password bcrypt password

abbrev pub set_active : Option Bool → StaffMember → Bool
set_active none current = current.is_active
set_active (some given) current = given

-- UpdateStaffMember
unfoldable pub update_staff_member :
    Bcrypt → Time → Time → Principal → UpdateStaffInput → Memory → Outcome StaffMember
unfolding staff_dates next_branch new_password
update_staff_member bcrypt ts ts' actor input m =
    if_passed (require_any_role actor (Role.owner ∷ [])) m (
      with_value (Staff.get_staff_member (trim_space input.id) m).0 m λ current.
        if_passed (require_branch actor current.branch_id) m (
          with_value (next_branch actor current input.branch_id m) m λ branch_id.
            when is_empty (trim_space input.first_name)
              || is_empty (trim_space input.last_name)
              || is_empty (trim_space input.email)
            fail invalid_input
            from m
            otherwise with_value
                (staff_dates input.birth_date input.hired_at input.salary_amount_azn) m
                λ dates. with_value (new_password bcrypt input.password) m λ hash.
                  Staff.update_staff_member ts ts'
                    (record current {
                      branch_id = branch_id;
                      first_name = trim_space input.first_name;
                      last_name = trim_space input.last_name;
                      email = trim_space input.email;
                      birth_date = dates.0;
                      gender = normalize_optional_teacher_gender input.gender;
                      phone = trim_space input.phone;
                      address = trim_space input.address;
                      hired_at = dates.1;
                      salary_amount_azn = input.salary_amount_azn;
                      profile_photo_file_id = trim_space input.profile_photo_file_id;
                      is_active = set_active input.is_active current;
                    })
                    hash m))

-- DeleteStaffMember
unfoldable pub delete_staff_member : Principal → String → Memory → Outcome StaffMember
delete_staff_member actor id m = if_passed (require_any_role actor (Role.owner ∷ [])) m (
    with_value (Staff.get_staff_member (trim_space id) m).0 m λ staff.
      if_passed (require_branch actor staff.branch_id) m (Staff.delete_staff_member staff.id m))

-- GetStaffMember
unfoldable pub get_staff_member : Principal → String → Memory → Result StaffMember
get_staff_member actor id m = (Staff.get_staff_member (trim_space id) m).0 >>= λ staff.
    require_branch actor staff.branch_id >> ok staff

-- ListStaffMembers
unfoldable pub list_staff_members : Principal → String → Memory → Result (List StaffMember)
list_staff_members actor given m =
    let branch_id = trim_space (own_branch actor given) in
    require_branch actor branch_id >> ok (Listings.list_staff_members branch_id m)

-- ListStaffMembersPage
unfoldable pub list_staff_members_page :
    Principal → String → PageRequest → Memory → Result (List StaffMember × ℕ)
list_staff_members_page actor given page m =
    let branch_id = trim_space (own_branch actor given) in
    require_branch actor branch_id >> ok (Pages.list_staff_members_page branch_id page m)
