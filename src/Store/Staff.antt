-- ===== src/Store/Staff.antt =====
-- The staff members of memory.go, each with a user account.
use kingsway_academy.Base.{String, ◌==◌, ◌||◌, not, true, none, some, if◌then◌else◌}
use kingsway_academy.Base.Int.{pos}
use kingsway_academy.Base.Word.{add64}
use kingsway_academy.Base.Text.{trim_space, is_empty}
use kingsway_academy.Map.{lookup, contains, insert, erase}
use kingsway_academy.Domain.{
  Time, Role, User, StaffMember, ok, invalid_input, conflict, not_found, eq_role,
}
use kingsway_academy.Store.State.{
  when◌fail◌from◌otherwise◌, Memory, Outcome, with_row, normalize_email,
}
use kingsway_academy.Store.Branches.{taken_by_other}

-- CreateStaffMember; `user_id` and `staff_id` are the two results of `newID`
unfoldable pub create_staff_member :
    Time → String → String → User → StaffMember → Memory → Outcome StaffMember
create_staff_member ts user_id staff_id user staff m =
    let email = normalize_email user.email in
    let account = record user {
      id = user_id;
      email = email;
      is_active = true;
      token_version = pos 1;
      created_at = ts;
      updated_at = ts;
    } in
    let row = record staff {
      id = staff_id;
      branch_id = user.branch_id;
      user_id = user_id;
      role = Role.receptionist;
      email = email;
      first_name = user.first_name;
      last_name = user.last_name;
      is_active = true;
      last_login_at = user.last_login_at;
      created_at = ts;
      updated_at = ts;
    } in
    when is_empty user.branch_id
      || is_empty email
      || is_empty user.password_hash
      || is_empty user.first_name
      || is_empty user.last_name
      || not (eq_role user.role Role.receptionist)
    fail invalid_input
    from m
    otherwise when not (contains user.branch_id m.branches)
    fail not_found
    from m
    otherwise when contains email m.users_by_email
    fail conflict
    from m
    otherwise (
      ok row,
      record m {
        users = insert user_id account m.users;
        users_by_email = insert email user_id m.users_by_email;
        staff_members = insert staff_id row m.staff_members;
      },
    )

-- The account of a staff member after an update.
unfoldable pub updated_account : Time → User → String → StaffMember → String → User
updated_account ts user email staff password_hash =
    let has_password = not (is_empty (trim_space password_hash)) in
    let active_changed = if user.is_active then not staff.is_active else staff.is_active in
    let should_revoke = not (user.branch_id == staff.branch_id) || active_changed || has_password in
    record user {
      branch_id = staff.branch_id;
      email = email;
      first_name = trim_space staff.first_name;
      last_name = trim_space staff.last_name;
      password_hash = if has_password then trim_space password_hash else user.password_hash;
      is_active = staff.is_active;
      token_version =
          if should_revoke then add64 user.token_version (pos 1) else user.token_version;
      updated_at = ts;
    }

-- UpdateStaffMember; the clock is read twice
unfoldable pub update_staff_member :
    Time → Time → StaffMember → String → Memory → Outcome StaffMember
update_staff_member ts ts' staff password_hash m =
    with_row (lookup staff.id m.staff_members) m λ current.
      with_row (lookup current.user_id m.users) m λ user.
        let email = normalize_email staff.email in
        let account = updated_account ts user email staff password_hash in
        let row = record staff {
          user_id = current.user_id;
          role = Role.receptionist;
          email = account.email;
          first_name = account.first_name;
          last_name = account.last_name;
          is_active = account.is_active;
          last_login_at = account.last_login_at;
          created_at = current.created_at;
          updated_at = ts';
        } in
        when taken_by_other email user.id m.users_by_email
        fail conflict
        from m
        otherwise when not (contains staff.branch_id m.branches)
        fail not_found
        from m
        otherwise (
          ok row,
          record m {
            users = insert user.id account m.users;
            users_by_email = insert account.email user.id (erase user.email m.users_by_email);
            staff_members = insert staff.id row m.staff_members;
          },
        )

-- DeleteStaffMember
unfoldable pub delete_staff_member : String → Memory → Outcome StaffMember
delete_staff_member id m = with_row (lookup id m.staff_members) m λ staff.
    let rest = erase id m.staff_members in
    (
      ok staff,
      elim (lookup staff.user_id m.users) [
        | none ↦ record m { staff_members = rest }
        | some user ↦ record m {
          staff_members = rest;
          users = erase staff.user_id m.users;
          users_by_email = erase user.email m.users_by_email;
        }
      ],
    )

-- GetStaffMember
unfoldable pub get_staff_member : String → Memory → Outcome StaffMember
get_staff_member id m = with_row (lookup id m.staff_members) m (λ staff. (ok staff, m))
