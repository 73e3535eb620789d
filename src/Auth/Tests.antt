-- ===== src/Auth/Tests.antt =====
-- The theorems about the package auth at an owner in a store in memory, with a library of tokens
-- that signs one set of claims and a library of passwords whose hashes are the passwords.
use kingsway_academy.Auth.Service.Revocation.{changes_account, update_staff_member_revokes}
use kingsway_academy.Store.Staff.{create_staff_member, update_staff_member, updated_account}
use kingsway_academy.Store.Branches.{create_branch}
use kingsway_academy.Base.{
  ◌<◌, ◌≡◌, ◌⊎◌, refl, sym, ap, Bool, true, false, ◌&&◌, ◌==◌, String, Option, none, some, arith,
  if◌then◌else◌, ltb, eqb, eq_iff,
}
use kingsway_academy.Base.Int.{pos, eqb_ℤ, eqb_ℤ_lem}
use kingsway_academy.Base.Text.{
  to_lower, map_chars, trim_space, trim_left, reverse_onto, is_space, swap_char, byte_length,
}
use kingsway_academy.Map.{lookup, insert, erase, values_where}
use kingsway_academy.Domain.{
  Time, Role, User, ok, err, unauthorized, invalid_token, conflict, eq_role, eq_role_lem,
  role_is_valid, requires_branch_scope, is_owner, Branch, StaffMember,
}
use kingsway_academy.Store.State.{
  Memory, new_memory, normalize_email, with_row, when◌fail◌from◌otherwise◌, normalize_slug,
}
use kingsway_academy.Store.Users
use kingsway_academy.Store.Users.{zero_user}
use kingsway_academy.Store.Indexes.{Indexes}
use kingsway_academy.Store.Reach.{Call, here, next, new_memory-Indexes}
use kingsway_academy.Auth.Libraries.{Claims, Jwt, JwtLaws, Bcrypt}
use kingsway_academy.Auth.Tokens.{parse_token, sign_token}
use kingsway_academy.Auth.Accounts.{memory_users, memory_users-IsUserStore}
use kingsway_academy.Auth.Service.{
  LoginInput, CreateUserInput, BootstrapOwnerInput, create_user, bootstrap_owner, login,
  login_result, authenticate_token, logout, principal_of, allowed_branch, hash_password,
}
use kingsway_academy.Auth.Service.Sessions.{Fits, authenticate_token_lem, logout_revokes}
use kingsway_academy.Auth.Service.Logins.{login_authenticates}
use kingsway_academy.Auth.Service.Privileges.{
  MayCreate, create_user-MayCreate, bootstrap_owner_once,
}

abbrev one_claims : Claims
one_claims = record {
  user_id = "u1";
  branch_id = "";
  role = Role.owner;
  token_version = pos 1;
  expires_at = some 43200000000005;
}

abbrev same_expiry : Option Time → Bool
same_expiry none = false
same_expiry (some t) = eqb t 43200000000005

abbrev is_one : Claims → Bool
is_one c =
    c.user_id == "u1"
    && c.branch_id == ""
    && eq_role c.role Role.owner
    && eqb_ℤ c.token_version (pos 1)
    && same_expiry c.expires_at

same_expiry_lem : (o : Option Time) → same_expiry o ≡ true → o ≡ some 43200000000005
same_expiry_lem none h = absurd (ground arith)
same_expiry_lem (some t) h = ground arith

is_one_lem : (c : Claims) → is_one c ≡ true → c ≡ one_claims
is_one_lem c h = ground (
  arith,
  eq_iff c.user_id "u1",
  eq_iff c.branch_id "",
  eq_role_lem c.role Role.owner,
  eqb_ℤ_lem c.token_version (pos 1),
  same_expiry_lem c.expires_at,
)

abbrev tokens : Jwt
tokens = record {
  numeric_date = λ t. t;
  signed_string = λ key c. if is_one c then some "token" else none;
  parse_with_claims =
      λ now key raw. if raw == "token" && ltb now 43200000000005 then some one_claims else none;
}

tokens-parse_signed :
    (now e : Time) (key token : String) (c : Claims)
    → tokens.signed_string key c ≡ some token
    → c.expires_at ≡ some (tokens.numeric_date e)
    → now < tokens.numeric_date e
    → tokens.parse_with_claims now key token ≡ some c
tokens-parse_signed now e key token c signed expires early =
    let hit : is_one c ≡ true = ground arith in
    let is : c ≡ one_claims = is_one_lem c hit in
    let named : (token == "token") ≡ true = ground (arith, eq_iff token "token") in
    let unexpired : ltb now 43200000000005 ≡ true =
      ground (arith, ap (λ (d : Claims). d.expires_at) is) in
    rw (named, unexpired) (ap some (sym is))

tokens_laws : JwtLaws tokens
tokens_laws = record {
  parse_signed = tokens-parse_signed;
  parse_again = λ now later key token c parsed. ground arith;
}

abbrev passwords : Bcrypt
passwords = record {
  generate_from_password = λ password. some password;
  compare_hash_and_password = λ hash password. hash == password;
}

abbrev ann : User
ann = record zero_user { role = Role.owner; email = "ann@x.org"; password_hash = "long enough" }

abbrev with_ann : Memory
with_ann = (Users.create_user 1 "u1" ann new_memory).1

with_ann-Indexes : Indexes with_ann
unfolding lookup
with_ann-Indexes =
    new_memory-Indexes with_ann (next here (Call.create_user new_memory 1 "u1" ann refl))

abbrev ann_input : LoginInput
ann_input = record { email = "Ann@x.org"; password = "long enough" }

abbrev ann_stored : User
ann_stored = record ann {
  id = "u1";
  is_active = true;
  token_version = pos 1;
  created_at = 1;
  updated_at = 1;
}

abbrev ann_logged_in : User
ann_logged_in = record ann_stored { last_login_at = "now"; updated_at = 4 }

ann_accepted :
    authenticate_token memory_users tokens passwords "secret" 6 "token" with_ann
    ≡ ok (principal_of ann_stored)
unfolding authenticate_token parse_token login login_result sign_token create_user bootstrap_owner
    allowed_branch hash_password byte_length Users.create_user Users.get_user
    Users.get_user_by_email Users.record_user_login Users.count_owners values_where lookup insert
    erase with_row when◌fail◌from◌otherwise◌ normalize_email to_lower map_chars trim_space trim_left
    reverse_onto is_space swap_char role_is_valid requires_branch_scope is_owner
ann_accepted = refl

authenticate_token_lem_example :
    (claims : Claims) × (user : User) × (parse_token tokens 6 "secret" "token" ≡ ok claims)
    × ((Users.get_user claims.user_id with_ann).0 ≡ ok user)
    × (principal_of ann_stored ≡ principal_of user)
    × Fits user claims
authenticate_token_lem_example =
    authenticate_token_lem memory_users tokens passwords "secret" 6 "token" with_ann
      (principal_of ann_stored) ann_accepted

logout_revokes_example :
    let o = logout memory_users tokens passwords "secret" 7 (principal_of ann_stored) with_ann in
    (o.0 ≡ ok tt)
    × ((authenticate_token memory_users tokens passwords "secret" 8 "token" o.1 ≡ err unauthorized)
        ⊎ (authenticate_token memory_users tokens passwords "secret" 8 "token" o.1
            ≡ err invalid_token))
logout_revokes_example =
    logout_revokes memory_users tokens passwords "secret" tokens_laws memory_users-IsUserStore 6 7 8
      "token" with_ann (principal_of ann_stored) with_ann-Indexes ann_accepted
      (λ e. ground (arith, eq_iff "u1" ""))

ann_logs_in :
    (login memory_users tokens passwords "secret" "now" 4 5 ann_input with_ann).0
    ≡ ok (record { token = "token"; user = ann_logged_in })
unfolding authenticate_token parse_token login login_result sign_token create_user bootstrap_owner
    allowed_branch hash_password byte_length Users.create_user Users.get_user
    Users.get_user_by_email Users.record_user_login Users.count_owners values_where lookup insert
    erase with_row when◌fail◌from◌otherwise◌ normalize_email to_lower map_chars trim_space trim_left
    reverse_onto is_space swap_char role_is_valid requires_branch_scope is_owner
ann_logs_in = refl

login_authenticates_example :
    let o = login memory_users tokens passwords "secret" "now" 4 5 ann_input with_ann in
    (authenticate_token memory_users tokens passwords "secret" 9 "token" o.1
      ≡ ok (principal_of ann_logged_in))
    × ((user : User) × ((Users.get_user_by_email "Ann@x.org" with_ann).0 ≡ ok user)
        × (user.id ≡ "u1")
        × (user.is_active ≡ true)
        × ((user.password_hash == "long enough") ≡ true))
unfolding role_is_valid requires_branch_scope
login_authenticates_example =
    login_authenticates memory_users tokens passwords "secret" tokens_laws memory_users-IsUserStore
      "now" 4 5 9 ann_input with_ann (record { token = "token"; user = ann_logged_in })
      with_ann-Indexes ann_logs_in refl (omega arith)

abbrev second_owner : CreateUserInput
second_owner = record {
  branch_id = "";
  role = Role.owner;
  email = "bo@x.org";
  password = "long enough";
  first_name = "Bo";
  last_name = "Ray";
}

abbrev bo_stored : User
bo_stored = record zero_user {
  id = "u2";
  role = Role.owner;
  email = "bo@x.org";
  password_hash = "long enough";
  first_name = "Bo";
  last_name = "Ray";
  is_active = true;
  token_version = pos 1;
  created_at = 2;
  updated_at = 2;
}

bo_made :
    (create_user memory_users tokens passwords "secret" 2 "u2"
      (principal_of ann_stored)
      second_owner
      with_ann).0
    ≡ ok bo_stored
unfolding authenticate_token parse_token login login_result sign_token create_user bootstrap_owner
    allowed_branch hash_password byte_length Users.create_user Users.get_user
    Users.get_user_by_email Users.record_user_login Users.count_owners values_where lookup insert
    erase with_row when◌fail◌from◌otherwise◌ normalize_email to_lower map_chars trim_space trim_left
    reverse_onto is_space swap_char role_is_valid requires_branch_scope is_owner
bo_made = refl

create_user-MayCreate_example :
    (bo_stored.role ≡ Role.owner)
    × MayCreate (principal_of ann_stored) bo_stored.role bo_stored.branch_id
create_user-MayCreate_example =
    create_user-MayCreate memory_users tokens passwords "secret" memory_users-IsUserStore 2 "u2"
      (principal_of ann_stored) second_owner with_ann bo_stored bo_made

abbrev ann_first : BootstrapOwnerInput
ann_first = record {
  email = "ann@x.org";
  password = "long enough";
  first_name = "Ann";
  last_name = "Lee";
}

ann_bootstrapped :
    (bootstrap_owner memory_users tokens passwords "secret" 1 "u1" 5 ann_first new_memory).0
    ≡ ok (record {
      token = "token";
      user = record ann_stored { first_name = "Ann"; last_name = "Lee" };
    })
unfolding authenticate_token parse_token login login_result sign_token create_user bootstrap_owner
    allowed_branch hash_password byte_length Users.create_user Users.get_user
    Users.get_user_by_email Users.record_user_login Users.count_owners values_where lookup insert
    erase with_row when◌fail◌from◌otherwise◌ normalize_email to_lower map_chars trim_space trim_left
    reverse_onto is_space swap_char role_is_valid requires_branch_scope is_owner
ann_bootstrapped = refl

bootstrap_owner_once_example :
    let o = bootstrap_owner memory_users tokens passwords "secret" 1 "u1" 5 ann_first new_memory in
    bootstrap_owner memory_users tokens passwords "secret" 2 "u2" 6 ann_first o.1
    ≡ (err conflict, o.1)
bootstrap_owner_once_example =
    bootstrap_owner_once memory_users tokens passwords "secret" memory_users-IsUserStore 1 "u1" 5
      ann_first new_memory
      (record {
        token = "token";
        user = record ann_stored { first_name = "Ann"; last_name = "Lee" };
      })
      ann_bootstrapped 2 "u2" 6 ann_first

-- A receptionist, a library of tokens that accepts one text, and an update that switches the
-- account off.
abbrev desk_claims : Claims
desk_claims = record {
  user_id = "u5";
  branch_id = "b1";
  role = Role.receptionist;
  token_version = pos 1;
  expires_at = none;
}

abbrev desk_tokens : Jwt
desk_tokens = record {
  numeric_date = λ t. t;
  signed_string = λ key c. none;
  parse_with_claims = λ now key raw. if raw == "token" then some desk_claims else none;
}

desk_tokens_laws : JwtLaws desk_tokens
desk_tokens_laws = record {
  parse_signed = λ now e key token c signed expires early. absurd (ground arith);
  parse_again = λ now later key token c parsed. ground arith;
}

abbrev south : Branch
south = record {
  id = "";
  name = "South";
  slug = "south";
  address = "";
  opening_time = "";
  closing_time = "";
  created_at = 0;
  updated_at = 0;
}

abbrev desk_user : User
desk_user = record zero_user {
  branch_id = "b1";
  role = Role.receptionist;
  email = "desk@x.org";
  password_hash = "h";
  first_name = "Dee";
  last_name = "Sk";
}

abbrev desk_staff : StaffMember
desk_staff = record {
  id = "";
  branch_id = "";
  user_id = "";
  role = Role.other "";
  email = "";
  first_name = "";
  last_name = "";
  birth_date = "";
  gender = "";
  phone = "";
  address = "";
  hired_at = "";
  salary_amount_azn = pos 0;
  profile_photo_file_id = "";
  is_active = false;
  last_login_at = "";
  created_at = 0;
  updated_at = 0;
}

abbrev with_south : Memory
with_south = (create_branch 1 "b1" south new_memory).1

abbrev with_desk : Memory
with_desk = (create_staff_member 2 "u5" "sm1" desk_user desk_staff with_south).1

abbrev desk_stored : StaffMember
desk_stored = record desk_staff {
  id = "sm1";
  branch_id = "b1";
  user_id = "u5";
  role = Role.receptionist;
  email = "desk@x.org";
  first_name = "Dee";
  last_name = "Sk";
  is_active = true;
  created_at = 2;
  updated_at = 2;
}

abbrev desk_off : StaffMember
desk_off = record desk_stored { is_active = false }

abbrev desk_account : User
desk_account = record desk_user {
  id = "u5";
  is_active = true;
  token_version = pos 1;
  created_at = 2;
  updated_at = 2;
}

with_desk-Indexes : Indexes with_desk
unfolding create_branch create_staff_member update_staff_member updated_account authenticate_token
    parse_token Users.get_user lookup insert erase with_row when◌fail◌from◌otherwise◌
    normalize_email normalize_slug to_lower map_chars trim_space trim_left reverse_onto is_space
    swap_char role_is_valid requires_branch_scope
with_desk-Indexes = new_memory-Indexes with_desk (
    next (next here (Call.create_branch new_memory 1 "b1" south refl))
      (Call.create_staff_member with_south 2 "u5" "sm1" desk_user desk_staff refl))

desk_accepted :
    authenticate_token memory_users desk_tokens passwords "secret" 5 "token" with_desk
    ≡ ok (principal_of desk_account)
unfolding create_branch create_staff_member update_staff_member updated_account authenticate_token
    parse_token Users.get_user lookup insert erase with_row when◌fail◌from◌otherwise◌
    normalize_email normalize_slug to_lower map_chars trim_space trim_left reverse_onto is_space
    swap_char role_is_valid requires_branch_scope
desk_accepted = refl

desk_found : lookup "sm1" with_desk.staff_members ≡ some desk_stored
unfolding create_branch create_staff_member update_staff_member updated_account authenticate_token
    parse_token Users.get_user lookup insert erase with_row when◌fail◌from◌otherwise◌
    normalize_email normalize_slug to_lower map_chars trim_space trim_left reverse_onto is_space
    swap_char role_is_valid requires_branch_scope
desk_found = refl

desk_known : lookup "u5" with_desk.users ≡ some desk_account
unfolding create_branch create_staff_member update_staff_member updated_account authenticate_token
    parse_token Users.get_user lookup insert erase with_row when◌fail◌from◌otherwise◌
    normalize_email normalize_slug to_lower map_chars trim_space trim_left reverse_onto is_space
    swap_char role_is_valid requires_branch_scope
desk_known = refl

desk_updated :
    (update_staff_member 6 7 desk_off "" with_desk).0 ≡ ok (record desk_off { updated_at = 7 })
unfolding create_branch create_staff_member update_staff_member updated_account authenticate_token
    parse_token Users.get_user lookup insert erase with_row when◌fail◌from◌otherwise◌
    normalize_email normalize_slug to_lower map_chars trim_space trim_left reverse_onto is_space
    swap_char role_is_valid requires_branch_scope
desk_updated = refl

desk_changes : changes_account desk_account desk_off "" ≡ true
unfolding trim_space trim_left reverse_onto
desk_changes = refl

update_staff_member_revokes_example :
    let m' = (update_staff_member 6 7 desk_off "" with_desk).1 in
    (authenticate_token memory_users desk_tokens passwords "secret" 8 "token" m' ≡ err unauthorized)
    ⊎ (authenticate_token memory_users desk_tokens passwords "secret" 8 "token" m'
        ≡ err invalid_token)
update_staff_member_revokes_example =
    update_staff_member_revokes desk_tokens desk_tokens_laws passwords "secret" 5 6 7 8 "token"
      with_desk (principal_of desk_account) desk_off desk_stored
      (record desk_off { updated_at = 7 }) desk_account "" with_desk-Indexes desk_accepted
      desk_found refl desk_known desk_updated desk_changes
