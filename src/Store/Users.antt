-- ===== src/Store/Users.antt =====
-- The user accounts of memory.go.
use kingsway_academy.Base.{ℕ, String, ◌||◌, ◌&&◌, not, true, false, length}
use kingsway_academy.Base.Int.{pos}
use kingsway_academy.Base.Word.{add64}
use kingsway_academy.Base.Text.{is_empty}
use kingsway_academy.Map.{lookup, contains, insert, get_or, values_where}
use kingsway_academy.Domain.{
  Time, Role, User, ok, invalid_input, conflict, not_found, role_is_valid, requires_branch_scope,
  eq_role,
}
use kingsway_academy.Store.State.{
  when◌fail◌from◌otherwise◌, Memory, Outcome, with_row, normalize_email,
}

-- CountOwners
unfoldable pub count_owners : Memory → ℕ
count_owners m = length (values_where (λ user. eq_role user.role Role.owner) m.users)

-- The zero value of the struct User.
abbrev pub zero_user : User
zero_user = record {
  id = "";
  branch_id = "";
  role = Role.other "";
  email = "";
  password_hash = "";
  first_name = "";
  last_name = "";
  is_active = false;
  token_version = pos 0;
  last_login_at = "";
  created_at = 0;
  updated_at = 0;
}

-- CreateUser
unfoldable pub create_user : Time → String → User → Memory → Outcome User
create_user ts id user m =
    let email = normalize_email user.email in
    let row = record user {
      id = id;
      email = email;
      is_active = true;
      token_version = pos 1;
      created_at = ts;
      updated_at = ts;
    } in
    when is_empty email || is_empty user.password_hash || not (role_is_valid user.role)
    fail invalid_input
    from m
    otherwise when requires_branch_scope user.role && is_empty user.branch_id
    fail invalid_input
    from m
    otherwise when requires_branch_scope user.role && not (contains user.branch_id m.branches)
    fail not_found
    from m
    otherwise when contains email m.users_by_email
    fail conflict
    from m
    otherwise (
      ok row,
      record m { users = insert id row m.users; users_by_email = insert email id m.users_by_email },
    )

-- RevokeUserTokens
unfoldable pub revoke_user_tokens : Time → String → Memory → Outcome User
revoke_user_tokens ts id m = with_row (lookup id m.users) m λ user.
    let row = record user { token_version = add64 user.token_version (pos 1); updated_at = ts } in
    (ok row, record m { users = insert id row m.users })

-- GetUser
unfoldable pub get_user : String → Memory → Outcome User
get_user id m = with_row (lookup id m.users) m (λ user. (ok user, m))

-- GetUserByEmail
unfoldable pub get_user_by_email : String → Memory → Outcome User
get_user_by_email email m =
    with_row (lookup (normalize_email email) m.users_by_email) m
      λ id. (ok (get_or id m.users zero_user), m)

-- RecordUserLogin; `login_at` is the text of the first reading of the clock
unfoldable pub record_user_login : String → Time → String → Memory → Outcome User
record_user_login login_at ts id m = with_row (lookup id m.users) m λ user.
    let row = record user { last_login_at = login_at; updated_at = ts } in
    (ok row, record m { users = insert id row m.users })
