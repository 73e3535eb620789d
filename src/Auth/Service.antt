-- ===== src/Auth/Service.antt =====
-- auth/service.go.
pub mod Sessions
pub mod Logins
pub mod Privileges
pub mod Revocation
use kingsway_academy.Base.{
  ℕ, String, ◌==◌, ◌||◌, ◌&&◌, not, Bool, true, false, Option, none, some, if◌then◌else◌, ltb, List,
  [], ◌∷◌, any,
}
use kingsway_academy.Base.Int.{pos, eqb_ℤ}
use kingsway_academy.Base.Text.{trim_space, to_lower, is_empty, byte_length, contains_text}
use kingsway_academy.Domain.{
  Time, Role, User, Principal, Result, ok, err, conflict, invalid_input, forbidden, unauthorized,
  not_found, external, eq_role, role_is_valid, requires_branch_scope, is_owner, can_use_branch,
  Error, ◌>>=◌, ◌>>◌,
}
use kingsway_academy.Store.Users.{zero_user}
use kingsway_academy.Auth.Libraries.{Claims, Jwt, Bcrypt}
use kingsway_academy.Auth.Tokens.{sign_token, parse_token}
use kingsway_academy.Auth.Accounts.{UserStore}

pub record CreateUserInput : Type 0 where
  pub branch_id : String
  pub role : Role
  pub email : String
  pub password : String
  pub first_name : String
  pub last_name : String

pub record BootstrapOwnerInput : Type 0 where
  pub email : String
  pub password : String
  pub first_name : String
  pub last_name : String

pub record LoginInput : Type 0 where
  pub email : String
  pub password : String

pub record LoginResult : Type 0 where
  pub token : String
  pub user : User

pub record EmailAvailabilityResult : Type 0 where
  pub email : String
  pub available : Bool

-- RequireAnyRole
unfoldable pub require_any_role : Principal → List Role → Result (Unit {0})
require_any_role principal roles =
    if any (λ role. eq_role principal.role role) roles then ok tt else err forbidden

-- RequireBranch
unfoldable pub require_branch : Principal → String → Result (Unit {0})
require_branch principal branch_id =
    if is_empty branch_id
    then err invalid_input
    else if can_use_branch principal branch_id
    then ok tt
    else err forbidden

-- HashPassword
unfoldable pub hash_password : Bcrypt → String → Result String
hash_password bcrypt password =
    if ltb (byte_length password) 8
    then err invalid_input
    else elim (bcrypt.generate_from_password password) [ none ↦ err external | some hash ↦ ok hash ]

-- CheckPassword
abbrev pub check_password : Bcrypt → String → String → Bool
check_password bcrypt hash password = bcrypt.compare_hash_and_password hash password

-- The branch in which CreateUser creates the user, or why it does not.
unfoldable pub allowed_branch : Principal → CreateUserInput → Result String
allowed_branch actor input =
    if is_empty input.password
      || is_empty input.email
      || is_empty input.first_name
      || is_empty input.last_name
      || not (role_is_valid input.role)
    then err invalid_input
    else if eq_role input.role Role.owner && not (eq_role actor.role Role.owner)
    then err forbidden
    else if eq_role input.role Role.owner
    then ok input.branch_id
    else if not (is_owner actor) && not (eq_role actor.role Role.receptionist)
    then err forbidden
    else let branch_id = if is_owner actor then input.branch_id else actor.branch_id in
      if is_empty branch_id then err invalid_input else ok branch_id

-- The user that CreateUser asks the store for.
abbrev pub asked_user : CreateUserInput → String → String → User
asked_user input branch_id hash = record zero_user {
  branch_id = branch_id;
  role = input.role;
  email = trim_space input.email;
  password_hash = hash;
  first_name = trim_space input.first_name;
  last_name = trim_space input.last_name;
}

-- The claims that a token of the user makes.
abbrev pub claims_of : User → Claims
claims_of user = record {
  user_id = user.id;
  branch_id = user.branch_id;
  role = user.role;
  token_version = user.token_version;
  expires_at = none;
}

-- The tests of AuthenticateToken on the stored user.
abbrev pub session_is_refused : User → Claims → Bool
session_is_refused user claims =
    not user.is_active
    || not (eq_role user.role claims.role)
    || not (user.branch_id == claims.branch_id)
    || not (eqb_ℤ user.token_version claims.token_version)
    || (requires_branch_scope user.role && is_empty user.branch_id)

abbrev pub principal_of : User → Principal
principal_of user = record { user_id = user.id; branch_id = user.branch_id; role = user.role }

-- The actor and the input with which BootstrapOwner calls CreateUser.
abbrev pub no_principal : Principal
no_principal = record { user_id = ""; branch_id = ""; role = Role.owner }

abbrev pub first_owner : BootstrapOwnerInput → CreateUserInput
first_owner input = record {
  branch_id = "";
  role = Role.owner;
  email = input.email;
  password = input.password;
  first_name = input.first_name;
  last_name = input.last_name;
}

module _ {S : Type 0} (store : UserStore S) (jwt : Jwt) (bcrypt : Bcrypt)
    (jwt_secret : String) where
  -- CreateUser
  unfoldable pub create_user : Time → String → Principal → CreateUserInput → S → Result User × S
  create_user ts id actor input s =
      elim (allowed_branch actor input >>= λ branch_id.
      hash_password bcrypt input.password >>= λ hash. ok (asked_user input branch_id hash)) [
        | err e ↦ (err e, s)
        | ok user ↦ store.create_user ts id user s
      ]

  -- The token of a user, with the user.
  unfoldable pub login_result : Time → User → Result LoginResult
  login_result now user = sign_token jwt now jwt_secret (claims_of user) >>= λ token.
      ok (record { token = token; user = user })

  -- BootstrapOwner
  unfoldable pub bootstrap_owner :
      Time → String → Time → BootstrapOwnerInput → S → Result LoginResult × S
  unfolding create_user login_result
  bootstrap_owner ts id now input s = elim (store.count_owners s) [
    | err e ↦ (err e, s)
    | ok n ↦
        if ltb 0 n
        then (err conflict, s)
        else let o = create_user ts id no_principal (first_owner input) s in
          (o.0 >>= login_result now, o.1)
  ]

  -- Login
  unfoldable pub login : String → Time → Time → LoginInput → S → Result LoginResult × S
  unfolding login_result
  login login_at ts now input s = elim (store.get_user_by_email input.email s) [
    | err e ↦ (err unauthorized, s)
    | ok user ↦
        if not user.is_active || not (check_password bcrypt user.password_hash input.password)
        then (err unauthorized, s)
        else let o = store.record_user_login login_at ts user.id s in
          (login_result now (elim o.0 [ err e ↦ user | ok updated ↦ updated ]), o.1)
  ]

  -- PrincipalFromToken
  unfoldable pub principal_from_token : Time → String → Result Principal
  principal_from_token now raw = parse_token jwt now jwt_secret raw >>= λ claims.
      ok (record { user_id = claims.user_id; branch_id = claims.branch_id; role = claims.role })

  -- AuthenticateToken
  unfoldable pub authenticate_token : Time → String → S → Result Principal
  authenticate_token now raw s = parse_token jwt now jwt_secret raw >>= λ claims.
      elim (store.get_user claims.user_id s) [
        | err e ↦ err unauthorized
        | ok user ↦
            if session_is_refused user claims then err unauthorized else ok (principal_of user)
      ]

  -- Logout
  unfoldable pub logout : Time → Principal → S → Result (Unit {0}) × S
  logout ts principal s =
      if is_empty principal.user_id
      then (err unauthorized, s)
      else let o = store.revoke_user_tokens ts principal.user_id s in
        (elim o.0 [ err e ↦ err unauthorized | ok _ ↦ ok tt ], o.1)

  -- CurrentUser
  unfoldable pub current_user : Principal → S → Result User
  current_user principal s =
      if is_empty principal.user_id
      then err unauthorized
      else elim (store.get_user principal.user_id s) [
        | err e ↦ err unauthorized
        | ok user ↦ if not user.is_active then err unauthorized else ok user
      ]

  -- CheckEmailAvailability
  unfoldable pub check_email_availability : Principal → String → S → Result EmailAvailabilityResult
  check_email_availability principal given s =
      require_any_role principal (Role.owner ∷ Role.receptionist ∷ [])
      >> (let email = to_lower (trim_space given) in
          if is_empty email || not (contains_text email "@")
          then err invalid_input
          else elim (store.get_user_by_email email s) [
            | ok user ↦ ok (record { email = email; available = false })
            | err not_found ↦ ok (record { email = email; available = true })
            | err e ↦ err e
          ])
