-- ===== src/Auth/Tokens.antt =====
-- auth/token.go.
use kingsway_academy.Base.{
  ◌+◌, ◌*◌, String, ◌==◌, ◌||◌, ◌&&◌, not, Bool, none, some, if◌then◌else◌, ltb,
}
use kingsway_academy.Base.Int.{pos, leb_ℤ}
use kingsway_academy.Base.Text.{trim_space, to_lower, is_empty, byte_length}
use kingsway_academy.Domain.{
  Time, Result, ok, err, weak_secret, invalid_token, external, role_is_valid, requires_branch_scope,
}
use kingsway_academy.Auth.Libraries.{Claims, Jwt}

-- 12 hours, in nanoseconds
abbrev pub token_lifetime : Time
token_lifetime = 12 * 3600 * 1000000000

-- The claims with the expiry that SignToken sets where there is none.
abbrev pub with_expiry : Jwt → Time → Claims → Claims
with_expiry jwt now claims = elim claims.expires_at [
  | none ↦ record claims { expires_at = some (jwt.numeric_date (now + token_lifetime)) }
  | some e ↦ claims
]

-- SignToken
unfoldable pub sign_token : Jwt → Time → String → Claims → Result String
sign_token jwt now secret claims =
    let key = trim_space secret in
    if is_empty key
    then err weak_secret
    else elim (jwt.signed_string key (with_expiry jwt now claims)) [
      | none ↦ err external
      | some token ↦ ok token
    ]

-- The tests of ParseToken on the claims of a valid token.
abbrev pub claims_are_refused : Claims → Bool
claims_are_refused c =
    not (role_is_valid c.role)
    || leb_ℤ c.token_version (pos 0)
    || (requires_branch_scope c.role && is_empty c.branch_id)

-- ParseToken
unfoldable pub parse_token : Jwt → Time → String → String → Result Claims
parse_token jwt now secret raw =
    let key = trim_space secret in
    if is_empty key then err invalid_token else elim (jwt.parse_with_claims now key raw) [
      | none ↦ err invalid_token
      | some c ↦ if claims_are_refused c then err invalid_token else ok c
    ]

-- isLocalLikeEnv
unfoldable pub is_local_like_env : String → Bool
is_local_like_env app_env =
    let env = to_lower (trim_space app_env) in
    env == ""
    || env == "local"
    || env == "dev"
    || env == "development"
    || env == "test"
    || env == "testing"

-- isWeakJWTSecret
unfoldable pub is_weak_jwt_secret : String → Bool
is_weak_jwt_secret secret =
    let normalized = to_lower (trim_space secret) in
    normalized == "dev-only-change-me"
    || normalized == "secret"
    || normalized == "jwt-secret"
    || normalized == "change-me"
    || normalized == "changeme"
    || normalized == "password"
    || ltb (byte_length secret) 32

-- ValidateJWTSecret
unfoldable pub validate_jwt_secret : String → String → Result (Unit {0})
validate_jwt_secret app_env secret =
    let key = trim_space secret in
    if is_empty key
    then err weak_secret
    else if is_local_like_env app_env
    then ok tt
    else if is_weak_jwt_secret key
    then err weak_secret
    else ok tt
