-- ===== src/Auth/Libraries.antt =====
-- What auth/service.go and auth/token.go use of golang-jwt and of bcrypt, as parameters.
use kingsway_academy.Base.{String, ◌≡◌, ◌⊎◌, ◌<◌, Bool, Option, none, some}
use kingsway_academy.Base.Int.{ℤ}
use kingsway_academy.Domain.{Time, Role}

-- Claims of token.go. `expires_at` is the registered claim; the others are never set.
pub record Claims : Type 0 where
  pub user_id : String
  pub branch_id : String
  pub role : Role
  pub token_version : ℤ
  pub expires_at : Option Time

pub record Jwt : Type 0 where
  -- jwt.NewNumericDate, which drops the part below a second
  pub numeric_date : Time → Time
  -- NewWithClaims with HS256 and SignedString, under a key; `none` is an error
  pub signed_string : String → Claims → Option String
  -- ParseWithClaims at a time, under a key, for tokens signed with HS256; `none` is an error or a
  -- token that is not valid
  pub parse_with_claims : Time → String → String → Option Claims

-- What the documentation of golang-jwt says of the two.
pub record JwtLaws (jwt : Jwt) : Type 0 where
  -- A token that was signed with an expiry made by NewNumericDate is accepted under its key until it
  -- expires, with the claims that were signed.
  pub parse_signed :
      (now t : Time) (key token : String) (c : Claims)
      → jwt.signed_string key c ≡ some token
      → c.expires_at ≡ some (jwt.numeric_date t)
      → now < jwt.numeric_date t
      → jwt.parse_with_claims now key token ≡ some c
  -- The claims are in the token: at another time it holds the same ones, or is not valid.
  pub parse_again :
      (now later : Time) (key token : String) (c : Claims)
      → jwt.parse_with_claims now key token ≡ some c
      → (jwt.parse_with_claims later key token ≡ some c)
        ⊎ (jwt.parse_with_claims later key token ≡ none)

pub record Bcrypt : Type 0 where
  -- bcrypt.GenerateFromPassword; `none` is an error
  pub generate_from_password : String → Option String
  -- `bcrypt.CompareHashAndPassword(hash, password) == nil`
  pub compare_hash_and_password : String → String → Bool
