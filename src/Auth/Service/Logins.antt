-- ===== src/Auth/Service/Logins.antt =====
-- A login and the token that it gives: Login and AuthenticateToken of auth/service.go.
use kingsway_academy.Base.{
  ◌+◌, ◌<◌, String, ◌≡◌, inl, inr, refl, sym, ap, ◌∙◌, true, false, some, arith, eq_refl, ◌==◌,
}
use kingsway_academy.Base.Int.{eqb_ℤ_refl}
use kingsway_academy.Base.Text.{trim_space}
use kingsway_academy.Domain.{Time, User, Result, ok, err, eq_role_refl, ok_or_err}
use kingsway_academy.Auth.Libraries.{Jwt, JwtLaws, Bcrypt}
use kingsway_academy.Auth.Tokens.{
  sign_token, parse_token, claims_are_refused, with_expiry, token_lifetime,
}
use kingsway_academy.Auth.Accounts.{UserStore, IsUserStore}
use kingsway_academy.Auth.Service.Sessions.{answered}
use kingsway_academy.Auth.Service.{
  session_is_refused, principal_of, claims_of, login_result, login, LoginInput, LoginResult,
  authenticate_token, check_password,
}

-- The claims that a token makes of an active user are accepted for that user.
own_session :
    (jwt : Jwt) (now : Time) (user : User)
    → user.is_active ≡ true
    → claims_are_refused (claims_of user) ≡ false
    → session_is_refused user (with_expiry jwt now (claims_of user)) ≡ false
own_session jwt now user active fine =
    ground (arith, eq_role_refl user.role, eq_refl user.branch_id, eqb_ℤ_refl user.token_version)

module _ {S : Type 0} (store : UserStore S) (jwt : Jwt) (bcrypt : Bcrypt) (secret : String) where
  -- A token that was signed is parsed until it expires.
  parse_of_signed :
      (jwt_laws : JwtLaws jwt) (now later : Time) (token : String) (user : User)
      → claims_are_refused (claims_of user) ≡ false
      → sign_token jwt now secret (claims_of user) ≡ ok token
      → later < jwt.numeric_date (now + token_lifetime)
      → parse_token jwt later secret token ≡ ok (with_expiry jwt now (claims_of user))
  unfolding sign_token parse_token
  parse_of_signed jwt_laws now later token user fine signed valid =
      let key = trim_space secret in
      let claims = with_expiry jwt now (claims_of user) in
      let strong : (key == "") ≡ false = ground arith in
      let given : jwt.signed_string key claims ≡ some token = ground arith in
      rw (strong, jwt_laws.parse_signed later _ key token claims given refl valid, fine) refl

  signed_of_result :
      (now : Time) (user : User) (result : LoginResult)
      → login_result store jwt bcrypt secret now user ≡ ok result
      → (sign_token jwt now secret (claims_of user) ≡ ok result.token) × (result.user ≡ user)
  unfolding login_result
  signed_of_result now user result h = (ground arith, ground arith)

  -- What Login has done when it succeeds.
  logged_in :
      (login_at : String) (ts now : Time) (input : LoginInput) (s : S) (result : LoginResult)
      → (login store jwt bcrypt secret login_at ts now input s).0 ≡ ok result
      → (user : User) × (store.get_user_by_email input.email s ≡ ok user)
        × (user.is_active ≡ true)
        × (check_password bcrypt user.password_hash input.password ≡ true)
        × (login store jwt bcrypt secret login_at ts now input s ≡ (
            let o = store.record_user_login login_at ts user.id s in
            (
              login_result store jwt bcrypt secret now
                  (elim o.0 [ err e ↦ user | ok updated ↦ updated ]),
              o.1,
            )))
  unfolding login
  logged_in login_at ts now input s result h =
      elim (ok_or_err (store.get_user_by_email input.email s)) [
        | inr (e, missing) ↦ absurd (ground arith)
        | inl (user, found) ↦
            let active : user.is_active ≡ true = ground arith in
            let checked : check_password bcrypt user.password_hash input.password ≡ true =
              ground arith in
            (user, found, active, checked, rw (found, active, checked, login) refl)
      ]

  module _ (jwt_laws : JwtLaws jwt) {Good : S → Type 0} (accounts : IsUserStore Good store) where
    -- In a good state of the store: who logs in is active, and the password matches the hash of
    -- the user under that address. The token that the login gives authenticates as that user
    -- until it expires, 12 hours later up to the library's rounding, if the role is a known one,
    -- the branch is set where the role needs one, and the token version is positive.
    pub login_authenticates :
        (login_at : String) (ts now later : Time) (input : LoginInput) (s : S)
        (result : LoginResult)
        → Good s
        → let o = login store jwt bcrypt secret login_at ts now input s in
          o.0 ≡ ok result
          → claims_are_refused (claims_of result.user) ≡ false
          → later < jwt.numeric_date (now + token_lifetime)
          → (authenticate_token store jwt bcrypt secret later result.token o.1
              ≡ ok (principal_of result.user))
            × ((user : User) × (store.get_user_by_email input.email s ≡ ok user)
                × (user.id ≡ result.user.id)
                × (user.is_active ≡ true)
                × (bcrypt.compare_hash_and_password user.password_hash input.password ≡ true))
    login_authenticates login_at ts now later input s result good h fine valid =
        let (user, found, active, checked, run) = logged_in login_at ts now input s result h in
        let (stored, kept) =
          accounts.recorded s login_at ts user.id user
            (accounts.found_by_email s input.email user good found) in
        let user' : User = record user { last_login_at = login_at; updated_at = ts } in
        let o = store.record_user_login login_at ts user.id s in
        let result_of : Result User → Result LoginResult = λ r.
          login_result store jwt bcrypt secret now
            (elim r [ err e ↦ user | ok updated ↦ updated ]) in
        let answer : login_result store jwt bcrypt secret now user' ≡ ok result =
          sym (ap result_of stored) ∙ sym (ap (λ p. p.0) run) ∙ h in
        let (signed, same) = signed_of_result now user' result answer in
        let fine' = ap (λ u. claims_are_refused (claims_of u)) (sym same) ∙ fine in
        let parsed = parse_of_signed jwt_laws now later result.token user' fine' signed valid in
        (
          ap (λ p. authenticate_token store jwt bcrypt secret later result.token p.1) run
              ∙ answered store jwt bcrypt secret later result.token o.1 _ user' parsed kept
              ∙ rw (own_session jwt now user' active fine')
                  (ap (λ u. ok (principal_of u)) (sym same)),
          (user, found, sym (ap (λ (u : User). u.id) same), active, checked),
        )
