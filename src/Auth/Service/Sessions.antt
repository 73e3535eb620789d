-- ===== src/Auth/Service/Sessions.antt =====
-- What a session is worth: login, authentication and logout of auth/service.go.
use kingsway_academy.Base.{
  String, ◌≡◌, ◌≢◌, ◌⊎◌, inl, inr, refl, sym, ap, ◌∙◌, Bool, true, false, none, some, arith, eq_iff,
  ◌==◌, if◌then◌else◌,
}
use kingsway_academy.Base.Int.{eqb_ℤ_lem}
use kingsway_academy.Base.Word.{add64_moves}
use kingsway_academy.Base.Text.{trim_space}
use kingsway_academy.Domain.{
  Time, User, Principal, ok, err, unauthorized, invalid_token, eq_role_lem, Error, ok_or_err,
}
use kingsway_academy.Auth.Libraries.{Claims, Jwt, JwtLaws, Bcrypt}
use kingsway_academy.Auth.Tokens.{parse_token, claims_are_refused}
use kingsway_academy.Auth.Accounts.{UserStore, IsUserStore}
use kingsway_academy.Auth.Service.{session_is_refused, principal_of, authenticate_token, logout}

-- The stored user fits the claims.
pub record Fits (user : User) (claims : Claims) : Type 0 where
  pub active : user.is_active ≡ true
  pub role : claims.role ≡ user.role
  pub branch : claims.branch_id ≡ user.branch_id
  pub version : claims.token_version ≡ user.token_version

user-Fits :
    (user : User) (claims : Claims) → session_is_refused user claims ≡ false → Fits user claims
user-Fits user claims h = record {
  active = ground arith;
  role = sym (eq_role_lem user.role claims.role (ground arith));
  branch = sym (ground (arith, eq_iff user.branch_id claims.branch_id));
  version = sym (eqb_ℤ_lem user.token_version claims.token_version (ground arith));
}

accepted_of :
    (refused : Bool) (e : Error) (p q : Principal)
    → ok p ≡ (if refused then err e else ok q)
    → (refused ≡ false) × (p ≡ q)
accepted_of true e p q h = absurd (ground arith)
accepted_of false e p q h = (refl, ground arith)

-- A token with another version is refused.
refused_of_version :
    (user : User) (claims : Claims)
    → claims.token_version ≢ user.token_version
    → session_is_refused user claims ≡ true
refused_of_version user claims differ =
    ground (arith, eqb_ℤ_lem user.token_version claims.token_version)

module _ {S : Type 0} (store : UserStore S) (jwt : Jwt) (bcrypt : Bcrypt) (secret : String) where
  -- What AuthenticateToken answers for a token whose claims name a stored user.
  pub answered :
      (now : Time) (raw : String) (s : S) (claims : Claims) (user : User)
      → parse_token jwt now secret raw ≡ ok claims
      → store.get_user claims.user_id s ≡ ok user
      → authenticate_token store jwt bcrypt secret now raw s
        ≡ (if session_is_refused user claims then err unauthorized else ok (principal_of user))
  unfolding authenticate_token
  answered now raw s claims user parsed found = rw (parsed, found) refl

  unnamed :
      (now : Time) (raw : String) (s : S) (claims : Claims) (e : Error)
      → parse_token jwt now secret raw ≡ ok claims
      → store.get_user claims.user_id s ≡ err e
      → authenticate_token store jwt bcrypt secret now raw s ≡ err unauthorized
  unfolding authenticate_token
  unnamed now raw s claims e parsed missing = rw (parsed, missing) refl

  unparsed :
      (now : Time) (raw : String) (s : S) (e : Error)
      → parse_token jwt now secret raw ≡ err e
      → authenticate_token store jwt bcrypt secret now raw s ≡ err e
  unfolding authenticate_token
  unparsed now raw s e refused = rw refused refl

  -- A token is accepted only for a user who is stored and active, with the role, the branch and the
  -- token version that it claims, and makes that user the principal.
  pub authenticate_token_lem :
      (now : Time) (raw : String) (s : S) (p : Principal)
      → authenticate_token store jwt bcrypt secret now raw s ≡ ok p
      → (claims : Claims) × (user : User) × (parse_token jwt now secret raw ≡ ok claims)
        × (store.get_user claims.user_id s ≡ ok user)
        × (p ≡ principal_of user)
        × Fits user claims
  authenticate_token_lem now raw s p h = elim (ok_or_err (parse_token jwt now secret raw)) [
    | inr (e, refused) ↦ absurd (ground (arith, unparsed now raw s e refused))
    | inl (claims, parsed) ↦ elim (ok_or_err (store.get_user claims.user_id s)) [
      | inr (e, missing) ↦ absurd (ground (arith, unnamed now raw s claims e parsed missing))
      | inl (user, found) ↦
          let accepted : (session_is_refused user claims ≡ false) × (p ≡ principal_of user) =
            accepted_of _ _ _ _ (sym h ∙ answered now raw s claims user parsed found) in
          (claims, user, parsed, found, accepted.1, user-Fits user claims accepted.0)
    ]
  ]

  parse_parts :
      (now : Time) (raw : String) (claims : Claims)
      → parse_token jwt now secret raw ≡ ok claims
      → ((trim_space secret == "") ≡ false)
        × (jwt.parse_with_claims now (trim_space secret) raw ≡ some claims)
        × (claims_are_refused claims ≡ false)
  unfolding parse_token
  parse_parts now raw claims h = (ground arith, ground arith, ground arith)

  parse_of :
      (now : Time) (raw : String) (claims : Claims)
      → (trim_space secret == "") ≡ false
      → jwt.parse_with_claims now (trim_space secret) raw ≡ some claims
      → claims_are_refused claims ≡ false
      → parse_token jwt now secret raw ≡ ok claims
  unfolding parse_token
  parse_of now raw claims strong valid fine = rw (strong, valid, fine) refl

  parse_invalid :
      (now : Time) (raw : String)
      → jwt.parse_with_claims now (trim_space secret) raw ≡ none
      → parse_token jwt now secret raw ≡ err invalid_token
  unfolding parse_token
  parse_invalid now raw void = ground arith

  logged_out :
      (ts : Time) (s : S) (p : Principal) (user : User)
      → p.user_id ≢ ""
      → (store.revoke_user_tokens ts p.user_id s).0 ≡ ok user
      → logout store jwt bcrypt secret ts p s ≡ (ok tt, (store.revoke_user_tokens ts p.user_id s).1)
  unfolding logout
  logged_out ts s p user named revoked =
      let kept : (p.user_id == "") ≡ false = ground (arith, eq_iff p.user_id "") in
      rw (kept, revoked) refl

  module _ (jwt_laws : JwtLaws jwt) where
    -- A token holds the same claims later, or is not valid.
    parsed_again :
        (now later : Time) (raw : String) (claims : Claims)
        → parse_token jwt now secret raw ≡ ok claims
        → (parse_token jwt later secret raw ≡ ok claims)
          ⊎ (parse_token jwt later secret raw ≡ err invalid_token)
    parsed_again now later raw claims h =
        let (strong, valid, fine) = parse_parts now raw claims h in
        elim (jwt_laws.parse_again now later (trim_space secret) raw claims valid) [
          | inl still ↦ inl (parse_of later raw claims strong still fine)
          | inr void ↦ inr (parse_invalid later raw void)
        ]

    module _ {Good : S → Type 0} (accounts : IsUserStore Good store) where
      -- A token that was accepted in one store is refused in another, where the same user has
      -- another token version.
      pub version_revokes :
          (now later : Time) (raw : String) (s s' : S) (p : Principal) (user user' : User)
          → Good s
          → authenticate_token store jwt bcrypt secret now raw s ≡ ok p
          → store.get_user p.user_id s ≡ ok user
          → store.get_user p.user_id s' ≡ ok user'
          → user'.token_version ≢ user.token_version
          → (authenticate_token store jwt bcrypt secret later raw s' ≡ err unauthorized)
            ⊎ (authenticate_token store jwt bcrypt secret later raw s' ≡ err invalid_token)
      version_revokes now later raw s s' p user user' good h before_it after_it differ =
          let (claims, known, parsed, found, is_user, fits) =
            authenticate_token_lem now raw s p h in
          let same : p.user_id ≡ claims.user_id =
            ap (λ (q : Principal). q.user_id) is_user
            ∙ accounts.own s claims.user_id known good found in
          let is : known ≡ user = ground (arith, ap (λ i. store.get_user i s) same) in
          elim (parsed_again now later raw claims parsed) [
            | inr void ↦ inr (unparsed later raw s' invalid_token void)
            | inl still ↦ inl (
                answered later raw s' claims user' still
                  (ap (λ i. store.get_user i s') (sym same) ∙ after_it)
                ∙ rw
                    (refused_of_version user' claims
                      (λ e. differ (sym e ∙ fits.version ∙ ap (λ (u : User). u.token_version) is)))
                    refl)
          ]

      -- In a good state of the store, a logout of a principal with a user id succeeds, and after
      -- it every token that was accepted for that principal is refused, at any time.
      pub logout_revokes :
          (now ts later : Time) (raw : String) (s : S) (p : Principal)
          → Good s
          → authenticate_token store jwt bcrypt secret now raw s ≡ ok p
          → p.user_id ≢ ""
          → let o = logout store jwt bcrypt secret ts p s in
            (o.0 ≡ ok tt)
            × ((authenticate_token store jwt bcrypt secret later raw o.1 ≡ err unauthorized)
                ⊎ (authenticate_token store jwt bcrypt secret later raw o.1 ≡ err invalid_token))
      logout_revokes now ts later raw s p good h named =
          let (claims, user, parsed, found, is_user, fits) = authenticate_token_lem now raw s p h in
          let same : p.user_id ≡ claims.user_id =
            ap (λ (q : Principal). q.user_id) is_user
            ∙ accounts.own s claims.user_id user good found in
          let known = ap (λ i. store.get_user i s) same ∙ found in
          let (revoked, stored) = accounts.revoked s ts p.user_id user known in
          rw (logged_out ts s p _ named revoked) (
            refl,
            version_revokes now later raw s (store.revoke_user_tokens ts p.user_id s).1 p user _
                good h known stored (add64_moves user.token_version),
          )
