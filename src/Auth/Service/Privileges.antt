-- ===== src/Auth/Service/Privileges.antt =====
-- Who may create whom: CreateUser and BootstrapOwner of auth/service.go.
use kingsway_academy.Base.{
  ℕ, ◌<◌, String, ◌≡◌, ◌≢◌, inl, inr, refl, sym, ap, ◌∙◌, true, arith, eq_iff, Bool-cases, ltb,
}
use kingsway_academy.Domain.{
  Time, Role, User, Principal, ok, err, conflict, eq_role, eq_role_lem, ok_or_err, is_owner, ◌>>=◌,
}
use kingsway_academy.Auth.Libraries.{Jwt, Bcrypt}
use kingsway_academy.Auth.Accounts.{UserStore, IsUserStore}
use kingsway_academy.Auth.Service.{
  allowed_branch, create_user, CreateUserInput, asked_user, hash_password, bootstrap_owner,
  BootstrapOwnerInput, LoginResult, login_result, no_principal, first_owner,
}

-- Who may create a user with this role in this branch.
pub data MayCreate (actor : Principal) : Role → String → Type 0 where
  owner : (branch_id : String) → actor.role ≡ Role.owner → MayCreate actor Role.owner branch_id
  in_any_branch :
      (role : Role) (branch_id : String)
      → actor.role ≡ Role.owner
      → branch_id ≢ ""
      → MayCreate actor role branch_id
  in_own_branch :
      (role : Role)
      → actor.role ≡ Role.receptionist
      → role ≢ Role.owner
      → actor.branch_id ≢ ""
      → MayCreate actor role actor.branch_id

owner_of : (p : Principal) → is_owner p ≡ true → p.role ≡ Role.owner
unfolding is_owner
owner_of p h = eq_role_lem p.role Role.owner h

allowed :
    (actor : Principal) (input : CreateUserInput) (branch_id : String)
    → allowed_branch actor input ≡ ok branch_id
    → MayCreate actor input.role branch_id
unfolding allowed_branch
allowed actor input branch_id h = elim (Bool-cases (eq_role input.role Role.owner)) [
  | inl to_owner ↦
      rw (eq_role_lem input.role Role.owner to_owner)
        (MayCreate.owner branch_id (eq_role_lem actor.role Role.owner (ground arith)))
  | inr lower ↦ elim (Bool-cases (is_owner actor)) [
    | inl boss ↦
        MayCreate.in_any_branch input.role branch_id (owner_of actor boss)
          (ground (arith, eq_iff branch_id ""))
    | inr other ↦
        let own : branch_id ≡ actor.branch_id = ground arith in
        rw own (
          MayCreate.in_own_branch input.role
            (eq_role_lem actor.role Role.receptionist (ground arith))
            (λ e. ground (arith, ap (λ r. eq_role r Role.owner) e))
            (ground (arith, eq_iff branch_id "")))
  ]
]

module _ {S : Type 0} (store : UserStore S) (jwt : Jwt) (bcrypt : Bcrypt) (secret : String) where
  asked :
      (ts : Time) (id : String) (actor : Principal) (input : CreateUserInput) (s : S) (user : User)
      → (create_user store jwt bcrypt secret ts id actor input s).0 ≡ ok user
      → (branch_id hash : String) × (allowed_branch actor input ≡ ok branch_id)
        × (create_user store jwt bcrypt secret ts id actor input s
            ≡ store.create_user ts id (asked_user input branch_id hash) s)
  unfolding create_user
  asked ts id actor input s user h = elim (ok_or_err (allowed_branch actor input)) [
    | inr (e, refused) ↦ absurd (ground arith)
    | inl (branch_id, allowed) ↦ elim (ok_or_err (hash_password bcrypt input.password)) [
      | inr (e, refused) ↦ absurd (ground arith)
      | inl (hash, hashed) ↦ (branch_id, hash, allowed, rw (allowed, hashed, create_user) refl)
    ]
  ]

  bootstrap_refused :
      (ts : Time) (id : String) (now : Time) (input : BootstrapOwnerInput) (s : S) (n : ℕ)
      → store.count_owners s ≡ ok n
      → 0 < n
      → bootstrap_owner store jwt bcrypt secret ts id now input s ≡ (err conflict, s)
  unfolding bootstrap_owner
  bootstrap_refused ts id now input s n counted some_owner =
      let positive : ltb 0 n ≡ true = ground arith in rw (counted, positive, bootstrap_owner) refl

  bootstrap_ran :
      (ts : Time) (id : String) (now : Time) (input : BootstrapOwnerInput) (s : S)
      (result : LoginResult)
      → let o = bootstrap_owner store jwt bcrypt secret ts id now input s in
        o.0 ≡ ok result
        → (user : User) × (let made =
              create_user store jwt bcrypt secret ts id no_principal (first_owner input) s in
            (made.0 ≡ ok user) × (o.1 ≡ made.1))
  unfolding bootstrap_owner
  bootstrap_ran ts id now input s result h = elim (ok_or_err (store.count_owners s)) [
    | inr (e, failed) ↦ absurd (ground arith)
    | inl (n, counted) ↦ elim (Bool-cases (ltb 0 n)) [
      | inl positive ↦ absurd (ground arith)
      | inr nobody ↦
          let o = create_user store jwt bcrypt secret ts id no_principal (first_owner input) s in
          let run : bootstrap_owner store jwt bcrypt secret ts id now input s
              ≡ (o.0 >>= login_result store jwt bcrypt secret now, o.1) =
            rw (counted, nobody, bootstrap_owner) refl in
          elim (ok_or_err o.0) [
            | inl (user, made) ↦ (user, (made, ap (λ p. p.1) run))
            | inr (e, failed) ↦ absurd (ground (arith, ap (λ p. p.0) run))
          ]
    ]
  ]

  module _ {Good : S → Type 0} (accounts : IsUserStore Good store) where
    -- A user who is created has the role that was asked for, and the actor may create that role in
    -- the user's branch: only an owner creates an owner, an owner creates the others in any branch,
    -- and a receptionist creates them in the own branch alone. Nobody else creates a user, and only
    -- an owner is without a branch.
    pub create_user-MayCreate :
        (ts : Time) (id : String) (actor : Principal) (input : CreateUserInput) (s : S)
        (user : User)
        → (create_user store jwt bcrypt secret ts id actor input s).0 ≡ ok user
        → (user.role ≡ input.role) × MayCreate actor user.role user.branch_id
    create_user-MayCreate ts id actor input s user h =
        let (branch_id, hash, may, run) = asked ts id actor input s user h in
        let (branch, role, stored) =
          accounts.created s ts id (asked_user input branch_id hash) user
            (sym (ap (λ o. o.0) run) ∙ h) in
        (role, rw (role, branch) (allowed actor input branch_id may))

    -- The first owner is created once: after a BootstrapOwner that succeeds, another one is a
    -- conflict that changes nothing.
    pub bootstrap_owner_once :
        (ts : Time) (id : String) (now : Time) (input : BootstrapOwnerInput) (s : S)
        (result : LoginResult)
        → let o = bootstrap_owner store jwt bcrypt secret ts id now input s in
          o.0 ≡ ok result
          → (ts' : Time) (id' : String) (now' : Time) (another : BootstrapOwnerInput)
          → bootstrap_owner store jwt bcrypt secret ts' id' now' another o.1 ≡ (err conflict, o.1)
    bootstrap_owner_once ts id now input s result h ts' id' now' another =
        let (user, (made, left)) = bootstrap_ran ts id now input s result h in
        let (branch_id, hash, may, run) = asked ts id _ _ s user made in
        let (n, counted, positive) =
          accounts.counted s ts id _ user (sym (ap (λ o. o.0) run) ∙ made) refl in
        bootstrap_refused ts' id' now' another _ n
          (ap store.count_owners (left ∙ ap (λ o. o.1) run) ∙ counted) positive
