-- ===== src/Academic/Isolation/Guards.antt =====
-- What the guards of the academic services leave of an actor who is no owner.
use kingsway_academy.Base.{String, ◌≡◌, refl, false, arith, eq_iff, none, [], ◌∷◌, inl, inr}
use kingsway_academy.Domain.{
  Role, Principal, Time, User, Result, ok, err, forbidden, is_owner, can_use_branch, ◌>>◌, ◌>>=◌,
  ok_or_err,
}
use kingsway_academy.Map.{lookup}
use kingsway_academy.Store.State.{Memory, Outcome, if_passed}
use kingsway_academy.Store.Keeps.{Keeps, keeps_refuse}
use kingsway_academy.Auth.Libraries.{Jwt, Bcrypt}
use kingsway_academy.Auth.Accounts.{memory_users}
use kingsway_academy.Auth.Service
use kingsway_academy.Auth.Service.{
  require_any_role, require_branch, allowed_branch, asked_user, hash_password, CreateUserInput,
}
use kingsway_academy.Academic.Steps.{and_then, own_branch}
use kingsway_academy.Academic.Isolation.{IsConfined, confined_refl, confined_trans}
use kingsway_academy.Academic.Isolation.Writes.{create_user-IsConfined}

module _ {V A : Type 0} {I : Memory → Type 0} where
  pub keeps_and_then :
      (o : Outcome V) (rest : V → Memory → Outcome A)
      → Keeps I o
      → ((v : V) (m : Memory) → o ≡ (ok v, m) → I m → Keeps I (rest v m))
      → Keeps I (and_then o rest)
  unfolding and_then
  keeps_and_then (err e, m) rest h k = record { kept = h.kept }
  keeps_and_then (ok v, m) rest h k = k v m refl h.kept

module _ (b : String) {A : Type 0} {m m' : Memory} where
  pub keeps_after :
      {o : Outcome A} → IsConfined b m m' → Keeps (IsConfined b m') o → Keeps (IsConfined b m) o
  keeps_after c k = record { kept = confined_trans b c k.kept }

module _ (actor : Principal) (no_owner : is_owner actor ≡ false) where
  pub own_branch-no_owner : (given : String) → own_branch actor given ≡ actor.branch_id
  own_branch-no_owner given = rw no_owner refl

  pub branch_passed : (c : String) → require_branch actor c ≡ ok tt → c ≡ actor.branch_id
  unfolding require_branch can_use_branch
  branch_passed c h = ground (arith, eq_iff actor.branch_id c)

  no_owner_role : require_any_role actor (Role.owner ∷ []) ≡ err forbidden
  unfolding is_owner require_any_role
  no_owner_role = rw no_owner refl

  -- What only an owner may do is refused.
  pub owners_only :
      {A : Type 0} (m : Memory) (rest : Outcome A)
      → if_passed (require_any_role actor (Role.owner ∷ [])) m rest ≡ (err forbidden, m)
  unfolding if_passed
  owners_only m rest = rw no_owner_role refl

  pub owners_only_also :
      {A : Type 0} (more : Result (Unit {0})) (m : Memory) (rest : Outcome A)
      → if_passed (require_any_role actor (Role.owner ∷ []) >> more) m rest ≡ (err forbidden, m)
  unfolding if_passed
  owners_only_also more m rest = rw no_owner_role refl

  allowed-no_owner :
      (input : CreateUserInput) (c : String)
      → allowed_branch actor input ≡ ok c
      → c ≡ actor.branch_id
  unfolding allowed_branch is_owner
  allowed-no_owner input c h = ground arith

  asked-branch :
      (bcrypt : Bcrypt) (input : CreateUserInput) (user : User)
      → (allowed_branch actor input >>= λ branch_id.
          hash_password bcrypt input.password >>= λ hash. ok (asked_user input branch_id hash))
        ≡ ok user
      → user.branch_id ≡ actor.branch_id
  asked-branch bcrypt input user h = elim (ok_or_err (allowed_branch actor input)) [
    | inl (c, allowed) ↦
        let here : c ≡ actor.branch_id = allowed-no_owner input c allowed in ground arith
    | inr (e, refused) ↦ absurd (ground arith)
  ]

  pub create_account-IsConfined :
      (jwt : Jwt) (bcrypt : Bcrypt) (secret : String) (ts : Time) (id : String)
      (input : CreateUserInput) (m : Memory)
      → lookup id m.users ≡ none
      → Keeps
          (IsConfined actor.branch_id m)
          (Service.create_user memory_users jwt bcrypt secret ts id actor input m)
  unfolding Service.create_user
  create_account-IsConfined jwt bcrypt secret ts id input m fresh =
      elim (ok_or_err (
        allowed_branch actor input >>= λ branch_id.
        hash_password bcrypt input.password >>= λ hash. ok (asked_user input branch_id hash))) [
          | inl (user, asked) ↦
              rw (asked, Service.create_user)
                (create_user-IsConfined actor.branch_id m ts id user
                  (asked-branch bcrypt input user asked) fresh)
          | inr (e, refused) ↦
              rw (refused, Service.create_user) (keeps_refuse (confined_refl actor.branch_id m))
        ]
