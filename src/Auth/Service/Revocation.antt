-- ===== src/Auth/Service/Revocation.antt =====
-- A changed account is signed out: UpdateStaffMember of memory.go, seen by AuthenticateToken.
use kingsway_academy.Base.{
  String, ◌≡◌, ◌⊎◌, sym, ap, ◌∙◌, Bool, true, not, ◌==◌, ◌||◌, some, arith, eq_iff, if◌then◌else◌,
}
use kingsway_academy.Base.Int.{pos}
use kingsway_academy.Base.Word.{add64, add64_moves}
use kingsway_academy.Base.Text.{trim_space}
use kingsway_academy.Map.{lookup, insert, lookup-insert}
use kingsway_academy.Domain.{
  Time, User, StaffMember, Principal, ok, err, unauthorized, invalid_token,
}
use kingsway_academy.Store.State.{Memory, with_row, when◌fail◌from◌otherwise◌, normalize_email}
use kingsway_academy.Store.Staff.{update_staff_member, updated_account}
use kingsway_academy.Store.Indexes.{Indexes}
use kingsway_academy.Auth.Libraries.{Jwt, JwtLaws, Bcrypt}
use kingsway_academy.Auth.Accounts.{memory_users, memory_users-IsUserStore, get_user_ok}
use kingsway_academy.Auth.Service.{authenticate_token}
use kingsway_academy.Auth.Service.Sessions.{version_revokes}

-- The branch, the activity or the password of an account is changed.
abbrev pub changes_account : User → StaffMember → String → Bool
changes_account user staff hash =
    not (user.branch_id == staff.branch_id)
    || (if user.is_active then not staff.is_active else staff.is_active)
    || not (trim_space hash == "")

bumped :
    (ts : Time) (user : User) (email : String) (staff : StaffMember) (hash : String)
    → changes_account user staff hash ≡ true
    → (updated_account ts user email staff hash).token_version ≡ add64 user.token_version (pos 1)
unfolding updated_account
bumped ts user email staff hash h = ground arith

-- The users after an update that succeeds.
updated :
    (ts ts' : Time) (staff current row : StaffMember) (user : User) (hash : String) (m : Memory)
    → (update_staff_member ts ts' staff hash m).0 ≡ ok row
    → lookup staff.id m.staff_members ≡ some current
    → lookup current.user_id m.users ≡ some user
    → (update_staff_member ts ts' staff hash m).1.users
      ≡ insert user.id (updated_account ts user (normalize_email staff.email) staff hash) m.users
unfolding update_staff_member with_row when◌fail◌from◌otherwise◌
updated ts ts' staff current row user hash m h found known = ground arith

module _ (jwt : Jwt) (jwt_laws : JwtLaws jwt) (bcrypt : Bcrypt) (secret : String) where
  -- In a store whose indexes are right, after an update of a staff member that succeeds and
  -- changes the branch, the activity or the password of the account, every token that was
  -- accepted for that account is refused.
  pub update_staff_member_revokes :
      (now ts ts' later : Time) (raw : String) (m : Memory) (p : Principal)
      (staff current row : StaffMember) (user : User) (hash : String)
      → Indexes m
      → authenticate_token memory_users jwt bcrypt secret now raw m ≡ ok p
      → lookup staff.id m.staff_members ≡ some current
      → current.user_id ≡ p.user_id
      → lookup p.user_id m.users ≡ some user
      → (update_staff_member ts ts' staff hash m).0 ≡ ok row
      → changes_account user staff hash ≡ true
      → let m' = (update_staff_member ts ts' staff hash m).1 in
        (authenticate_token memory_users jwt bcrypt secret later raw m' ≡ err unauthorized)
        ⊎ (authenticate_token memory_users jwt bcrypt secret later raw m' ≡ err invalid_token)
  update_staff_member_revokes now ts ts' later raw m p staff current row user hash x h found same
        known done changed =
      let account = updated_account ts user (normalize_email staff.email) staff hash in
      let m' = (update_staff_member ts ts' staff hash m).1 in
      let users =
        updated ts ts' staff current row user hash m done found
          (ap (λ i. lookup i m.users) same ∙ known) in
      let stored : lookup p.user_id m'.users ≡ some account =
        ap (λ us. lookup p.user_id us) users
        ∙ ground (
          arith,
          lookup-insert user.id p.user_id account m.users,
          eq_iff user.id p.user_id,
          x.emails.own p.user_id user known,
        ) in
      version_revokes memory_users jwt bcrypt secret jwt_laws memory_users-IsUserStore now later raw
        m m' p user account x h (get_user_ok m p.user_id user known)
        (get_user_ok m' p.user_id account stored)
        (λ e.
          add64_moves user.token_version
            (sym (bumped ts user (normalize_email staff.email) staff hash changed) ∙ e))
