-- ===== src/Auth/Accounts.antt =====
-- The interface UserStore of auth/service.go, what the service relies on, and Memory as one.
-- Readings of the clock and new ids are arguments, as in the store.
use kingsway_academy.Base.{
  ℕ, ◌<◌, String, ◌≡◌, refl, sym, ◌∙◌, ap, some, arith, inl, inr, Option-cases, eq_refl,
}
use kingsway_academy.Base.Int.{pos}
use kingsway_academy.Base.Word.{add64}
use kingsway_academy.Map.{lookup, insert, lookup-insert, values_where}
use kingsway_academy.Domain.{Time, Role, User, Result, ok, err, Error}
use kingsway_academy.Store.State.{Memory, with_row, when◌fail◌from◌otherwise◌, normalize_email}
use kingsway_academy.Store.Users
use kingsway_academy.Store.Users.{zero_user}
use kingsway_academy.Store.Indexes.{Indexes}

pub record UserStore (S : Type 0) : Type 0 where
  pub count_owners : S → Result ℕ
  pub create_user : Time → String → User → S → Result User × S
  pub get_user : String → S → Result User
  pub get_user_by_email : String → S → Result User
  pub record_user_login : String → Time → String → S → Result User × S
  pub revoke_user_tokens : Time → String → S → Result User × S

-- What the service relies on, in the states that satisfy `Good`.
pub record IsUserStore {S : Type 0} (Good : S → Type 0) (store : UserStore S) : Type 0 where
  -- A user who is found by an address is found by the id too.
  pub found_by_email :
      (s : S) (email : String) (user : User)
      → Good s
      → store.get_user_by_email email s ≡ ok user
      → store.get_user user.id s ≡ ok user
  -- A user stands under the own id.
  pub own :
      (s : S) (id : String) (user : User) → Good s → store.get_user id s ≡ ok user → user.id ≡ id
  -- A login is recorded on the stored user, and nothing else about the user changes.
  pub recorded :
      (s : S) (login_at : String) (ts : Time) (id : String) (user : User)
      → store.get_user id s ≡ ok user
      → let user' = record user { last_login_at = login_at; updated_at = ts } in
        let o = store.record_user_login login_at ts id s in
        (o.0 ≡ ok user') × (store.get_user id o.1 ≡ ok user')
  -- A revocation counts the token version of the stored user up by one.
  pub revoked :
      (s : S) (ts : Time) (id : String) (user : User)
      → store.get_user id s ≡ ok user
      → let user' = record user {
        token_version = add64 user.token_version (pos 1);
        updated_at = ts;
      } in
        let o = store.revoke_user_tokens ts id s in
        (o.0 ≡ ok user') × (store.get_user id o.1 ≡ ok user')
  -- A user is created with the branch and the role that are asked for, and is stored.
  pub created :
      (s : S) (ts : Time) (id : String) (asked user : User)
      → let o = store.create_user ts id asked s in
        o.0 ≡ ok user
        → (user.branch_id ≡ asked.branch_id)
          × (user.role ≡ asked.role)
          × (store.get_user user.id o.1 ≡ ok user)
  -- Where an owner was created, owners are counted.
  pub counted :
      (s : S) (ts : Time) (id : String) (asked user : User)
      → let o = store.create_user ts id asked s in
        o.0 ≡ ok user
        → asked.role ≡ Role.owner
        → (n : ℕ) × (store.count_owners o.1 ≡ ok n) × (0 < n)
  -- A creation that fails changes nothing.
  pub not_created :
      (s : S) (ts : Time) (id : String) (asked : User) (e : Error)
      → let o = store.create_user ts id asked s in o.0 ≡ err e → o.1 ≡ s

-- Memory as a UserStore
abbrev pub memory_users : UserStore Memory
memory_users = record {
  count_owners = λ m. ok (Users.count_owners m);
  create_user = Users.create_user;
  get_user = λ id m. (Users.get_user id m).0;
  get_user_by_email = λ email m. (Users.get_user_by_email email m).0;
  record_user_login = Users.record_user_login;
  revoke_user_tokens = Users.revoke_user_tokens;
}

pub get_user_ok :
    (m : Memory) (id : String) (user : User)
    → lookup id m.users ≡ some user
    → (Users.get_user id m).0 ≡ ok user
unfolding Users.get_user with_row
get_user_ok m id user found = ground arith

get_user_found :
    (m : Memory) (id : String) (user : User)
    → (Users.get_user id m).0 ≡ ok user
    → lookup id m.users ≡ some user
unfolding Users.get_user with_row
get_user_found m id user h = ground arith

found_by_email :
    (m : Memory) (email : String) (user : User)
    → Indexes m
    → (Users.get_user_by_email email m).0 ≡ ok user
    → (Users.get_user user.id m).0 ≡ ok user
unfolding Users.get_user_by_email with_row
found_by_email m email user x h =
    elim (Option-cases (lookup (normalize_email email) m.users_by_email)) [
      | inl gone ↦ absurd (ground arith)
      | inr (id, listed) ↦
          let (stored, found, e) = x.emails.stored _ id listed in
          let same : stored ≡ user = ground arith in
          get_user_ok m user.id user (
            ap (λ i. lookup i m.users)
              (sym (ap (λ (u : User). u.id) same) ∙ x.emails.own id stored found)
            ∙ found
            ∙ ap some same)
    ]

recorded :
    (m : Memory) (login_at : String) (ts : Time) (id : String) (user : User)
    → (Users.get_user id m).0 ≡ ok user
    → let user' = record user { last_login_at = login_at; updated_at = ts } in
      let o = Users.record_user_login login_at ts id m in
      (o.0 ≡ ok user') × ((Users.get_user id o.1).0 ≡ ok user')
unfolding Users.record_user_login with_row Users.get_user
recorded m login_at ts id user h = rw (get_user_found m id user h) (
  refl,
  get_user_ok _ id _ (
      ground (
        arith,
        lookup-insert id id (record user { last_login_at = login_at; updated_at = ts }) m.users,
        eq_refl id,
      )),
)

revoked :
    (m : Memory) (ts : Time) (id : String) (user : User)
    → (Users.get_user id m).0 ≡ ok user
    → let user' = record user {
      token_version = add64 user.token_version (pos 1);
      updated_at = ts;
    } in
      let o = Users.revoke_user_tokens ts id m in
      (o.0 ≡ ok user') × ((Users.get_user id o.1).0 ≡ ok user')
unfolding Users.revoke_user_tokens with_row
revoked m ts id user h = rw (get_user_found m id user h) (
  refl,
  get_user_ok _ id _ (
      ground (
        arith,
        eq_refl id,
        lookup-insert id id
            (record user { token_version = add64 user.token_version (pos 1); updated_at = ts })
            m.users,
      )),
)

-- A creation that succeeds has stored the user whom it returns.
created_store :
    (m : Memory) (ts : Time) (id : String) (asked user : User)
    → let o = Users.create_user ts id asked m in
      o.0 ≡ ok user
      → (user.branch_id ≡ asked.branch_id)
        × (user.role ≡ asked.role)
        × (o.1.users ≡ insert user.id user m.users)
unfolding Users.create_user when◌fail◌from◌otherwise◌
created_store m ts id asked user h = (ground arith, ground arith, ground arith)

not_created :
    (m : Memory) (ts : Time) (id : String) (asked : User) (e : Error)
    → let o = Users.create_user ts id asked m in o.0 ≡ err e → o.1 ≡ m
unfolding Users.create_user when◌fail◌from◌otherwise◌
not_created m ts id asked e h = ground arith

counted :
    (m : Memory) (ts : Time) (id : String) (asked user : User)
    → let o = Users.create_user ts id asked m in
      o.0 ≡ ok user → asked.role ≡ Role.owner → 0 < Users.count_owners o.1
unfolding Users.count_owners values_where insert
counted m ts id asked user h is_owner =
    let (branch, role, users) = created_store m ts id asked user h in
    rw (users, role, is_owner) (ground arith)

-- The store in memory keeps what the service relies on, as long as its indexes are right.
pub memory_users-IsUserStore : IsUserStore Indexes memory_users
memory_users-IsUserStore = record {
  found_by_email = found_by_email;
  own = λ m id user x h. x.emails.own id user (get_user_found m id user h);
  recorded = recorded;
  revoked = revoked;
  created = λ m ts id asked user h.
      let (branch, role, users) = created_store m ts id asked user h in
      (
        branch,
        role,
        get_user_ok _ user.id user (
            rw users (ground (arith, lookup-insert user.id user.id user m.users, eq_refl user.id))),
      );
  counted = λ m ts id asked user h is_owner. (_, refl, counted m ts id asked user h is_owner);
  not_created = not_created;
}
