-- ===== src/Notification/Repeat.antt =====
-- A repetition of notifyBranchRoles: the dedupe keys keep it from writing.
use kingsway_academy.Base.{
  ℕ, suc, ◌≤◌, ◌≡◌, refl, String, true, false, none, List, [], ◌∷◌, arith, All, inl, inr, subst,
  sym, ◌∙◌, eq_iff, Bool-cases, ◌==◌,
}
use kingsway_academy.Base.Text.{is_empty, trim_space}
use kingsway_academy.Map.{lookup, lookup-insert}
use kingsway_academy.Domain.{Time, Role, Notification, User, Json, ok, err}
use kingsway_academy.Store.State.{when◌fail◌from◌otherwise◌, Memory, Outcome}
use kingsway_academy.Store.Notifications.{create_notification, list_users_by_branch_and_roles}
use kingsway_academy.Academic.Steps.{and_then}
use kingsway_academy.Notification.{asked_notification, notify_users, notify_branch_roles}
use kingsway_academy.Notification.Creation.{
  IsNotified, key_set, repeated, created-cases, created-IsNotified,
}

-- The ids that are left for the loop at its n-th notification.
record AreFresh (new_id : ℕ → String) (n : ℕ) (m : Memory) : Type 0 where
  free : (k : ℕ) → n ≤ k → lookup (new_id k) m.notifications ≡ none
  apart : (j k : ℕ) → new_id j ≡ new_id k → j ≡ k

and_then_ok :
    {V A : Type 0} (o : Outcome V) (rest : V → Memory → Outcome A) (a : A) (m' : Memory)
    → and_then o rest ≡ (ok a, m')
    → (v : V) × (n : Memory) × (o ≡ (ok v, n)) × (rest v n ≡ (ok a, m'))
unfolding and_then
and_then_ok (ok v, n) rest a m' h = (v, n, refl, h)
and_then_ok (err e, n) rest a m' h = absurd (ground arith)

and_then_done :
    {V A : Type 0} (o : Outcome V) (rest : V → Memory → Outcome A) (v : V) (m : Memory)
    → o ≡ (ok v, m)
    → and_then o rest ≡ rest v m
unfolding and_then
and_then_done o rest v m h = rw h refl

module _ (clock : ℕ → Time) (new_id : ℕ → String) (asked : User → Notification)
    (keyed : (u : User) → is_empty (asked u).dedupe_key ≡ false) where
  -- The active users who were notified.
  abbrev AllNotified : List User → Memory → Type 0
  AllNotified us m = All (λ (u : User). u.is_active ≡ true → IsNotified (asked u) m) us

  fresh_still :
      (n : ℕ) (asked_row row : Notification) (m m' : Memory)
      → is_empty asked_row.dedupe_key ≡ false
      → create_notification (clock n) (new_id n) asked_row m ≡ (ok row, m')
      → AreFresh new_id n m
      → AreFresh new_id (suc n) m'
  fresh_still n asked_row row m m' full h fresh =
      elim (created-cases (clock n) (new_id n) asked_row row m m' full h).2 [
        | inl (same, listed) ↦
            rw same record { free = λ k le. fresh.free k (omega arith); apart = fresh.apart }
        | inr (new, key, is_store) ↦ rw is_store record {
          free = λ k le. elim (Bool-cases (new_id n == new_id k)) [
            | inl hit ↦ absurd (
                let e : n ≡ k = fresh.apart n k ((eq_iff (new_id n) (new_id k)).0 hit) in
                omega arith)
            | inr miss ↦ ground (
              arith,
              lookup-insert (new_id n) (new_id k) new m.notifications,
              fresh.free k (omega arith),
            )
          ];
          apart = fresh.apart;
        }
      ]

  passed_over :
      (clock : ℕ → Time) (new_id : ℕ → String) (n : ℕ) (u : User) (us : List User) (m : Memory)
      → u.is_active ≡ false
      → notify_users clock new_id asked n (u ∷ us) m ≡ notify_users clock new_id asked n us m
  unfolding notify_users
  passed_over clock new_id n u us m inactive = rw inactive refl

  taken_up :
      (clock : ℕ → Time) (new_id : ℕ → String) (n : ℕ) (u : User) (us : List User) (m : Memory)
      → u.is_active ≡ true
      → notify_users clock new_id asked n (u ∷ us) m
        ≡ and_then
            (create_notification (clock n) (new_id n) (asked u) m)
            (λ row m'. notify_users clock new_id asked (suc n) us m')
  unfolding notify_users
  taken_up clock new_id n u us m active = ground arith

  loop_notifies :
      (n : ℕ) (us : List User) (m m' : Memory) (count : ℕ)
      → AreFresh new_id n m
      → notify_users clock new_id asked n us m ≡ (ok count, m')
      → AllNotified us m'
        × ((k : Notification) → IsNotified k m → IsNotified k m')
        × (m'.users ≡ m.users)
  unfolding notify_users
  loop_notifies n [] m m' count fresh h =
      (tt, λ k before. subst (IsNotified k) (ground arith) before, ground arith)
  loop_notifies n (u ∷ us) m m' count fresh h = elim (Bool-cases u.is_active) [
    | inr inactive ↦
        let (all, kept, users) =
          loop_notifies n us m m' count fresh
            (sym (passed_over clock new_id n u us m inactive) ∙ h) in
        ((λ active. absurd (ground arith), all), kept, users)
    | inl active ↦
        let (row, o, made, rest) =
          and_then_ok _ _ count m' (sym (taken_up clock new_id n u us m active) ∙ h) in
        let (new, kept, same) =
          created-IsNotified (clock n) (new_id n) (asked u) row m o (keyed u)
            (fresh.free n (omega arith)) made in
        let (all, later, users) =
          loop_notifies (suc n) us o m' count (fresh_still n (asked u) row m o (keyed u) made fresh)
            rest in
        ((λ now. later (asked u) new, all), λ k before. later k (kept k before), users ∙ same)
  ]

  loop_repeats :
      (clock' : ℕ → Time) (new_id' : ℕ → String) (n : ℕ) (us : List User) (m m' m'' : Memory)
      (count : ℕ)
      → AllNotified us m'
      → notify_users clock new_id asked n us m ≡ (ok count, m'')
      → notify_users clock' new_id' asked n us m' ≡ (ok count, m')
  unfolding notify_users
  loop_repeats clock' new_id' n [] m m' m'' count all h = ground arith
  loop_repeats clock' new_id' n (u ∷ us) m m' m'' count all h = elim (Bool-cases u.is_active) [
    | inr inactive ↦
        passed_over clock' new_id' n u us m' inactive
        ∙ loop_repeats clock' new_id' n us m m' m'' count all.1
            (sym (passed_over clock new_id n u us m inactive) ∙ h)
    | inl active ↦
        let (row, o, made, rest) =
          and_then_ok _ _ count m'' (sym (taken_up clock new_id n u us m active) ∙ h) in
        let (old, found) = repeated (clock' n) (new_id' n) (asked u) m' (keyed u) (all.0 active) in
        taken_up clock' new_id' n u us m' active
        ∙ and_then_done _ (λ r k. notify_users clock' new_id' asked (suc n) us k) old m' found
        ∙ loop_repeats clock' new_id' (suc n) us o m' m'' count all.1 rest
  ]

users_listed :
    (branch_id : String) (roles : List Role) (m m' : Memory)
    → m'.users ≡ m.users
    → list_users_by_branch_and_roles branch_id roles m'
      ≡ list_users_by_branch_and_roles branch_id roles m
unfolding list_users_by_branch_and_roles
users_listed branch_id roles m m' same = rw same refl

-- Where notifyBranchRoles has notified the people of a branch and its new ids were fresh, a repetition,
-- at any times and with any ids, gives the same count and changes nothing: nobody is notified twice.
pub notify_branch_roles_repeats :
    (clock clock' : ℕ → Time) (new_id new_id' : ℕ → String) (branch_id type base : String)
    (payload : Json) (roles : List Role) (m m' : Memory) (count : ℕ)
    → ((k : ℕ) → lookup (new_id k) m.notifications ≡ none)
    → ((j k : ℕ) → new_id j ≡ new_id k → j ≡ k)
    → notify_branch_roles clock new_id branch_id type base payload roles m ≡ (ok count, m')
    → notify_branch_roles clock' new_id' branch_id type base payload roles m' ≡ (ok count, m')
unfolding notify_branch_roles when◌fail◌from◌otherwise◌
notify_branch_roles_repeats clock clock' new_id new_id' branch_id type base payload roles m m' count
      free apart h =
    let asked = asked_notification branch_id type base payload in
    let keyed : (u : User) → is_empty (asked u).dedupe_key ≡ false =
      key_set branch_id type base payload in
    let people = list_users_by_branch_and_roles branch_id roles m in
    let filled : is_empty (trim_space branch_id) ≡ false = ground arith in
    let first : notify_users clock new_id asked 0 (list_users_by_branch_and_roles branch_id roles m)
          m
        ≡ (ok count, m') =
      ground arith in
    let (all, kept, users) =
      loop_notifies clock new_id asked keyed 0 people m m' count
        (record { free = λ k le. free k; apart = apart }) first in
    let same : list_users_by_branch_and_roles branch_id roles m'
        ≡ list_users_by_branch_and_roles branch_id roles m =
      users_listed branch_id roles m m' users in
    let again : notify_users clock' new_id' asked 0 people m' ≡ (ok count, m') =
      loop_repeats clock new_id asked keyed clock' new_id' 0 people m m' m' count all first in
    rw (filled, same) again
