-- ===== src/Notification/Tests.antt =====
-- The theorem about notifyBranchRoles at a store with an owner and a person at the front desk.
use kingsway_academy.Base.{ℕ, zero, suc, ◌+◌, ◌≡◌, refl, String, true, [], ◌∷◌, ◌∙◌, ap, sym}
use Prim.Native.String
use Prim.Native.String.count
use kingsway_academy.Base.Text.{trim_space, trim_left, reverse_onto, is_space}
use kingsway_academy.Map.{lookup, insert, erase, values_where}
use kingsway_academy.Domain.{Role, User, ok}
use kingsway_academy.Store.State.{when◌fail◌from◌otherwise◌, Memory, new_memory}
use kingsway_academy.Store.Users.{zero_user}
use kingsway_academy.Store.Notifications.{
  create_notification, list_users_by_branch_and_roles, find_duplicate, store_notification,
}
use kingsway_academy.Academic.Steps.{and_then}
use kingsway_academy.Notification.{notify_users, notify_branch_roles}
use kingsway_academy.Notification.Repeat.{notify_branch_roles_repeats}

abbrev owner_user : User
owner_user = record zero_user { id = "u1"; role = Role.owner; is_active = true }

abbrev desk_user : User
desk_user = record zero_user {
  id = "u2";
  branch_id = "b1";
  role = Role.receptionist;
  is_active = true;
}

abbrev with_people : Memory
with_people = record new_memory { users = ("u1", owner_user) ∷ ("u2", desk_user) ∷ [] }

-- Ids that are all different: the n-th has n letters.
unfoldable numbered : ℕ → String
numbered zero = ""
numbered (suc n) = String.◌∷◌ "i" (numbered n)

count-numbered : (n : ℕ) → String.count (numbered n) ≡ n
unfolding numbered
count-numbered zero = refl
count-numbered (suc n) = count.cons _ (numbered n) ∙ ap suc (count-numbered n)

numbered_apart : (j k : ℕ) → numbered j ≡ numbered k → j ≡ k
numbered_apart j k e = sym (count-numbered j) ∙ ap String.count e ∙ count-numbered k

abbrev informed : Memory
informed =
    (notify_branch_roles (λ n. n) numbered "b1" "payment.created" "event:1" "{}"
      (Role.owner ∷ Role.receptionist ∷ []) with_people).1

people_informed :
    notify_branch_roles
      (λ n. n)
      numbered
      "b1"
      "payment.created"
      "event:1"
      "{}"
      (Role.owner ∷ Role.receptionist ∷ [])
      with_people
    ≡ (ok 2, informed)
unfolding notify_branch_roles when◌fail◌from◌otherwise◌ trim_space trim_left reverse_onto is_space
    list_users_by_branch_and_roles values_where notify_users and_then create_notification
    find_duplicate store_notification lookup insert erase numbered
people_informed = refl

notify_branch_roles_repeats_example :
    notify_branch_roles
      (λ n. n + 50)
      (λ n. "again")
      "b1"
      "payment.created"
      "event:1"
      "{}"
      (Role.owner ∷ Role.receptionist ∷ [])
      informed
    ≡ (ok 2, informed)
unfolding lookup
notify_branch_roles_repeats_example =
    notify_branch_roles_repeats (λ n. n) (λ n. n + 50) numbered (λ n. "again") "b1"
      "payment.created" "event:1" "{}" (Role.owner ∷ Role.receptionist ∷ []) with_people informed 2
      (λ k. refl) numbered_apart people_informed
