-- ===== src/Notification/Creation.antt =====
-- What CreateNotification leaves behind, and what it does to a notification whose key is stored.
use kingsway_academy.Base.{
  ◌≡◌, ◌≢◌, refl, String, true, false, none, ◌||◌, [], ◌∷◌, arith, inl, inr, subst, sym, ◌∙◌,
  eq_iff, Option-cases, ◌⊎◌, if◌then◌else◌,
}
use Prim.Native.String
use Prim.Native.String.append
use Prim.Native.String.compare
use Prim.Native.Char.{Char}
use kingsway_academy.Base.Text.{is_empty}
use kingsway_academy.Map.{Map, lookup, insert, erase, contains}
use kingsway_academy.Domain.{Time, Notification, User, Json, ok}
use kingsway_academy.Store.State.{when◌fail◌from◌otherwise◌, Memory}
use kingsway_academy.Store.Notifications.{create_notification, find_duplicate, store_notification}
use kingsway_academy.Notification.{asked_notification}

-- A notification with this dedupe key is stored.
abbrev pub IsListed : String → Map Notification → Type 0
IsListed k s = find_duplicate k s ≢ none

erase-absent : {V : Type 0} (k : String) (s : Map V) → lookup k s ≡ none → erase k s ≡ s
unfolding lookup erase
erase-absent k [] h = refl
erase-absent k ((j, v) ∷ s) h = ground (arith, erase-absent k s)

first_found :
    (id : String) (row : Notification) (s : Map Notification)
    → IsListed row.dedupe_key (insert id row s)
unfolding insert find_duplicate
first_found id row s h = ground (arith, eq_iff row.dedupe_key row.dedupe_key)

still_found :
    (k id : String) (row : Notification) (s : Map Notification)
    → lookup id s ≡ none
    → IsListed k s
    → IsListed k (insert id row s)
unfolding insert find_duplicate
still_found k id row s fresh listed h = listed (ground (arith, erase-absent id s fresh))

cons-nonempty : (c : Char) (s : String) → is_empty (String.◌∷◌ c s) ≡ false
cons-nonempty c s = ground (arith, compare.cons-nil c s)

joined-nonempty : (s t : String) → is_empty (String.◌++◌ s (String.◌++◌ ":" t)) ≡ false
joined-nonempty String.[] t =
    subst (λ x. is_empty x ≡ false) (sym (append.nil _ ∙ append.cons ":" "" t)) (cons-nonempty _ _)
joined-nonempty (String.◌∷◌ c s) t =
    subst (λ x. is_empty x ≡ false) (sym (append.cons c s _)) (cons-nonempty _ _)

-- The key of a notification is not empty.
pub key_set :
    (branch_id type base : String) (payload : Json) (u : User)
    → is_empty (asked_notification branch_id type base payload u).dedupe_key ≡ false
key_set branch_id type base payload u = joined-nonempty base u.id

-- What a notification of a user needs to be found again.
pub record IsNotified (n : Notification) (m : Memory) : Type 0 where
  pub filled : is_empty n.recipient_user_id || is_empty n.type ≡ false
  pub known : contains n.recipient_user_id m.users ≡ true
  pub listed : IsListed n.dedupe_key m.notifications

pub repeated :
    (ts : Time) (id : String) (n : Notification) (m : Memory)
    → is_empty n.dedupe_key ≡ false
    → IsNotified n m
    → (row : Notification) × (create_notification ts id n m ≡ (ok row, m))
unfolding create_notification when◌fail◌from◌otherwise◌
repeated ts id n m keyed h = elim (Option-cases (find_duplicate n.dedupe_key m.notifications)) [
  | inl missing ↦ absurd (h.listed missing)
  | inr (row, found) ↦ (row, ground (arith, h.filled, h.known))
]

-- The row that store_notification makes.
abbrev stored_row : Time → String → Notification → Notification
stored_row ts id n = record n {
  id = id;
  payload = if is_empty n.payload then "{}" else n.payload;
  created_at = ts;
}

-- The two stores that a creation leaves.
pub created-cases :
    (ts : Time) (id : String) (n row : Notification) (m m' : Memory)
    → is_empty n.dedupe_key ≡ false
    → create_notification ts id n m ≡ (ok row, m')
    → (is_empty n.recipient_user_id || is_empty n.type ≡ false)
      × (contains n.recipient_user_id m.users ≡ true)
      × (((m' ≡ m) × IsListed n.dedupe_key m.notifications)
          ⊎ ((new : Notification) × (new.dedupe_key ≡ n.dedupe_key)
              × (m' ≡ record m { notifications = insert id new m.notifications })))
unfolding create_notification when◌fail◌from◌otherwise◌ store_notification
created-cases ts id n row m m' keyed h =
    let filled : is_empty n.recipient_user_id || is_empty n.type ≡ false = ground arith in
    let known : contains n.recipient_user_id m.users ≡ true = ground arith in
    elim (Option-cases (find_duplicate n.dedupe_key m.notifications)) [
      | inl missing ↦ (filled, known, inr (stored_row ts id n, refl, ground arith))
      | inr (old, found) ↦ (filled, known, inl (ground arith, λ gone. ground arith))
    ]

-- What a creation leaves, under a fresh id.
pub created-IsNotified :
    (ts : Time) (id : String) (n row : Notification) (m m' : Memory)
    → is_empty n.dedupe_key ≡ false
    → lookup id m.notifications ≡ none
    → create_notification ts id n m ≡ (ok row, m')
    → IsNotified n m'
      × ((k : Notification) → IsNotified k m → IsNotified k m')
      × (m'.users ≡ m.users)
created-IsNotified ts id n row m m' keyed fresh h =
    let (filled, known, written) = created-cases ts id n row m m' keyed h in
    elim written [
      | inl (same, listed) ↦
          rw same
            (record { filled = filled; known = known; listed = listed }, λ k before. before, refl)
      | inr (new, key, is_store) ↦ rw is_store (
        record {
          filled = filled;
          known = known;
          listed =
              subst (λ k. IsListed k (insert id new m.notifications)) key
                (first_found id new m.notifications);
        },
        λ k before. record {
          filled = before.filled;
          known = before.known;
          listed = still_found k.dedupe_key id new m.notifications fresh before.listed;
        },
        refl,
      )
    ]
