-- ===== src/Notification.antt =====
-- notification/service.go, on the store in memory.
mod Creation
mod Repeat
mod Tests
use kingsway_academy.Base.{
  ℕ, suc, ◌+◌, String, Bool, true, false, Option, none, some, if◌then◌else◌, ◌||◌, List, [], ◌∷◌,
}
use Prim.Native.String
use kingsway_academy.Base.Text.{is_empty, trim_space}
use kingsway_academy.Base.Int.{ℤ, pos, leb_ℤ, ltb_ℤ}
use kingsway_academy.Domain.{
  Time, Role, Principal, Notification, User, FileObject, PageRequest, Json, Result, ok, err,
  unauthorized, invalid_input,
}
use kingsway_academy.Store.State.{when◌fail◌from◌otherwise◌, Memory, Outcome}
use kingsway_academy.Store.Notifications
use kingsway_academy.Store.Notifications.{
  create_notification, list_users_by_branch_and_roles, list_files_near_retention,
}
use kingsway_academy.Store.Pages
use kingsway_academy.Academic.Steps.{and_then}

-- ListNotifications
unfoldable pub list_notifications : Principal → Bool → Memory → Result (List Notification)
list_notifications actor unread_only m =
    if is_empty actor.user_id
    then err unauthorized
    else ok (Notifications.list_notifications actor.user_id unread_only m)

-- ListNotificationsPage
unfoldable pub list_notifications_page :
    Principal → Bool → PageRequest → Memory → Result (List Notification × ℕ)
list_notifications_page actor unread_only page m =
    if is_empty actor.user_id
    then err unauthorized
    else ok (Pages.list_notifications_page actor.user_id unread_only page m)

-- MarkNotificationRead
unfoldable pub mark_notification_read : Time → Principal → String → Memory → Outcome Notification
mark_notification_read now actor id m =
    when is_empty actor.user_id
    fail unauthorized
    from m
    otherwise Notifications.mark_notification_read (trim_space id) actor.user_id now m

-- The notification of a user in the loop of notifyBranchRoles.
abbrev pub asked_notification : String → String → String → Json → User → Notification
asked_notification branch_id type dedupe_base payload user = record {
  id = "";
  branch_id = branch_id;
  recipient_user_id = user.id;
  type = type;
  payload = payload;
  dedupe_key = String.◌++◌ dedupe_base (String.◌++◌ ":" user.id);
  read_at = none;
  created_at = 0;
}

-- The loop of notifyBranchRoles; the n-th notification takes the n-th time and the n-th id.
unfoldable pub notify_users :
    (ℕ → Time) → (ℕ → String) → (User → Notification) → ℕ → List User → Memory → Outcome ℕ
notify_users clock new_id asked created [] m = (ok created, m)
notify_users clock new_id asked created (u ∷ us) m = elim u.is_active [
  | false ↦ notify_users clock new_id asked created us m
  | true ↦
      and_then (create_notification (clock created) (new_id created) (asked u) m)
        (λ row m'. notify_users clock new_id asked (suc created) us m')
]

-- notifyBranchRoles; the callers that get an error drop the count
unfoldable pub notify_branch_roles :
    (ℕ → Time) → (ℕ → String) → String → String → String → Json → List Role → Memory → Outcome ℕ
unfolding notify_users
notify_branch_roles clock new_id branch_id type dedupe_base payload roles m =
    when is_empty (trim_space branch_id)
    fail invalid_input
    from m
    otherwise notify_users clock new_id (asked_notification branch_id type dedupe_base payload) 0
        (list_users_by_branch_and_roles branch_id roles m) m

-- The limit of a worker that is unset or too large.
abbrev pub checked_limit : ℤ → ℤ → ℤ
checked_limit limit default_limit =
    if leb_ℤ limit (pos 0) || ltb_ℤ (pos 500) limit then default_limit else limit

-- The loop of CreateFileRetentionNotices, with the payload that is made of a file; the clock and the
-- ids of a file are those of its place in the list.
unfoldable pub notice_files :
    (ℕ → ℕ → Time)
    → (ℕ → ℕ → String)
    → (FileObject → Json)
    → ℕ
    → ℕ
    → List FileObject
    → Memory
    → Result (Unit {0}) × ℕ × Memory
notice_files clock new_id payload_of i created [] m = (ok tt, created, m)
notice_files clock new_id payload_of i created (f ∷ fs) m =
    let o =
      notify_branch_roles (clock i) (new_id i) f.branch_id "file.retention.due"
        (String.◌++◌ "file-retention-notice:" f.id) (payload_of f)
        (Role.owner ∷ Role.receptionist ∷ []) m in
    elim o.0 [
      | err e ↦ (err e, created, o.1)
      | ok count ↦ notice_files clock new_id payload_of (suc i) (created + count) fs o.1
    ]

-- CreateFileRetentionNotices: the error if any, the count, which is given also where it fails, and the store
unfoldable pub create_file_retention_notices :
    Time
    → (ℕ → ℕ → Time)
    → (ℕ → ℕ → String)
    → (FileObject → Json)
    → ℕ
    → ℤ
    → Memory
    → Result (Unit {0}) × ℕ × Memory
unfolding notice_files
create_file_retention_notices now clock new_id payload_of horizon limit m =
    notice_files clock new_id payload_of 0 0
      (list_files_near_retention now (now + horizon) (checked_limit limit (pos 100)) m) m
