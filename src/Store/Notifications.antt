-- ===== src/Store/Notifications.antt =====
-- The notifications of notification_memory.go.
use kingsway_academy.Base.{
  String, ◌==◌, ◌||◌, ◌&&◌, not, Bool, true, false, ◌*◌, ◌-◌, Option, none, some, if◌then◌else◌,
  List, [], ◌∷◌, any, length, take, ltb,
}
use kingsway_academy.Base.Text.{is_empty}
use kingsway_academy.Base.Int.{ℤ, pos, pos_part, ltb_ℤ}
use kingsway_academy.Base.Sort.{sort_slice}
use kingsway_academy.Map.{Map, lookup, contains, insert, values_where}
use kingsway_academy.Domain.{
  Payment, PaymentStatus, before, Time, FileObject, Notification, User, Role, ok, invalid_input,
  not_found, eq_role, after,
}
use kingsway_academy.Store.State.{when◌fail◌from◌otherwise◌, Memory, Outcome, with_row}
use kingsway_academy.Store.Files.{retention_less}
use kingsway_academy.Store.Schedules.{is_set}

-- The notification that the loop of CreateNotification finds, if any.
unfoldable pub find_duplicate : String → Map Notification → Option Notification
find_duplicate dedupe_key [] = none
find_duplicate dedupe_key ((k, n) ∷ rest) =
    let later = find_duplicate dedupe_key rest in
    if n.dedupe_key == dedupe_key then some n else later

-- CreateNotification, once there is no duplicate. The nil payload is the empty text.
unfoldable pub store_notification : Time → String → Notification → Memory → Outcome Notification
store_notification ts id notification m =
    let row = record notification {
      id = id;
      payload = if is_empty notification.payload then "{}" else notification.payload;
      created_at = ts;
    } in
    (ok row, record m { notifications = insert id row m.notifications })

-- CreateNotification
unfoldable pub create_notification : Time → String → Notification → Memory → Outcome Notification
unfolding store_notification
create_notification ts id notification m =
    when is_empty notification.recipient_user_id || is_empty notification.type
    fail invalid_input
    from m
    otherwise when not (contains notification.recipient_user_id m.users)
    fail not_found
    from m
    otherwise if is_empty notification.dedupe_key
    then store_notification ts id notification m
    else elim (find_duplicate notification.dedupe_key m.notifications) [
      | some existing ↦ (ok existing, m)
      | none ↦ store_notification ts id notification m
    ]

-- ListNotifications
unfoldable pub list_notifications : String → Bool → Memory → List Notification
list_notifications recipient_user_id unread_only m =
    sort_slice (λ a b. after a.created_at b.created_at)
      (values_where
        (λ n. n.recipient_user_id == recipient_user_id && not (unread_only && is_set n.read_at))
        m.notifications)

-- MarkNotificationRead
unfoldable pub mark_notification_read : String → String → Time → Memory → Outcome Notification
mark_notification_read id recipient_user_id read_at m =
    with_row (lookup id m.notifications) m λ notification.
      let row = record notification {
        read_at = if is_set notification.read_at then notification.read_at else some read_at;
      } in
      when not (notification.recipient_user_id == recipient_user_id)
      fail not_found
      from m
      otherwise (ok row, record m { notifications = insert id row m.notifications })

-- ListUsersByBranchAndRoles
unfoldable pub list_users_by_branch_and_roles : String → List Role → Memory → List User
list_users_by_branch_and_roles branch_id roles m =
    values_where
      (λ u.
        u.is_active
        && any (eq_role u.role) roles
        && (eq_role u.role Role.owner || u.branch_id == branch_id))
      m.users

-- 30 days in nanoseconds
abbrev thirty_days : Time
thirty_days = 30 * 24 * 60 * 60 * 1000000000

-- Does the payment still wait for its money?
abbrev is_due : PaymentStatus → Bool
is_due PaymentStatus.pending = true
is_due PaymentStatus.overdue = true
is_due _ = false

-- The loop of ListPendingPaymentReminders keeps these payments.
unfoldable pub is_reminded : Time → Time → Payment → Bool
is_reminded now horizon payment =
    not (is_set payment.paid_at)
    && is_due payment.status
    && not (before payment.due_date (now - thirty_days))
    && not (after payment.due_date horizon)

-- ListPendingPaymentReminders
unfoldable pub list_pending_payment_reminders : Time → Time → ℤ → Memory → List Payment
unfolding is_reminded
list_pending_payment_reminders now horizon limit m =
    let payments =
      sort_slice (λ p q. before p.due_date q.due_date)
        (values_where (is_reminded now horizon) m.payments) in
    if ltb_ℤ (pos 0) limit && ltb (pos_part limit) (length payments)
    then take (pos_part limit) payments
    else payments

-- The loop of ListFilesNearRetention keeps these files.
unfoldable pub is_near_retention : Time → Time → FileObject → Bool
is_near_retention now horizon file = elim file.retention_until [
  | none ↦ false
  | some t ↦ not (is_set file.deleted_at) && after t now && not (after t horizon)
]

-- ListFilesNearRetention
unfoldable pub list_files_near_retention : Time → Time → ℤ → Memory → List FileObject
unfolding is_near_retention
list_files_near_retention now horizon limit m =
    let files = sort_slice retention_less (values_where (is_near_retention now horizon) m.files) in
    if ltb_ℤ (pos 0) limit && ltb (pos_part limit) (length files)
    then take (pos_part limit) files
    else files
