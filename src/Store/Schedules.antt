-- ===== src/Store/Schedules.antt =====
-- The schedule of memory.go.
use kingsway_academy.Base.{
  String, ◌==◌, ◌||◌, not, Bool, true, false, Option, none, some, if◌then◌else◌, List,
}
use kingsway_academy.Base.Text.{is_empty}
use kingsway_academy.Base.Sort.{sort_slice}
use kingsway_academy.Map.{lookup, insert, any_value, values_where}
use kingsway_academy.Domain.{
  Time, ScheduleItem, Room, Teacher, ok, invalid_input, conflict, range_of, range_is_valid,
  overlaps, before,
}
use kingsway_academy.Store.State.{when◌fail◌from◌otherwise◌, Memory, Outcome, with_row}
use kingsway_academy.Store.Students.{is_active_teacher}

-- `p != nil`, for a pointer to a time
abbrev pub is_set : Option Time → Bool
is_set none = false
is_set (some t) = true

-- The test of the loop in CreateScheduleItem: does the stored item stand in the way of the new one?
abbrev pub clashes : ScheduleItem → ScheduleItem → Bool
clashes item existing =
    if not (existing.branch_id == item.branch_id) || is_set existing.cancelled_at
    then false
    else if not (overlaps (range_of item) (range_of existing))
    then false
    else existing.room_id == item.room_id || existing.teacher_id == item.teacher_id

-- CreateScheduleItem, once the room and the teacher are found.
unfoldable pub place_item :
    Time → String → ScheduleItem → Room → Teacher → Memory → Outcome ScheduleItem
place_item ts id item room teacher m =
    let row = record item { id = id; created_at = ts; updated_at = ts } in
    when not (room.branch_id == item.branch_id) || not (teacher.branch_id == item.branch_id)
    fail invalid_input
    from m
    otherwise when not (is_active_teacher teacher.status)
    fail invalid_input
    from m
    otherwise when any_value (clashes item) m.schedules
    fail conflict
    from m
    otherwise (ok row, record m { schedules = insert id row m.schedules })

-- CreateScheduleItem
unfoldable pub create_schedule_item : Time → String → ScheduleItem → Memory → Outcome ScheduleItem
unfolding place_item
create_schedule_item ts id item m =
    when is_empty item.title || not (range_is_valid (range_of item))
    fail invalid_input
    from m
    otherwise with_row (lookup item.room_id m.rooms) m λ room.
      with_row (lookup item.teacher_id m.teachers) m λ teacher. place_item ts id item room teacher m

-- ListSchedule
unfoldable pub list_schedule : String → Memory → List ScheduleItem
list_schedule branch_id m =
    sort_slice (λ s t. before s.starts_at t.starts_at)
      (values_where (λ s. is_empty branch_id || s.branch_id == branch_id) m.schedules)
