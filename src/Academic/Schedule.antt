-- ===== src/Academic/Schedule.antt =====
-- academic/schedule_service.go.
pub mod Planning
pub mod Planned
use kingsway_academy.Base.{
  String, ◌==◌, ◌&&◌, ◌||◌, Bool, true, false, if◌then◌else◌, List, [], ◌∷◌, ℕ, none,
}
use kingsway_academy.Base.Text.{trim_space, is_empty}
use kingsway_academy.Domain.{
  Time, Role, Principal, ScheduleItem, ScheduleItemType, PageRequest, Result, ok, err, forbidden,
  is_owner, item_type_text, page_slice, ◌>>=◌, ◌>>◌,
}
use kingsway_academy.Store.State.{when◌fail◌from◌otherwise◌, Memory, Outcome, if_passed, with_value}
use kingsway_academy.Store.Teachers.{get_teacher_by_user}
use kingsway_academy.Store.Schedules
use kingsway_academy.Store.Pages
use kingsway_academy.Store.Pages.{keep_text}
use kingsway_academy.Auth.Service.{require_any_role, require_branch}
use kingsway_academy.Academic.Inputs.{CreateScheduleItemInput}
use kingsway_academy.Academic.Steps.{own_branch, is_teacher, is_student}
use kingsway_academy.Academic.Filters.{filter_schedule_for_actor}

-- `""` becomes a lesson.
unfoldable pub default_item_type : ScheduleItemType → ScheduleItemType
default_item_type (ScheduleItemType.other s) =
    if is_empty s then ScheduleItemType.lesson else ScheduleItemType.other s
default_item_type t = t

-- The item that CreateScheduleItem asks the store for.
abbrev pub asked_item : Principal → String → String → CreateScheduleItemInput → ScheduleItem
asked_item actor branch_id teacher_id input = record {
  id = "";
  branch_id = branch_id;
  class_id = input.class_id;
  teacher_id = teacher_id;
  room_id = input.room_id;
  item_type = default_item_type input.item_type;
  title = trim_space input.title;
  starts_at = input.starts_at;
  ends_at = input.ends_at;
  created_by_user_id = actor.user_id;
  cancelled_at = none;
  created_at = 0;
  updated_at = 0;
}

-- The teacher of a new item: a teacher plans for themselves, and no lesson.
unfoldable pub teacher_of_item : Principal → CreateScheduleItemInput → Memory → Result String
teacher_of_item actor input m =
    if is_teacher actor
    then ((get_teacher_by_user actor.user_id m).0 >>= λ teacher.
        if item_type_text input.item_type == "lesson" then err forbidden else ok teacher.id)
    else ok input.teacher_id

-- CreateScheduleItem
unfoldable pub create_schedule_item :
    Time → String → Principal → CreateScheduleItemInput → Memory → Outcome ScheduleItem
create_schedule_item ts id actor input m =
    let branch_id = own_branch actor input.branch_id in
    if_passed
      (require_any_role actor (Role.owner ∷ Role.receptionist ∷ Role.teacher ∷ [])
        >> require_branch actor branch_id)
      m
      (with_value (teacher_of_item actor input m) m λ teacher_id.
        Schedules.create_schedule_item ts id (asked_item actor branch_id teacher_id input) m)

-- ListSchedule
unfoldable pub list_schedule : Principal → String → Memory → Result (List ScheduleItem)
list_schedule actor given m =
    let branch_id = own_branch actor given in
    if is_owner actor && is_empty branch_id
    then ok (Schedules.list_schedule "" m)
    else require_branch actor branch_id
      >> filter_schedule_for_actor actor (Schedules.list_schedule branch_id m) m

-- ListSchedulePage
unfoldable pub list_schedule_page :
    Principal → String → ScheduleItemType → PageRequest → Memory → Result (List ScheduleItem × ℕ)
unfolding list_schedule
list_schedule_page actor given item_type page m =
    let branch_id = trim_space (own_branch actor given) in
    if is_teacher actor || is_student actor
    then (list_schedule actor given m >>= λ items. ok (
        page_slice (keep_text (λ i. item_type_text i.item_type) (item_type_text item_type) items)
          page))
    else if is_owner actor && is_empty branch_id
    then ok (Pages.list_schedule_page "" item_type page m)
    else require_branch actor branch_id >> ok (Pages.list_schedule_page branch_id item_type page m)
