-- ===== src/Academic/Schedule/Planned.antt =====
-- What an item that CreateScheduleItem has planned fits to.
use kingsway_academy.Base.{
  ◌<◌, String, ◌≡◌, ◌≢◌, refl, true, false, some, ◌==◌, arith, eq_iff, not, subst, ◌||◌,
}
use kingsway_academy.Map.{lookup, any_value, any_value-false, insert, lookup_self}
use kingsway_academy.Domain.{
  Error, Time, Role, Principal, Teacher, Room, ScheduleItem, ok, is_owner, range_of, range_is_valid,
}
use kingsway_academy.Store.State.{Memory, Outcome, refuse}
use kingsway_academy.Store.Schedules
use kingsway_academy.Store.Schedules.{clashes, place_item}
use kingsway_academy.Store.Booking.{Competes, clear_of, valid_timed}
use kingsway_academy.Domain.Overlap.{Within}
use kingsway_academy.Store.Students.{is_active_teacher}
use kingsway_academy.Store.Teachers.{get_teacher_by_user}
use kingsway_academy.Auth.Service.{require_any_role, require_branch}
use kingsway_academy.Academic.Ways.{after_when, after_if_passed, after_with_value, after_with_row}
use kingsway_academy.Academic.Steps
use kingsway_academy.Academic.Inputs.{CreateScheduleItemInput}
use kingsway_academy.Academic.Schedule.{create_schedule_item, teacher_of_item, asked_item}

-- The room and the teacher of the item are stored and of its branch, the teacher is active, the start is
-- set and before the end, and no instant lies also in another item that has a start, is of the branch
-- and not cancelled, and has the room or the teacher.
pub record FitsStore (m : Memory) (item : ScheduleItem) : Type 0 where
  pub room : (r : Room) × (lookup item.room_id m.rooms ≡ some r) × (r.branch_id ≡ item.branch_id)
  pub teacher :
      (t : Teacher) × (lookup item.teacher_id m.teachers ≡ some t)
      × (t.branch_id ≡ item.branch_id)
      × (is_active_teacher t.status ≡ true)
  pub timed : (0 < item.starts_at) × (item.starts_at < item.ends_at)
  pub free :
      (k : String) (other : ScheduleItem)
      → lookup k m.schedules ≡ some other
      → (0 < other.starts_at)
      → Competes item other
      → (t : Time) → Within t (range_of item)
      → Within t (range_of other)
      → ⊥

-- What the store holds after an outcome that returns this item, made of the given one.
record IsPlaced (ts : Time) (id : String) (given item : ScheduleItem) (m m' : Memory) : Type 0 where
  same : item ≡ record given { id = id; created_at = ts; updated_at = ts }
  stored : lookup id m'.schedules ≡ some item
  fits : FitsStore m item

abbrev Places : Time → String → ScheduleItem → ScheduleItem → Memory → Outcome ScheduleItem → Type 0
Places ts id given item m o = o.0 ≡ ok item → IsPlaced ts id given item m o.1

module _ (ts : Time) (id : String) (given item : ScheduleItem) (m : Memory) where
  none_placed : (e : Error) → Places ts id given item m (refuse e m)
  none_placed e h = absurd (ground arith)

  row-IsPlaced :
      (room : Room) (teacher : Teacher)
      → let row : ScheduleItem = record given { id = id; created_at = ts; updated_at = ts } in
        lookup given.room_id m.rooms ≡ some room
        → lookup given.teacher_id m.teachers ≡ some teacher
        → not (room.branch_id == given.branch_id) || not (teacher.branch_id == given.branch_id)
          ≡ false
        → not (is_active_teacher teacher.status) ≡ false
        → any_value (clashes given) m.schedules ≡ false
        → range_is_valid (range_of given) ≡ true
        → IsPlaced ts id given row m (record m { schedules = insert id row m.schedules })
  row-IsPlaced room teacher at_room at_teacher here active free valid = record {
    same = refl;
    stored = lookup_self id _ m.schedules;
    fits = record {
      room = (room, at_room, ground (arith, eq_iff room.branch_id given.branch_id));
      teacher = (
        teacher,
        at_teacher,
        ground (arith, eq_iff teacher.branch_id given.branch_id),
        ground arith,
      );
      timed = valid_timed (range_of given) valid;
      free = λ k other found begun competes.
          clear_of given other (any_value-false (clashes given) m.schedules k other free found)
            competes (valid_timed (range_of given) valid).0 begun;
    };
  }

  placed : Places ts id given item m (Schedules.create_schedule_item ts id given m)
  unfolding Schedules.create_schedule_item place_item
  placed =
      let Q = Places ts id given item m in
      let row : ScheduleItem = record given { id = id; created_at = ts; updated_at = ts } in
      let after : Memory = record m { schedules = insert id row m.schedules } in
      after_when Q none_placed _ _ _ λ filled. after_with_row Q none_placed _ _ λ room at_room.
        after_with_row Q none_placed _ _ λ teacher at_teacher.
          after_when Q none_placed _ _ _ λ here. after_when Q none_placed _ _ _ λ active.
            after_when Q none_placed _ _ _ λ free. λ h.
              let same : row ≡ item = ground arith in
              subst (λ i. IsPlaced ts id given i m after) same
                (row-IsPlaced room teacher at_room at_teacher here active free (ground arith))

-- An item that CreateScheduleItem has planned.
pub record IsPlanned (actor : Principal) (id : String) (item : ScheduleItem) (m m' : Memory)
    : Type 0 where
  pub stored : lookup id m'.schedules ≡ some item
  pub fits : FitsStore m item
  pub planner : actor.role ≢ Role.student
  pub own_branch : is_owner actor ≡ false → item.branch_id ≡ actor.branch_id
  pub own_lesson :
      (t : Teacher)
      → actor.role ≡ Role.teacher
      → (get_teacher_by_user actor.user_id m).0 ≡ ok t
      → item.teacher_id ≡ t.id

module _ (ts : Time) (id : String) (actor : Principal) (input : CreateScheduleItemInput)
    (item : ScheduleItem) (m : Memory) where
  -- Where CreateScheduleItem succeeds, the item is stored; its room and its teacher are stored, of its
  -- branch, the teacher active; its start is set and before its end, and no instant of it lies in an item
  -- that was stored with a start, is not cancelled and shares the branch and the room or the teacher; no student has planned it; it
  -- is of the actor's branch if the actor is no owner, and taught by the actor if that is a teacher.
  pub create_schedule_item-IsPlanned :
      (create_schedule_item ts id actor input m).0 ≡ ok item
      → IsPlanned actor id item m (create_schedule_item ts id actor input m).1
  unfolding create_schedule_item require_any_role require_branch teacher_of_item is_owner
  create_schedule_item-IsPlanned =
      let Q : Outcome ScheduleItem → Type 0 = λ o. o.0 ≡ ok item → IsPlanned actor id item m o.1 in
      let none_planned : (e : Error) → Q (refuse e m) = λ e h. absurd (ground arith) in
      after_if_passed Q none_planned _ _ λ allowed.
        after_with_value Q none_planned _ _ λ teacher_id known. λ h.
          let p =
            placed ts id
              (asked_item actor (Steps.own_branch actor input.branch_id) teacher_id input) item m
              h in
          record {
            stored = p.stored;
            fits = p.fits;
            planner = λ student. ground arith;
            own_branch = λ no_owner. ground arith;
            own_lesson = λ t teaches found. ground arith;
          }
