-- ===== src/Academic/Schedule/Planning.antt =====
-- What a teacher may plan by CreateScheduleItem.
use kingsway_academy.Base.{String, ◌≡◌, refl, false, [], ◌∷◌, eq_refl}
use kingsway_academy.Base.Text.{is_empty}
use kingsway_academy.Domain.{
  Time, Role, Principal, Teacher, ScheduleItemType, ok, err, forbidden, is_owner, can_use_branch,
  ◌>>◌,
}
use kingsway_academy.Store.State.{Memory, if_passed, with_value}
use kingsway_academy.Store.Schedules
use kingsway_academy.Store.Teachers.{get_teacher_by_user}
use kingsway_academy.Auth.Service.{require_any_role, require_branch}
use kingsway_academy.Academic.Inputs.{CreateScheduleItemInput}
use kingsway_academy.Academic.Schedule.{
  create_schedule_item, teacher_of_item, asked_item, default_item_type,
}

module _ (user_id branch_id : String) (has_branch : is_empty branch_id ≡ false) where
  abbrev teacher_actor : Principal
  teacher_actor = record { user_id = user_id; branch_id = branch_id; role = Role.teacher }

  teacher_passes :
      require_any_role teacher_actor (Role.owner ∷ Role.receptionist ∷ Role.teacher ∷ [])
        >> require_branch teacher_actor branch_id
      ≡ ok tt
  unfolding require_any_role require_branch can_use_branch is_owner
  teacher_passes = rw (has_branch, eq_refl branch_id) refl

  -- A teacher with a branch and a teacher's record: an item whose type is given as a lesson is
  -- forbidden, but one whose type is left out is planned as a lesson of the teacher.
  pub create_schedule_item_by_teacher :
      (ts : Time) (id : String) (input : CreateScheduleItemInput) (teacher : Teacher) (m : Memory)
      → (get_teacher_by_user user_id m).0 ≡ ok teacher
      → let plan = λ (t : ScheduleItemType).
        create_schedule_item ts id teacher_actor (record input { item_type = t }) m in
        let lesson =
          asked_item teacher_actor branch_id teacher.id
            (record input { item_type = ScheduleItemType.lesson }) in
        (plan ScheduleItemType.lesson ≡ (err forbidden, m))
        × (plan (ScheduleItemType.other "") ≡ Schedules.create_schedule_item ts id lesson m)
  unfolding create_schedule_item teacher_of_item default_item_type if_passed with_value is_owner
  create_schedule_item_by_teacher ts id input teacher m known =
      (rw (teacher_passes, known) refl, rw (teacher_passes, known) refl)
