-- ===== src/Academic/Isolation/Boundary.antt =====
-- The boundary of a branch: what all the academic services together leave alone.
use kingsway_academy.Base.{String, ◌≡◌, false, ap, subst, sym}
use kingsway_academy.Domain.{Principal, err, forbidden, is_owner}
use kingsway_academy.Store.State.{Memory, Outcome}
use kingsway_academy.Store.Indexes.{Indexes}
use kingsway_academy.Auth.Libraries.{Jwt, Bcrypt}
use kingsway_academy.Academic.Branches.{create_branch, update_branch, delete_branch}
use kingsway_academy.Academic.Staff.{create_staff_member, update_staff_member, delete_staff_member}
use kingsway_academy.Academic.Teachers.{activate_teacher}
use kingsway_academy.Academic.Calls.{ServiceCall}
use kingsway_academy.Academic.Isolation.{IsConfined, confined_refl}
use kingsway_academy.Academic.Isolation.Guards.{owners_only, owners_only_also}
use kingsway_academy.Academic.Isolation.Office.{
  RoomsAreFiled, room_created, room_updated, room_removed, item_created, course_created,
  class_created, student_enrolled, assignment_created, exam_created, result_created,
}
use kingsway_academy.Academic.Isolation.People.{
  TeachersAreHome, student_created, student_updated, student_account_created, teacher_registered,
  teacher_updated,
}

module _ (actor : Principal) (no_owner : is_owner actor ≡ false) (m : Memory) where
  refused : {A : Type 0} {o : Outcome A} → o ≡ (err forbidden, m) → IsConfined actor.branch_id m o.1
  refused e =
      subst (λ m'. IsConfined actor.branch_id m m') (sym (ap (λ o. o.1) e))
        (confined_refl actor.branch_id m)

  -- An actor who is no owner, in a store whose indexes are right, whose rooms stand under their own
  -- ids and whose teachers have their accounts in their own branch: whichever function of the academic
  -- services the actor calls and whatever it returns, the rows of the other branches stay the same
  -- (also the branches themselves, users, staff, payments, salary models, files and notifications),
  -- and no result of an exam is written for another branch. New ids are fresh.
  pub call_confined :
      {jwt : Jwt} {bcrypt : Bcrypt} {secret : String} {m' : Memory}
      → Indexes m
      → RoomsAreFiled m
      → TeachersAreHome m
      → ServiceCall jwt bcrypt secret actor m m'
      → IsConfined actor.branch_id m m'
  unfolding create_branch update_branch delete_branch create_staff_member update_staff_member
      delete_staff_member activate_teacher
  call_confined x f h (ServiceCall.create_branch ts id i fresh) =
      refused (owners_only actor no_owner m _)
  call_confined x f h (ServiceCall.update_branch ts i) = refused (owners_only actor no_owner m _)
  call_confined x f h (ServiceCall.delete_branch id) = refused (owners_only actor no_owner m _)
  call_confined x f h (ServiceCall.create_staff_member ts u s i fresh new) =
      refused (owners_only_also actor no_owner _ m _)
  call_confined x f h (ServiceCall.update_staff_member ts ts' i) =
      refused (owners_only actor no_owner m _)
  call_confined x f h (ServiceCall.delete_staff_member id) =
      refused (owners_only actor no_owner m _)
  call_confined x f h (ServiceCall.create_room ts id i fresh) =
      (room_created actor no_owner m ts id i fresh).kept
  call_confined x f h (ServiceCall.update_room ts i) = (room_updated actor no_owner m ts i f).kept
  call_confined x f h (ServiceCall.remove_room ts id) = (room_removed actor no_owner m ts id f).kept
  call_confined x f h (ServiceCall.create_schedule_item ts id i fresh) =
      (item_created actor no_owner m ts id i fresh).kept
  call_confined x f h (ServiceCall.create_course ts new_id i fresh) =
      (course_created actor no_owner m ts new_id i fresh).kept
  call_confined x f h (ServiceCall.create_class ts id i fresh) =
      (class_created actor no_owner m ts id i fresh).kept
  call_confined x f h (ServiceCall.enroll_student ts id i fresh) =
      (student_enrolled actor no_owner m ts id i fresh).kept
  call_confined x f h (ServiceCall.create_assignment ts id i fresh) =
      (assignment_created actor no_owner m ts id i fresh).kept
  call_confined x f h (ServiceCall.create_exam ts id i fresh) =
      (exam_created actor no_owner m ts id i fresh).kept
  call_confined x f h (ServiceCall.create_exam_result ts id i) =
      (result_created actor no_owner m ts id i).kept
  call_confined x f h (ServiceCall.create_student ts new_id i fresh) =
      (student_created actor no_owner m ts new_id i fresh).kept
  call_confined x f h (ServiceCall.update_student ts id i) =
      (student_updated actor no_owner m ts id i).kept
  call_confined x f h (ServiceCall.create_student_account ts ts' u id i fresh) =
      (student_account_created actor no_owner m _ _ _ ts ts' u id i fresh).kept
  call_confined x f h (ServiceCall.register_teacher ts ts' clock u t new_id i p q r) =
      (teacher_registered actor no_owner m _ _ _ ts ts' clock u t new_id i p q r).kept
  call_confined x f h (ServiceCall.update_teacher ts ts' clock new_id i r) =
      (teacher_updated actor no_owner m _ _ _ ts ts' clock new_id i r x h).kept
  call_confined x f h (ServiceCall.activate_teacher ts id) =
      refused (owners_only actor no_owner m _)
