-- ===== src/Academic/Refinement.antt =====
-- The academic services as clients of the store: what they do to it are calls of its methods.
pub mod Steps
pub mod Runs
pub mod People
use kingsway_academy.Domain.{Principal}
use kingsway_academy.Store.State.{Memory}
use kingsway_academy.Store.Reach.{Reach}
use kingsway_academy.Store.Indexes.{Indexes}
use kingsway_academy.Auth.Libraries.{Jwt, Bcrypt}
use kingsway_academy.Base.{String}
use kingsway_academy.Academic.Calls.{ServiceCall}
use kingsway_academy.Academic.Refinement.Steps
use kingsway_academy.Academic.Refinement.People

-- In a store whose indexes are right, a call of the academic services that changes the store, by any
-- actor and whatever it returns, is a run of calls of the store's methods: what is proved of all runs
-- of the store holds through the services.
pub service_call_refines :
    {jwt : Jwt} {bcrypt : Bcrypt} {secret : String} (actor : Principal) (m m' : Memory)
    → Indexes m
    → ServiceCall jwt bcrypt secret actor m m'
    → Reach m m'
service_call_refines actor m _ x (ServiceCall.create_branch ts id i fresh) =
    (Steps.branch_created m ts id actor i fresh).kept
service_call_refines actor m _ x (ServiceCall.update_branch ts i) =
    (Steps.branch_updated m ts actor i).kept
service_call_refines actor m _ x (ServiceCall.delete_branch id) =
    (Steps.branch_deleted m actor id).kept
service_call_refines actor m _ x (ServiceCall.create_staff_member ts u s i fresh new) =
    (Steps.staff_created m _ ts u s actor i fresh).kept
service_call_refines actor m _ x (ServiceCall.update_staff_member ts ts' i) =
    (Steps.staff_updated m _ ts ts' actor i).kept
service_call_refines actor m _ x (ServiceCall.delete_staff_member id) =
    (Steps.staff_deleted m actor id).kept
service_call_refines actor m _ x (ServiceCall.create_room ts id i fresh) =
    (Steps.room_created m ts id actor i).kept
service_call_refines actor m _ x (ServiceCall.update_room ts i) =
    (Steps.room_updated m ts actor i).kept
service_call_refines actor m _ x (ServiceCall.remove_room ts id) =
    (Steps.room_removed m ts actor id).kept
service_call_refines actor m _ x (ServiceCall.create_schedule_item ts id i fresh) =
    (Steps.item_created m ts id actor i fresh).kept
service_call_refines actor m _ x (ServiceCall.create_course ts new_id i fresh) =
    (Steps.course_created m ts new_id actor i).kept
service_call_refines actor m _ x (ServiceCall.create_class ts id i fresh) =
    (Steps.class_created m ts id actor i).kept
service_call_refines actor m _ x (ServiceCall.enroll_student ts id i fresh) =
    (Steps.student_enrolled m ts id actor i).kept
service_call_refines actor m _ x (ServiceCall.create_assignment ts id i fresh) =
    (Steps.assignment_created m ts id actor i).kept
service_call_refines actor m _ x (ServiceCall.create_exam ts id i fresh) =
    (Steps.exam_created m ts id actor i).kept
service_call_refines actor m _ x (ServiceCall.create_exam_result ts id i) =
    (Steps.result_created m ts id actor i).kept
service_call_refines actor m _ x (ServiceCall.create_student ts new_id i fresh) =
    (Steps.student_created m ts new_id actor i fresh).kept
service_call_refines actor m _ x (ServiceCall.update_student ts id i) =
    (Steps.student_updated m ts actor id i).kept
service_call_refines actor m _ x (ServiceCall.create_student_account ts ts' u id i fresh) =
    (People.student_account_created m _ _ _ ts ts' u actor id i fresh).kept
service_call_refines actor m _ x (ServiceCall.register_teacher ts ts' clock u t new_id i p q r) =
    (People.teacher_registered m _ _ _ ts ts' clock u t new_id actor i p q).kept
service_call_refines actor m _ x (ServiceCall.update_teacher ts ts' clock new_id i r) =
    (People.teacher_updated m _ _ _ ts ts' clock new_id actor i).kept
service_call_refines actor m _ x (ServiceCall.activate_teacher ts id) =
    (People.teacher_activated m ts actor id x).kept
