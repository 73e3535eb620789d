-- ===== src/Academic/Steps.antt =====
-- What the functions of backend/internal/academic share. A method of the store that only reads is
-- followed by its result alone.
use kingsway_academy.Base.{String, ◌==◌, ◌&&◌, not, Bool, List, [], ◌∷◌, if◌then◌else◌, any}
use kingsway_academy.Domain.{
  Role, Principal, Student, Result, ok, err, not_found, forbidden, eq_role, is_owner,
}
use kingsway_academy.Store.State.{Memory, Outcome}
use kingsway_academy.Store.Listings.{get_student_by_user, list_class_students}
use kingsway_academy.Store.Schedules.{is_set}

-- `v, err := method(…); if err != nil { return err }`, with the rest of the function
unfoldable pub and_then : {V A : Type 0} → Outcome V → (V → Memory → Outcome A) → Outcome A
and_then (err e, m) rest = (err e, m)
and_then (ok v, m) rest = rest v m

-- `if !actor.IsOwner() { branchID = actor.BranchID }`
abbrev pub own_branch : Principal → String → String
own_branch actor given = if is_owner actor then given else actor.branch_id

abbrev pub office : List Role
office = Role.owner ∷ Role.receptionist ∷ []

abbrev pub is_teacher : Principal → Bool
is_teacher actor = eq_role actor.role Role.teacher

abbrev pub is_student : Principal → Bool
is_student actor = eq_role actor.role Role.student

-- The student of the account; an account without one sees nothing.
unfoldable pub as_student : {A : Type 0} → Principal → Memory → (Student → List A) → Result (List A)
as_student actor m rest = elim (get_student_by_user actor.user_id m).0 [
  | ok student ↦ ok (rest student)
  | err not_found ↦ ok []
  | err e ↦ err e
]

-- `allowed[classID]`: has the student an enrolment in the class that is not over?
unfoldable pub attends : Student → Memory → String → Bool
attends student m class_id =
    any (λ e. e.student_id == student.id && not (is_set e.left_at) && e.class_id == class_id)
      (list_class_students student.branch_id "" m)

-- The switch over the role that filters a listing.
unfoldable pub filter_by_role :
    {A : Type 0} → Role → Result (List A) → Result (List A) → Result (List A) → Result (List A)
filter_by_role Role.owner everything teaching studying = everything
filter_by_role Role.receptionist everything teaching studying = everything
filter_by_role Role.teacher everything teaching studying = teaching
filter_by_role Role.student everything teaching studying = studying
filter_by_role (Role.other s) everything teaching studying = err forbidden
