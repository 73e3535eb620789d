-- ===== src/Finance/Visibility.antt =====
-- Who sees the salary models.
use kingsway_academy.Base.{
  String, ◌≡◌, refl, true, false, List, arith, keep, All, keep-All, All-map, eq_iff, inl, inr,
  subst, ◌==◌,
}
use kingsway_academy.Map.{values_where-All}
use kingsway_academy.Domain.{
  Role, Principal, SalaryModel, Teacher, ok, ok_or_err, is_owner, role_is_valid, eq_role,
}
use kingsway_academy.Store.State.{Memory}
use kingsway_academy.Store.Teachers.{get_teacher_by_user}
use kingsway_academy.Store.Payments
use kingsway_academy.Finance.{list_salary_models}

module _ (user_id branch_id given : String) (m : Memory) (models : List SalaryModel) where
  -- What a person of this role is answered.
  abbrev IsShown : Role → Type 0
  IsShown role =
      list_salary_models (record { user_id = user_id; branch_id = branch_id; role = role }) given m
      ≡ ok models

  teacher_answer :
      IsShown Role.teacher
      → (t : Teacher) × ((get_teacher_by_user user_id m).0 ≡ ok t)
        × All (λ (s : SalaryModel). s.teacher_id ≡ t.id) models
  unfolding list_salary_models Payments.list_salary_models
  teacher_answer h = elim (ok_or_err (get_teacher_by_user user_id m).0) [
    | inl (t, known) ↦
        let stored = Payments.list_salary_models t.branch_id m in
        let kept : keep (λ s. s.teacher_id == t.id) stored ≡ models = ground arith in
        (
          t,
          known,
          subst (All (λ (s : SalaryModel). s.teacher_id ≡ t.id)) kept (
              All-map (λ s own. ground (arith, eq_iff s.teacher_id t.id)) _
                (keep-All _ (λ s. s.teacher_id == t.id) stored
                  (values_where-All _ m.salary_models))),
        )
    | inr (e, unknown) ↦ absurd (ground arith)
  ]

  office_answer : IsShown Role.receptionist → ⊥
  unfolding list_salary_models
  office_answer h = ground arith

  student_answer : IsShown Role.student → ⊥
  unfolding list_salary_models
  student_answer h = ground arith

-- Where ListSalaryModels answers an actor with one of the program's roles who is no owner, the actor is
-- a teacher with a record, and every salary model that is shown is of that very teacher.
pub list_salary_models_lem :
    (actor : Principal) (given : String) (m : Memory) (models : List SalaryModel)
    → role_is_valid actor.role ≡ true
    → is_owner actor ≡ false
    → list_salary_models actor given m ≡ ok models
    → (actor.role ≡ Role.teacher)
      × ((t : Teacher) × ((get_teacher_by_user actor.user_id m).0 ≡ ok t)
          × All (λ (s : SalaryModel). s.teacher_id ≡ t.id) models)
unfolding is_owner role_is_valid
list_salary_models_lem actor given m models valid no_owner h =
    elim actor.role
        as (λ (role : Role).
          role_is_valid role ≡ true
          → eq_role role Role.owner ≡ false
          → IsShown actor.user_id actor.branch_id given m models role
          → (role ≡ Role.teacher)
            × ((t : Teacher) × ((get_teacher_by_user actor.user_id m).0 ≡ ok t)
                × All (λ (s : SalaryModel). s.teacher_id ≡ t.id) models)) [
                  | Role.owner ↦ λ v n a. absurd (ground arith)
                  | Role.receptionist ↦ λ v n a. absurd (office_answer _ _ _ m models a)
                  | Role.teacher ↦ λ v n a. (refl, teacher_answer _ _ _ m models a)
                  | Role.student ↦ λ v n a. absurd (student_answer _ _ _ m models a)
                  | Role.other s ↦ λ v n a. absurd (ground arith)
                ]
      valid no_owner h
