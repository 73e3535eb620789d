-- ===== src/Finance/Tests.antt =====
-- The theorems about finance/service.go at a small store, with an owner and a teacher as actors.
use kingsway_academy.Base.{true, ◌≡◌, refl, [], ◌∷◌, none, All}
use kingsway_academy.Base.Int.{pos}
use kingsway_academy.Map.{lookup, insert, erase, values_where}
use kingsway_academy.Map.Index.{insert-IsIndexed, empty-IsIndexed}
use kingsway_academy.Domain.{
  Role, Principal, Teacher, TeacherStatus, SalaryModel, SalaryModelType, PaymentStatus, ok,
  is_owner, role_is_valid, salary_model_is_valid,
}
use kingsway_academy.Store.State.{
  when◌fail◌from◌otherwise◌, Memory, new_memory, if_passed, with_value, with_row,
}
use kingsway_academy.Store.Indexes.{Indexes}
use kingsway_academy.Store.Teachers.{get_teacher_by_user, get_teacher, update_teacher}
use kingsway_academy.Store.Payments
use kingsway_academy.Auth.Service.{require_any_role}
use kingsway_academy.Academic.Steps.{and_then}
use kingsway_academy.Finance.{
  CreatePaymentInput, CreateSalaryModelInput, Event, publish, create_payment, create_salary_model,
  delete_teacher, list_salary_models, activate_pending, bad_amounts, asked_model,
}
use kingsway_academy.Finance.Publishing.{IsAllOrNothing, failures_change_nothing}
use kingsway_academy.Finance.Salaries.{IsApproved, create_salary_model-IsApproved}
use kingsway_academy.Finance.Visibility.{list_salary_models_lem}

abbrev owner_actor : Principal
owner_actor = record { user_id = "u1"; branch_id = ""; role = Role.owner }

abbrev teacher_actor : Principal
teacher_actor = record { user_id = "u2"; branch_id = "b1"; role = Role.teacher }

abbrev newcomer : Teacher
newcomer = record {
  id = "t1";
  branch_id = "b1";
  user_id = "u2";
  status = TeacherStatus.pending;
  birth_date = "";
  gender = "";
  phone = "";
  address = "";
  profile_photo_file_id = "";
  created_at = 1;
  updated_at = 1;
}

abbrev with_newcomer : Memory
with_newcomer = record new_memory {
  teachers = insert "t1" newcomer [];
  teachers_by_user = insert "u2" "t1" [];
}

with_newcomer-Indexes : Indexes with_newcomer
unfolding lookup
with_newcomer-Indexes = record {
  slugs = empty-IsIndexed _ _;
  emails = empty-IsIndexed _ _;
  fins = empty-IsIndexed _ _;
  accounts = insert-IsIndexed _ _ (empty-IsIndexed _ _) "t1" newcomer refl refl refl;
}

abbrev fixed_pay : CreateSalaryModelInput
fixed_pay = record {
  branch_id = "b1";
  teacher_id = "t1";
  model_type = SalaryModelType.fixed;
  fixed_monthly_amount_cents = pos 90000;
  student_percent_basis_points = pos 0;
  active_from = 5;
  active_to = none;
}

abbrev approved_pay : SalaryModel
approved_pay = record (asked_model owner_actor fixed_pay) { id = "s1"; created_at = 7 }

pay_approved :
    (create_salary_model true 7 8 "s1" owner_actor fixed_pay with_newcomer).0.0 ≡ ok approved_pay
unfolding create_salary_model publish if_passed require_any_role salary_model_is_valid with_value
    get_teacher with_row lookup insert erase when◌fail◌from◌otherwise◌ bad_amounts and_then
    Payments.create_salary_model activate_pending update_teacher
pay_approved = refl

create_salary_model-IsApproved_example :
    IsApproved "s1" owner_actor approved_pay
      (create_salary_model true 7 8 "s1" owner_actor fixed_pay with_newcomer).0.1
create_salary_model-IsApproved_example =
    create_salary_model-IsApproved true 7 8 "s1" owner_actor fixed_pay with_newcomer approved_pay
      with_newcomer-Indexes pay_approved

abbrev tuition : CreatePaymentInput
tuition = record {
  branch_id = "b1";
  student_id = "st1";
  amount_cents = pos 12000;
  currency = "";
  due_date = 40;
  paid_at = none;
  status = PaymentStatus.other "";
  receipt_file_id = "";
}

failures_change_nothing_example :
    IsAllOrNothing true Event.payment_created with_newcomer
      (create_payment true 7 "p1" owner_actor tuition with_newcomer)
    × IsAllOrNothing true Event.salary_model_created with_newcomer
        (create_salary_model true 7 8 "p1" owner_actor fixed_pay with_newcomer)
    × IsAllOrNothing true Event.teacher_deleted with_newcomer
        (delete_teacher true (λ k. 9) owner_actor "p1" with_newcomer)
failures_change_nothing_example =
    failures_change_nothing true 7 8 (λ k. 9) "p1" owner_actor tuition fixed_pay with_newcomer
      with_newcomer-Indexes

abbrev with_pay : Memory
with_pay = record with_newcomer {
  salary_models =
      ("s1", approved_pay) ∷ ("s2", record approved_pay { id = "s2"; teacher_id = "t2" }) ∷ [];
}

own_pay_listed : list_salary_models teacher_actor "" with_pay ≡ ok (approved_pay ∷ [])
unfolding list_salary_models get_teacher_by_user with_row lookup insert erase
    Payments.list_salary_models values_where
own_pay_listed = refl

list_salary_models_lem_example :
    (teacher_actor.role ≡ Role.teacher)
    × ((t : Teacher) × ((get_teacher_by_user "u2" with_pay).0 ≡ ok t)
        × All (λ (s : SalaryModel). s.teacher_id ≡ t.id) (approved_pay ∷ []))
unfolding role_is_valid is_owner
list_salary_models_lem_example =
    list_salary_models_lem teacher_actor "" with_pay (approved_pay ∷ []) refl refl own_pay_listed
