-- ===== src/Finance/Publishing.antt =====
-- What the functions of finance/service.go leave behind, and what they publish.
use kingsway_academy.Base.{
  Bool, if◌then◌else◌, String, ◌≡◌, refl, some, List, [], ◌∷◌, arith, subst, sym,
}
use kingsway_academy.Map.{lookup}
use kingsway_academy.Domain.{Time, Principal, SalaryModel, Teacher, Error, ok, err}
use kingsway_academy.Store.State.{when◌fail◌from◌otherwise◌, Memory, Outcome, with_row, refuse}
use kingsway_academy.Store.Indexes.{Indexes}
use kingsway_academy.Store.Teachers
use kingsway_academy.Store.Teachers.{get_teacher, update_teacher}
use kingsway_academy.Store.Payments
use kingsway_academy.Academic.Steps.{and_then}
use kingsway_academy.Academic.Ways.{
  after_when, after_if_passed, after_with_value, after_with_row, after_and_then,
}
use kingsway_academy.Finance.{
  CreatePaymentInput, CreateSalaryModelInput, Event, publish, create_payment, create_salary_model,
  delete_teacher, activate_pending, asked_model,
}

-- An outcome with an error leaves the store as it was.
abbrev IsUntouched : {A : Type 0} → Memory → Outcome A → Type 0
IsUntouched m o = (e : Error) → o.0 ≡ err e → o.1 ≡ m

-- A function either fails, changes nothing and publishes nothing, or succeeds and publishes
-- the one event of its result, if there is a publisher.
pub record IsAllOrNothing {A : Type 0} (has_events : Bool) (event : A → Event) (m : Memory)
    (o : Outcome A × List Event) : Type 0 where
  pub failed : (e : Error) → o.0.0 ≡ err e → (o.0.1 ≡ m) × (o.1 ≡ [])
  pub done : (a : A) → o.0.0 ≡ ok a → o.1 ≡ (if has_events then event a ∷ [] else [])

module _ {A : Type 0} {m : Memory} where
  refused_same : (e : Error) → IsUntouched m (refuse {A = A} e m)
  refused_same e e' h = refl

  succeeded : {a : A} {m' : Memory} → IsUntouched {A = A} m (ok a, m')
  succeeded e h = absurd (ground arith)

  after_success :
      (a : A) (o : Outcome (Unit {0}))
      → o.0 ≡ ok tt
      → IsUntouched {A = A} m (and_then o λ done m'. (ok a, m'))
  unfolding and_then
  after_success a (ok u, m') h = succeeded
  after_success a (err e, m') h = absurd (ground arith)

  -- What is published follows the outcome.
  published :
      (has_events : Bool) (event : A → Event) (o : Outcome A)
      → IsUntouched m o
      → IsAllOrNothing has_events event m (publish has_events event o)
  unfolding publish
  published has_events event (ok a, m') k = record {
    failed = λ e h. absurd (ground arith);
    done = λ b h. ground arith;
  }
  published has_events event (err e, m') k = record {
    failed = λ e' h. (k e refl, refl);
    done = λ b h. absurd (ground arith);
  }

create_payment-IsAllOrNothing :
    (has_events : Bool) (ts : Time) (id : String) (actor : Principal) (input : CreatePaymentInput)
    (m : Memory)
    → IsAllOrNothing has_events Event.payment_created m
        (create_payment has_events ts id actor input m)
unfolding create_payment Payments.create_payment
create_payment-IsAllOrNothing has_events ts id actor input m =
    published has_events Event.payment_created _ (
      after_if_passed (IsUntouched m) refused_same _ _ λ allowed.
        after_with_value (IsUntouched m) refused_same _ _ λ student got.
          after_when (IsUntouched m) refused_same _ _ _ λ passed.
            after_with_row (IsUntouched m) refused_same _ _
              λ row found. after_when (IsUntouched m) refused_same _ _ _ λ passed. succeeded)

delete_teacher-IsAllOrNothing :
    (has_events : Bool) (clock : String → Time) (actor : Principal) (id : String) (m : Memory)
    → IsAllOrNothing has_events Event.teacher_deleted m (delete_teacher has_events clock actor id m)
unfolding delete_teacher Teachers.delete_teacher
delete_teacher-IsAllOrNothing has_events clock actor id m =
    published has_events Event.teacher_deleted _ (
      after_if_passed (IsUntouched m) refused_same _ _ λ allowed.
        after_when (IsUntouched m) refused_same _ _ _ λ passed.
          after_with_value (IsUntouched m) refused_same _ _ λ teacher got.
            after_when (IsUntouched m) refused_same _ _ _
              λ passed. after_with_row (IsUntouched m) refused_same _ _ λ row found. succeeded)

pub get_teacher_found :
    (id : String) (m : Memory) (teacher : Teacher)
    → (get_teacher id m).0 ≡ ok teacher
    → lookup id m.teachers ≡ some teacher
unfolding get_teacher with_row
get_teacher_found id m teacher h = ground arith

pub model-IsUntouched :
    (ts : Time) (id : String) (model : SalaryModel) (m : Memory)
    → IsUntouched m (Payments.create_salary_model ts id model m)
unfolding Payments.create_salary_model
model-IsUntouched ts id model m =
    after_with_row (IsUntouched m) refused_same _ _
      λ teacher found. after_when (IsUntouched m) refused_same _ _ _ λ passed. succeeded

-- The write of the model leaves the teachers as they are.
model_written :
    (ts : Time) (id : String) (model row : SalaryModel) (m m' : Memory)
    → Payments.create_salary_model ts id model m ≡ (ok row, m')
    → m'.teachers ≡ m.teachers
unfolding Payments.create_salary_model with_row when◌fail◌from◌otherwise◌
model_written ts id model row m m' h = ground arith

-- A teacher who is stored can be activated.
activated :
    (ts : Time) (teacher : Teacher) (m : Memory) (t : Teacher)
    → lookup teacher.id m.teachers ≡ some t
    → (activate_pending ts teacher m).0 ≡ ok tt
unfolding activate_pending update_teacher with_row and_then
activated ts teacher m t stored = ground arith

create_salary_model-IsAllOrNothing :
    (has_events : Bool) (ts ts' : Time) (id : String) (actor : Principal)
    (input : CreateSalaryModelInput) (m : Memory)
    → Indexes m
    → IsAllOrNothing has_events Event.salary_model_created m
        (create_salary_model has_events ts ts' id actor input m)
unfolding create_salary_model
create_salary_model-IsAllOrNothing has_events ts ts' id actor input m x =
    published has_events Event.salary_model_created _ (
      after_if_passed (IsUntouched m) refused_same _ _ λ allowed.
        after_when (IsUntouched m) refused_same _ _ _ λ passed.
          after_with_value (IsUntouched m) refused_same _ _ λ teacher got.
            after_when (IsUntouched m) refused_same _ _ _ λ passed.
              after_when (IsUntouched m) refused_same _ _ _ λ passed.
                after_and_then (IsUntouched m) refused_same _ _
                  (model-IsUntouched ts id (asked_model actor input) m)
                  λ row m' e.
                    let found : lookup input.teacher_id m.teachers ≡ some teacher =
                      get_teacher_found input.teacher_id m teacher got in
                    let filed : teacher.id ≡ input.teacher_id = x.accounts.own _ teacher found in
                    let same : m'.teachers ≡ m.teachers = model_written ts id _ row m m' e in
                    after_success row (activate_pending ts' teacher m') (
                      activated ts' teacher m' teacher (
                        subst (λ s. lookup teacher.id s ≡ some teacher) (sym same)
                          (subst (λ k. lookup k m.teachers ≡ some teacher) (sym filed) found))))

-- In a store whose indexes are right, CreatePayment, CreateSalaryModel and DeleteTeacher are all or
-- nothing: where one fails, the store is as it was and nothing is published, so that no salary model is
-- left of which the pending teacher could not be activated; where one succeeds, exactly the event of
-- its result is published if the service has a publisher, and nothing if it has none.
pub failures_change_nothing :
    (has_events : Bool) (ts ts' : Time) (clock : String → Time) (id : String) (actor : Principal)
    (payment : CreatePaymentInput) (model : CreateSalaryModelInput) (m : Memory)
    → Indexes m
    → IsAllOrNothing has_events Event.payment_created m
        (create_payment has_events ts id actor payment m)
      × IsAllOrNothing has_events Event.salary_model_created m
          (create_salary_model has_events ts ts' id actor model m)
      × IsAllOrNothing has_events Event.teacher_deleted m
          (delete_teacher has_events clock actor id m)
failures_change_nothing has_events ts ts' clock id actor payment model m x = (
  create_payment-IsAllOrNothing has_events ts id actor payment m,
  create_salary_model-IsAllOrNothing has_events ts ts' id actor model m x,
  delete_teacher-IsAllOrNothing has_events clock actor id m,
)
