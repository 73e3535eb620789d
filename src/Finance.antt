-- ===== src/Finance.antt =====
-- finance/service.go, on the store in memory. What goes to the event publisher is listed beside the
-- outcome; what the publisher answers is ignored, as in publishBestEffort. The field `events` of the
-- service is an argument, is it set or nil: WithEventPublisher sets it, and the API server does not call
-- that option.
pub mod Publishing
pub mod Salaries
pub mod Visibility
mod Tests
use kingsway_academy.Base.{
  ℕ, String, ◌==◌, ◌||◌, ◌&&◌, not, Bool, true, false, Option, none, some, if◌then◌else◌, List, [],
  ◌∷◌, any, keep,
}
use kingsway_academy.Base.Int.{ℤ, pos, leb_ℤ, ltb_ℤ}
use kingsway_academy.Base.Text.{is_empty, trim_space, to_lower}
use kingsway_academy.Domain.{
  Time, Role, Principal, Payment, PaymentStatus, SalaryModel, SalaryModelType, Teacher,
  TeacherStatus, TeacherFinanceRecord, PageRequest, Result, ok, err, forbidden, invalid_input,
  conflict, eq_role, is_owner, salary_model_is_valid, payment_status_text, page_slice, refuse_if,
  ◌>>=◌, ◌>>◌,
}
use kingsway_academy.Store.State.{when◌fail◌from◌otherwise◌, Memory, Outcome, if_passed, with_value}
use kingsway_academy.Store.Students.{get_student}
use kingsway_academy.Store.Teachers
use kingsway_academy.Store.Teachers.{get_teacher, get_teacher_by_user, update_teacher}
use kingsway_academy.Store.Payments
use kingsway_academy.Store.Pages
use kingsway_academy.Store.Pages.{keep_text}
use kingsway_academy.Store.Listings.{get_student_by_user}
use kingsway_academy.Store.TeacherFinance
use kingsway_academy.Store.TeacherFinance.{keep_records}
use kingsway_academy.Auth.Service.{require_any_role, require_branch}
use kingsway_academy.Academic.Steps.{own_branch, office, is_teacher, is_student, and_then}

pub record CreatePaymentInput : Type 0 where
  pub branch_id : String
  pub student_id : String
  pub amount_cents : ℤ
  pub currency : String
  pub due_date : Time
  pub paid_at : Option Time
  pub status : PaymentStatus
  pub receipt_file_id : String

pub record CreateSalaryModelInput : Type 0 where
  pub branch_id : String
  pub teacher_id : String
  pub model_type : SalaryModelType
  pub fixed_monthly_amount_cents : ℤ
  pub student_percent_basis_points : ℤ
  pub active_from : Time
  pub active_to : Option Time

pub record TeacherFinanceFilter : Type 0 where
  pub branch_id : String
  pub subject : String
  pub status : TeacherStatus
  pub salary_model : SalaryModelType

-- What the service publishes, one constructor for each topic.
pub data Event : Type 0 where
  payment_created : Payment → Event
  salary_model_created : SalaryModel → Event
  teacher_deleted : Teacher → Event

-- `s.publishBestEffort(…)`, after the errors have returned; `has_events` is `s.events != nil`
unfoldable pub publish : {A : Type 0} → Bool → (A → Event) → Outcome A → Outcome A × List Event
publish has_events event (err e, m) = ((err e, m), [])
publish has_events event (ok a, m) = ((ok a, m), if has_events then event a ∷ [] else [])

abbrev pub asked_payment : Principal → String → CreatePaymentInput → Payment
asked_payment actor branch_id input = record {
  id = "";
  branch_id = branch_id;
  student_id = input.student_id;
  amount_cents = input.amount_cents;
  currency = input.currency;
  due_date = input.due_date;
  paid_at = input.paid_at;
  status = input.status;
  receipt_file_id = input.receipt_file_id;
  created_by_user_id = actor.user_id;
  created_at = 0;
  updated_at = 0;
}

-- CreatePayment
unfoldable pub create_payment :
    Bool → Time → String → Principal → CreatePaymentInput → Memory → Outcome Payment × List Event
create_payment has_events ts id actor input m =
    let branch_id = own_branch actor input.branch_id in
    publish has_events Event.payment_created (
      if_passed (require_any_role actor office >> require_branch actor branch_id) m (
        with_value (get_student input.student_id m).0 m λ student.
          when not (student.branch_id == branch_id)
          fail forbidden
          from m
          otherwise Payments.create_payment ts id (asked_payment actor branch_id input) m))

-- ListPayments
unfoldable pub list_payments : Principal → String → Memory → Result (List Payment)
list_payments actor given m =
    let branch_id = own_branch actor given in
    let payments = Payments.list_payments branch_id m in
    if is_teacher actor
    then err forbidden
    else if is_owner actor && is_empty branch_id
    then ok (Payments.list_payments "" m)
    else require_branch actor branch_id
      >> (if not (is_student actor)
          then ok payments
          else (get_student_by_user actor.user_id m).0 >>= λ student.
              ok (keep (λ p. p.student_id == student.id) payments))

-- ListPaymentsPage
unfoldable pub list_payments_page :
    Principal → String → PaymentStatus → PageRequest → Memory → Result (List Payment × ℕ)
unfolding list_payments
list_payments_page actor given status page m =
    let branch_id = trim_space (own_branch actor given) in
    if is_teacher actor
    then err forbidden
    else if is_student actor
    then (list_payments actor given m >>= λ payments. ok (
        page_slice
          (keep_text (λ p. payment_status_text p.status) (payment_status_text status) payments)
          page))
    else if is_owner actor && is_empty branch_id
    then ok (Pages.list_payments_page "" status page m)
    else require_branch actor branch_id >> ok (Pages.list_payments_page branch_id status page m)

-- GetPayment
unfoldable pub get_payment : Principal → String → Memory → Result Payment
get_payment actor id m = (Payments.get_payment id m).0 >>= λ payment.
    require_branch actor payment.branch_id
    >> (if is_student actor
        then ((get_student payment.student_id m).0 >>= λ student.
            refuse_if (not (student.user_id == actor.user_id)) forbidden >> ok payment)
        else ok payment)

abbrev pub asked_model : Principal → CreateSalaryModelInput → SalaryModel
asked_model actor input = record {
  id = "";
  branch_id = input.branch_id;
  teacher_id = input.teacher_id;
  model_type = input.model_type;
  fixed_monthly_amount_cents = input.fixed_monthly_amount_cents;
  student_percent_basis_points = input.student_percent_basis_points;
  active_from = input.active_from;
  active_to = input.active_to;
  approved_by_owner_user_id = actor.user_id;
  created_at = 0;
}

-- The test of the amounts, by the type of the model.
unfoldable pub bad_amounts : CreateSalaryModelInput → Bool
bad_amounts input =
    let bad_fixed = leb_ℤ input.fixed_monthly_amount_cents (pos 0) in
    let bad_percent =
      ltb_ℤ input.student_percent_basis_points (pos 0)
      || ltb_ℤ (pos 10000) input.student_percent_basis_points in
    elim input.model_type [
      | SalaryModelType.fixed ↦ bad_fixed
      | SalaryModelType.percent ↦ bad_percent
      | SalaryModelType.hybrid ↦ bad_fixed || bad_percent
      | SalaryModelType.other s ↦ false
    ]

-- A teacher who is pending becomes active.
unfoldable pub activate_pending : Time → Teacher → Memory → Outcome (Unit {0})
activate_pending ts teacher m = elim teacher.status [
  | TeacherStatus.pending ↦
      and_then (update_teacher ts (record teacher { status = TeacherStatus.active }) m)
        (λ updated m'. (ok tt, m'))
  | TeacherStatus.active ↦ (ok tt, m)
  | TeacherStatus.terminated ↦ (ok tt, m)
  | TeacherStatus.other s ↦ (ok tt, m)
]

-- CreateSalaryModel
unfoldable pub create_salary_model :
    Bool
    → Time
    → Time
    → String
    → Principal
    → CreateSalaryModelInput
    → Memory
    → Outcome SalaryModel × List Event
unfolding activate_pending bad_amounts
create_salary_model has_events ts ts' id actor input m =
    publish has_events Event.salary_model_created (
      if_passed (require_any_role actor (Role.owner ∷ [])) m (
        when is_empty input.branch_id
          || is_empty input.teacher_id
          || not (salary_model_is_valid input.model_type)
        fail invalid_input
        from m
        otherwise with_value (get_teacher input.teacher_id m).0 m λ teacher.
          when not (teacher.branch_id == input.branch_id)
          fail invalid_input
          from m
          otherwise when bad_amounts input
          fail invalid_input
          from m
          otherwise and_then (Payments.create_salary_model ts id (asked_model actor input) m)
              λ model m'. and_then (activate_pending ts' teacher m') λ done m''. (ok model, m'')))

-- ListSalaryModels
unfoldable pub list_salary_models : Principal → String → Memory → Result (List SalaryModel)
list_salary_models actor branch_id m =
    if eq_role actor.role Role.receptionist || is_student actor
    then err forbidden
    else if is_teacher actor
    then ((get_teacher_by_user actor.user_id m).0 >>= λ teacher.
        ok (
          keep (λ s. s.teacher_id == teacher.id) (Payments.list_salary_models teacher.branch_id m)))
    else if is_owner actor && is_empty branch_id
    then ok (Payments.list_salary_models "" m)
    else require_branch actor branch_id >> ok (Payments.list_salary_models branch_id m)

-- The branch and the teacher of ListSalaryModelsPage.
unfoldable pub models_scope : Principal → String → Memory → Result (String × String)
models_scope actor branch_id m =
    if is_teacher actor
    then ((get_teacher_by_user actor.user_id m).0 >>= λ teacher. ok (teacher.branch_id, teacher.id))
    else ok ((if is_owner actor then trim_space branch_id else branch_id), "")

-- ListSalaryModelsPage
unfoldable pub list_salary_models_page :
    Principal → String → PageRequest → Memory → Result (List SalaryModel × ℕ)
unfolding models_scope
list_salary_models_page actor given page m =
    if eq_role actor.role Role.receptionist || is_student actor
    then err forbidden
    else models_scope actor given m >>= λ (branch_id, teacher_id).
        if is_owner actor && is_empty branch_id
        then ok (Pages.list_salary_models_page "" teacher_id page m)
        else require_branch actor branch_id
          >> ok (Pages.list_salary_models_page branch_id teacher_id page m)

-- normalizeFilter
unfoldable pub normalize_filter : String → String
normalize_filter value = to_lower (trim_space value)

-- The branch that the owner's filter names, `""` for all.
unfoldable pub finance_branch : Principal → TeacherFinanceFilter → Result String
finance_branch actor filter =
    let branch_id = trim_space filter.branch_id in
    require_any_role actor (Role.owner ∷ [])
    >> (if is_empty branch_id then ok tt else require_branch actor branch_id)
    >> ok branch_id

-- ListTeacherFinanceRecords
unfoldable pub list_teacher_finance_records :
    Principal → TeacherFinanceFilter → Memory → Result (List TeacherFinanceRecord)
unfolding finance_branch normalize_filter
list_teacher_finance_records actor filter m = finance_branch actor filter >>= λ branch_id. ok (
    keep_records (normalize_filter filter.subject) filter.status filter.salary_model
      (λ r. normalize_filter r.subject) (TeacherFinance.list_teacher_finance_records branch_id m))

-- ListTeacherFinanceRecordsPage
unfoldable pub list_teacher_finance_records_page :
    Principal → TeacherFinanceFilter → PageRequest → Memory → Result (List TeacherFinanceRecord × ℕ)
unfolding finance_branch normalize_filter
list_teacher_finance_records_page actor filter page m = finance_branch actor filter >>= λ branch_id.
    ok (
      TeacherFinance.list_teacher_finance_records_page branch_id (normalize_filter filter.subject)
        filter.status filter.salary_model page m)

-- Has the teacher a record with students?
abbrev pub still_teaches : Teacher → List TeacherFinanceRecord → Bool
still_teaches teacher records =
    any (λ r. r.id == teacher.id && ltb_ℤ (pos 0) r.assigned_students) records

-- DeleteTeacher
unfoldable pub delete_teacher :
    Bool → (String → Time) → Principal → String → Memory → Outcome Teacher × List Event
delete_teacher has_events clock actor given m =
    let teacher_id = trim_space given in
    publish has_events Event.teacher_deleted (
      if_passed (require_any_role actor (Role.owner ∷ [])) m (
        when is_empty teacher_id
        fail invalid_input
        from m
        otherwise with_value (get_teacher teacher_id m).0 m λ teacher.
          when still_teaches teacher
            (TeacherFinance.list_teacher_finance_records teacher.branch_id m)
          fail conflict
          from m
          otherwise Teachers.delete_teacher clock teacher.id m))
