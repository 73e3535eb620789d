-- ===== src/Store/Payments.antt =====
-- The payments and salary models of memory.go.
use kingsway_academy.Base.{String, ◌==◌, ◌||◌, not, if◌then◌else◌, List}
use kingsway_academy.Base.Int.{pos, leb_ℤ}
use kingsway_academy.Base.Text.{is_empty}
use kingsway_academy.Base.Sort.{sort_slice}
use kingsway_academy.Map.{lookup, insert, values_where}
use kingsway_academy.Domain.{
  Time, Payment, PaymentStatus, SalaryModel, ok, invalid_input, salary_model_is_valid, before,
}
use kingsway_academy.Store.State.{when◌fail◌from◌otherwise◌, Memory, Outcome, with_row}

-- An unset status becomes pending.
abbrev pub default_payment_status : PaymentStatus → PaymentStatus
default_payment_status (PaymentStatus.other s) =
    if is_empty s then PaymentStatus.pending else PaymentStatus.other s
default_payment_status s = s

-- CreatePayment
unfoldable pub create_payment : Time → String → Payment → Memory → Outcome Payment
create_payment ts id payment m = with_row (lookup payment.student_id m.students) m λ student.
    let row = record payment {
      id = id;
      currency = if is_empty payment.currency then "AZN" else payment.currency;
      status = default_payment_status payment.status;
      created_at = ts;
      updated_at = ts;
    } in
    when not (student.branch_id == payment.branch_id) || leb_ℤ payment.amount_cents (pos 0)
    fail invalid_input
    from m
    otherwise (ok row, record m { payments = insert id row m.payments })

-- ListPayments
unfoldable pub list_payments : String → Memory → List Payment
list_payments branch_id m =
    sort_slice (λ p q. before p.due_date q.due_date)
      (values_where (λ p. is_empty branch_id || p.branch_id == branch_id) m.payments)

-- GetPayment
unfoldable pub get_payment : String → Memory → Outcome Payment
get_payment id m = with_row (lookup id m.payments) m (λ payment. (ok payment, m))

-- CreateSalaryModel
unfoldable pub create_salary_model : Time → String → SalaryModel → Memory → Outcome SalaryModel
create_salary_model ts id model m = with_row (lookup model.teacher_id m.teachers) m λ teacher.
    let row = record model { id = id; created_at = ts } in
    when not (teacher.branch_id == model.branch_id)
      || not (salary_model_is_valid model.model_type)
      || is_empty model.approved_by_owner_user_id
    fail invalid_input
    from m
    otherwise (ok row, record m { salary_models = insert id row m.salary_models })

-- ListSalaryModels
unfoldable pub list_salary_models : String → Memory → List SalaryModel
list_salary_models branch_id m =
    values_where (λ s. is_empty branch_id || s.branch_id == branch_id) m.salary_models
