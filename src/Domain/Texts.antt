-- ===== src/Domain/Texts.antt =====
-- The texts of the named constants of entities.go and file_policy.go, where the code compares them
-- as texts.
use kingsway_academy.Base.{String}
use kingsway_academy.Domain.Enums.{
  StudentStatus, TeacherStatus, ScheduleItemType, PaymentStatus, FilePurpose, SalaryModelType,
}

abbrev pub student_status_text : StudentStatus → String
student_status_text StudentStatus.active = "active"
student_status_text StudentStatus.graduated = "graduated"
student_status_text StudentStatus.left = "left"
student_status_text (StudentStatus.other s) = s

abbrev pub teacher_status_text : TeacherStatus → String
teacher_status_text TeacherStatus.pending = "pending_owner_approval"
teacher_status_text TeacherStatus.active = "active"
teacher_status_text TeacherStatus.terminated = "terminated"
teacher_status_text (TeacherStatus.other s) = s

abbrev pub item_type_text : ScheduleItemType → String
item_type_text ScheduleItemType.lesson = "lesson"
item_type_text ScheduleItemType.exam = "exam"
item_type_text ScheduleItemType.event = "event"
item_type_text (ScheduleItemType.other s) = s

abbrev pub payment_status_text : PaymentStatus → String
payment_status_text PaymentStatus.pending = "pending"
payment_status_text PaymentStatus.paid = "paid"
payment_status_text PaymentStatus.overdue = "overdue"
payment_status_text PaymentStatus.cancelled = "cancelled"
payment_status_text (PaymentStatus.other s) = s

abbrev pub purpose_text : FilePurpose → String
purpose_text FilePurpose.material = "material"
purpose_text FilePurpose.payment_receipt = "payment_receipt"
purpose_text FilePurpose.event = "event"
purpose_text FilePurpose.passport = "passport"
purpose_text FilePurpose.diploma = "diploma"
purpose_text FilePurpose.profile_photo = "profile_photo"
purpose_text FilePurpose.exam_writing = "exam_writing"
purpose_text (FilePurpose.other s) = s

abbrev pub salary_type_text : SalaryModelType → String
salary_type_text SalaryModelType.fixed = "fixed"
salary_type_text SalaryModelType.percent = "percent"
salary_type_text SalaryModelType.hybrid = "hybrid"
salary_type_text (SalaryModelType.other s) = s
