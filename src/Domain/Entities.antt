-- ===== src/Domain/Entities.antt =====
-- The structs of entities.go and schedule.go. A time is a number of nanoseconds since the zero time
-- of Go's package time, a pointer to a time an option, and an unset text `""`. A JSON object is its
-- text. A score (a float64) is a whole number of its smallest unit.
use kingsway_academy.Base.{ℕ, String, Bool, Option, List}
use kingsway_academy.Base.Int.{ℤ}
use kingsway_academy.Domain.Enums.{
  Role, IdempotencyStatus, StudentStatus, TeacherStatus, ScheduleItemType, RsvpStatus,
  PaymentStatus, SalaryModelType, FileCategory, FilePolicy, FilePurpose, OutboxEventStatus,
}

abbrev pub Time : Type 0
Time = ℕ

abbrev pub Json : Type 0
Json = String

pub record IdempotencyRecord : Type 0 where
  pub actor_user_id : String
  pub method : String
  pub path : String
  pub key : String
  pub request_hash : String
  pub status : IdempotencyStatus
  pub response_status : ℤ
  pub response_body : String
  pub created_at : Time
  pub updated_at : Time
  pub expires_at : Time

pub record IdempotencyRunResult : Type 0 where
  pub replayed : Bool
  pub response_status : ℤ
  pub response_body : String

pub record PageRequest : Type 0 where
  pub limit : ℤ
  pub offset : ℤ

pub record AuditLog : Type 0 where
  pub id : String
  pub actor_user_id : String
  pub actor_role : Role
  pub actor_branch_id : String
  pub action : String
  pub entity_type : String
  pub entity_id : String
  pub entity_branch_id : String
  pub request_id : String
  pub idempotency_key : String
  pub before_json : Json
  pub after_json : Json
  pub metadata : Json
  pub created_at : Time

pub record Branch : Type 0 where
  pub id : String
  pub name : String
  pub slug : String
  pub address : String
  pub opening_time : String
  pub closing_time : String
  pub created_at : Time
  pub updated_at : Time

pub record User : Type 0 where
  pub id : String
  pub branch_id : String
  pub role : Role
  pub email : String
  pub password_hash : String
  pub first_name : String
  pub last_name : String
  pub is_active : Bool
  pub token_version : ℤ
  pub last_login_at : String
  pub created_at : Time
  pub updated_at : Time

pub record StaffMember : Type 0 where
  pub id : String
  pub branch_id : String
  pub user_id : String
  pub role : Role
  pub email : String
  pub first_name : String
  pub last_name : String
  pub birth_date : String
  pub gender : String
  pub phone : String
  pub address : String
  pub hired_at : String
  pub salary_amount_azn : ℤ
  pub profile_photo_file_id : String
  pub is_active : Bool
  pub last_login_at : String
  pub created_at : Time
  pub updated_at : Time

pub record Principal : Type 0 where
  pub user_id : String
  pub branch_id : String
  pub role : Role

pub record Student : Type 0 where
  pub id : String
  pub branch_id : String
  pub user_id : String
  pub fin : String
  pub first_name : String
  pub last_name : String
  pub birth_date : String
  pub gender : String
  pub phone : String
  pub address : String
  pub profile_photo_file_id : String
  pub status : StudentStatus
  pub left_reason : String
  pub created_at : Time
  pub updated_at : Time

pub record StudentParentContact : Type 0 where
  pub id : String
  pub branch_id : String
  pub student_id : String
  pub relation : String
  pub name : String
  pub phones : List String
  pub created_at : Time

pub record StudentCourseRegistration : Type 0 where
  pub id : String
  pub branch_id : String
  pub student_id : String
  pub course_id : String
  pub teacher_id : String
  pub monthly_amount_cents : ℤ
  pub start_date : String
  pub created_at : Time

pub record StudentTeacherAssignment : Type 0 where
  pub id : String
  pub branch_id : String
  pub student_id : String
  pub teacher_id : String
  pub class_id : String
  pub valid_from : String
  pub valid_to : String
  pub reason : String
  pub created_at : Time

pub record Teacher : Type 0 where
  pub id : String
  pub branch_id : String
  pub user_id : String
  pub status : TeacherStatus
  pub birth_date : String
  pub gender : String
  pub phone : String
  pub address : String
  pub profile_photo_file_id : String
  pub created_at : Time
  pub updated_at : Time

pub record TeacherFinanceRecord : Type 0 where
  pub id : String
  pub branch_id : String
  pub branch_name : String
  pub user_id : String
  pub email : String
  pub first_name : String
  pub last_name : String
  pub profile_photo_file_id : String
  pub subject : String
  pub status : TeacherStatus
  pub salary_type : SalaryModelType
  pub assigned_students : ℤ
  pub calculated_salary_amount_cents : ℤ
  pub created_at : Time
  pub updated_at : Time

pub record Course : Type 0 where
  pub id : String
  pub branch_id : String
  pub name : String
  pub is_active : Bool
  pub created_at : Time
  pub updated_at : Time

pub record ScoreCategory : Type 0 where
  pub id : String
  pub branch_id : String
  pub course_id : String
  pub name : String
  pub min_score : ℤ
  pub max_score : ℤ
  pub requires_feedback : Bool
  pub requires_document : Bool
  pub document_purpose : String
  pub sort_order : ℤ
  pub created_at : Time

pub record Class : Type 0 where
  pub id : String
  pub branch_id : String
  pub course_id : String
  pub teacher_id : String
  pub name : String
  pub start_date : Time
  pub end_date : Option Time
  pub is_active : Bool
  pub created_at : Time
  pub updated_at : Time

pub record ClassStudent : Type 0 where
  pub id : String
  pub branch_id : String
  pub class_id : String
  pub student_id : String
  pub joined_at : Time
  pub left_at : Option Time
  pub created_at : Time

pub record Assignment : Type 0 where
  pub id : String
  pub branch_id : String
  pub class_id : String
  pub title : String
  pub description : String
  pub due_at : Option Time
  pub material_file_id : String
  pub created_by_user_id : String
  pub created_at : Time
  pub updated_at : Time

pub record Room : Type 0 where
  pub id : String
  pub branch_id : String
  pub name : String
  pub capacity : ℤ
  pub is_active : Bool
  pub created_at : Time
  pub updated_at : Time

pub record ScheduleItem : Type 0 where
  pub id : String
  pub branch_id : String
  pub class_id : String
  pub teacher_id : String
  pub room_id : String
  pub item_type : ScheduleItemType
  pub title : String
  pub starts_at : Time
  pub ends_at : Time
  pub created_by_user_id : String
  pub cancelled_at : Option Time
  pub created_at : Time
  pub updated_at : Time

pub record Exam : Type 0 where
  pub id : String
  pub branch_id : String
  pub course_id : String
  pub class_id : String
  pub schedule_item_id : String
  pub title : String
  pub created_by_user_id : String
  pub created_at : Time
  pub updated_at : Time

pub record ExamParticipant : Type 0 where
  pub exam_id : String
  pub student_id : String
  pub branch_id : String
  pub rsvp_status : RsvpStatus

pub record ExamResult : Type 0 where
  pub id : String
  pub branch_id : String
  pub exam_id : String
  pub student_id : String
  pub category_id : String
  pub score : ℤ
  pub feedback : String
  pub document_file_id : String
  pub entered_by_teacher_id : String
  pub created_at : Time
  pub updated_at : Time

pub record Payment : Type 0 where
  pub id : String
  pub branch_id : String
  pub student_id : String
  pub amount_cents : ℤ
  pub currency : String
  pub due_date : Time
  pub paid_at : Option Time
  pub status : PaymentStatus
  pub receipt_file_id : String
  pub created_by_user_id : String
  pub created_at : Time
  pub updated_at : Time

pub record SalaryModel : Type 0 where
  pub id : String
  pub branch_id : String
  pub teacher_id : String
  pub model_type : SalaryModelType
  pub fixed_monthly_amount_cents : ℤ
  pub student_percent_basis_points : ℤ
  pub active_from : Time
  pub active_to : Option Time
  pub approved_by_owner_user_id : String
  pub created_at : Time

pub record FileObject : Type 0 where
  pub id : String
  pub branch_id : String
  pub uploader_user_id : String
  pub owner_type : String
  pub owner_id : String
  pub category : FileCategory
  pub policy : FilePolicy
  pub purpose : FilePurpose
  pub original_filename : String
  pub mime_type : String
  pub original_size_bytes : ℤ
  pub stored_size_bytes : ℤ
  pub original_sha256 : String
  pub storage_bucket : String
  pub storage_key : String
  pub retention_until : Option Time
  pub deleted_at : Option Time
  pub created_at : Time

pub record Notification : Type 0 where
  pub id : String
  pub branch_id : String
  pub recipient_user_id : String
  pub type : String
  pub payload : Json
  pub dedupe_key : String
  pub read_at : Option Time
  pub created_at : Time

pub record OutboxEvent : Type 0 where
  pub id : String
  pub topic : String
  pub payload : Json
  pub status : OutboxEventStatus
  pub attempts : ℤ
  pub next_attempt_at : Time
  pub locked_at : Option Time
  pub last_error : String
  pub published_at : Option Time
  pub created_at : Time

pub record AcademicDashboard : Type 0 where
  pub branch_id : String
  pub active_students : ℤ
  pub active_teachers : ℤ
  pub active_classes : ℤ
  pub upcoming_schedule : ℤ
  pub pending_payments : ℤ
  pub writing_files_retained : ℤ
