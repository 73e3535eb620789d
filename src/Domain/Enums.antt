-- ===== src/Domain/Enums.antt =====
-- The string types of role.go, salary.go, file_policy.go and entities.go that have named constants.
-- `other` is any text beside the constants; the unset field of a Go struct is `other ""`.
use kingsway_academy.Base.{String, Bool, true, false, ◌==◌, ◌≡◌, refl, ap, arith, eq_iff, eq_refl}

pub data Role : Type 0 where
  owner receptionist teacher student : Role
  other : String → Role

pub data IdempotencyStatus : Type 0 where
  pending completed : IdempotencyStatus
  other : String → IdempotencyStatus

pub data StudentStatus : Type 0 where
  active graduated left : StudentStatus
  other : String → StudentStatus

pub data TeacherStatus : Type 0 where
  pending active terminated : TeacherStatus
  other : String → TeacherStatus

pub data ScheduleItemType : Type 0 where
  lesson exam event : ScheduleItemType
  other : String → ScheduleItemType

pub data RsvpStatus : Type 0 where
  pending accepted declined : RsvpStatus
  other : String → RsvpStatus

pub data PaymentStatus : Type 0 where
  pending paid overdue cancelled : PaymentStatus
  other : String → PaymentStatus

pub data SalaryModelType : Type 0 where
  fixed percent hybrid : SalaryModelType
  other : String → SalaryModelType

pub data FileCategory : Type 0 where
  standard special : FileCategory
  other : String → FileCategory

pub data FilePolicy : Type 0 where
  standard_ui standard_downloadable special : FilePolicy
  other : String → FilePolicy

pub data FilePurpose : Type 0 where
  material payment_receipt event passport diploma profile_photo exam_writing : FilePurpose
  other : String → FilePurpose

pub data OutboxEventStatus : Type 0 where
  pending publishing published failed : OutboxEventStatus
  other : String → OutboxEventStatus

-- `==` on the roles
abbrev pub eq_role : Role → Role → Bool
eq_role Role.owner Role.owner = true
eq_role Role.receptionist Role.receptionist = true
eq_role Role.teacher Role.teacher = true
eq_role Role.student Role.student = true
eq_role (Role.other s) (Role.other t) = s == t
eq_role _ _ = false

-- `==` on the categories of files
abbrev pub eq_category : FileCategory → FileCategory → Bool
eq_category FileCategory.standard FileCategory.standard = true
eq_category FileCategory.special FileCategory.special = true
eq_category (FileCategory.other s) (FileCategory.other t) = s == t
eq_category _ _ = false

pub eq_role_lem : (a b : Role) → eq_role a b ≡ true → a ≡ b
eq_role_lem Role.owner Role.owner h = refl
eq_role_lem Role.receptionist Role.receptionist h = refl
eq_role_lem Role.teacher Role.teacher h = refl
eq_role_lem Role.student Role.student h = refl
eq_role_lem (Role.other s) (Role.other t) h = ap Role.other (ground (arith, eq_iff s t))
eq_role_lem _ _ h = absurd (ground arith)

pub eq_role_refl : (a : Role) → eq_role a a ≡ true
eq_role_refl Role.owner = refl
eq_role_refl Role.receptionist = refl
eq_role_refl Role.teacher = refl
eq_role_refl Role.student = refl
eq_role_refl (Role.other s) = eq_refl s
