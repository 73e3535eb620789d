-- ===== src/Academic/Inputs.antt =====
-- academic/inputs.go: what the handlers hand to the services. A score is a whole number.
use kingsway_academy.Base.{String, Bool, Option, List}
use kingsway_academy.Base.Int.{ℤ}
use kingsway_academy.Domain.{Time, StudentStatus, ScheduleItemType}

pub record CreateBranchInput : Type 0 where
  pub name : String
  pub slug : String
  pub address : String
  pub opening_time : String
  pub closing_time : String

pub record UpdateBranchInput : Type 0 where
  pub id : String
  pub name : String
  pub slug : String
  pub address : String
  pub opening_time : String
  pub closing_time : String

pub record CreateStaffInput : Type 0 where
  pub branch_id : String
  pub first_name : String
  pub last_name : String
  pub birth_date : String
  pub gender : String
  pub phone : String
  pub address : String
  pub hired_at : String
  pub salary_amount_azn : ℤ
  pub email : String
  pub password : String
  pub profile_photo_file_id : String

pub record UpdateStaffInput : Type 0 where
  pub id : String
  pub branch_id : String
  pub first_name : String
  pub last_name : String
  pub birth_date : String
  pub gender : String
  pub phone : String
  pub address : String
  pub hired_at : String
  pub salary_amount_azn : ℤ
  pub email : String
  pub password : String
  pub profile_photo_file_id : String
  pub is_active : Option Bool

pub record StudentParentInput : Type 0 where
  pub relation : String
  pub name : String
  pub phones : List String

pub record StudentCourseAssignInput : Type 0 where
  pub course_id : String
  pub teacher_id : String
  pub monthly_amount_cents : ℤ
  pub start_date : String

pub record CreateStudentInput : Type 0 where
  pub branch_id : String
  pub fin : String
  pub first_name : String
  pub last_name : String
  pub birth_date : String
  pub gender : String
  pub phone : String
  pub address : String
  pub profile_photo_file_id : String
  pub status : StudentStatus
  pub left_reason : String
  pub parents : List StudentParentInput
  pub courses : List StudentCourseAssignInput

pub record CreateStudentAccountInput : Type 0 where
  pub email : String
  pub password : String
  pub first_name : String
  pub last_name : String

pub record UpdateStudentInput : Type 0 where
  pub first_name : String
  pub last_name : String
  pub birth_date : String
  pub gender : String
  pub phone : String
  pub address : String
  pub profile_photo_file_id : String
  pub status : StudentStatus
  pub left_reason : String

pub record RegisterTeacherInput : Type 0 where
  pub branch_id : String
  pub email : String
  pub password : String
  pub first_name : String
  pub last_name : String
  pub birth_date : String
  pub gender : String
  pub phone : String
  pub address : String
  pub profile_photo_file_id : String
  pub course_ids : List String
  pub subjects : List String

pub record UpdateTeacherInput : Type 0 where
  pub id : String
  pub branch_id : String
  pub email : String
  pub password : String
  pub first_name : String
  pub last_name : String
  pub birth_date : String
  pub gender : String
  pub phone : String
  pub address : String
  pub profile_photo_file_id : String
  pub course_ids : List String
  pub subjects : List String

pub record CourseCategoryInput : Type 0 where
  pub name : String
  pub min_score : ℤ
  pub max_score : ℤ
  pub requires_feedback : Bool
  pub requires_document : Bool
  pub document_purpose : String

pub record CreateCourseInput : Type 0 where
  pub branch_id : String
  pub name : String
  pub categories : List CourseCategoryInput

pub record CreateClassInput : Type 0 where
  pub branch_id : String
  pub course_id : String
  pub teacher_id : String
  pub name : String
  pub start_date : Time
  pub end_date : Option Time

pub record EnrollStudentInput : Type 0 where
  pub branch_id : String
  pub class_id : String
  pub student_id : String
  pub joined_at : Time
  pub left_at : Option Time

pub record CreateAssignmentInput : Type 0 where
  pub branch_id : String
  pub class_id : String
  pub title : String
  pub description : String
  pub due_at : Option Time
  pub material_file_id : String

pub record CreateRoomInput : Type 0 where
  pub branch_id : String
  pub name : String
  pub capacity : ℤ

pub record UpdateRoomInput : Type 0 where
  pub id : String
  pub name : String
  pub capacity : ℤ

pub record CreateScheduleItemInput : Type 0 where
  pub branch_id : String
  pub class_id : String
  pub teacher_id : String
  pub room_id : String
  pub item_type : ScheduleItemType
  pub title : String
  pub starts_at : Time
  pub ends_at : Time

pub record CreateExamInput : Type 0 where
  pub branch_id : String
  pub course_id : String
  pub class_id : String
  pub schedule_item_id : String
  pub title : String
  pub participant_student_ids : List String

pub record CreateExamResultInput : Type 0 where
  pub branch_id : String
  pub exam_id : String
  pub student_id : String
  pub category_id : String
  pub score : ℤ
  pub feedback : String
  pub document_file_id : String
  pub entered_by_teacher_id : String
