-- ===== src/Store.antt =====
-- The in-memory store of backend/internal/store.
pub mod State
pub mod Keeps
pub mod Indexes
pub mod Branches
pub mod Users
pub mod Staff
pub mod Students
pub mod Teachers
pub mod Rooms
pub mod Courses
pub mod Payments
pub mod Files
pub mod Schedules
pub mod Idempotency
pub mod Academic
pub mod Notifications
pub mod Listings
pub mod Pages
pub mod TeacherFinance
pub mod Enrolment
pub mod Reach
pub mod Cascade
pub mod Touches
mod Tests
pub mod Booking
pub mod Untouched
pub mod Originals
pub mod Replay
