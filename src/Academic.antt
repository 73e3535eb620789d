-- ===== src/Academic.antt =====
-- The services of backend/internal/academic, on the store in memory: each function takes the store
-- and returns the result with the store that is left behind.
pub mod Dates
pub mod Steps
pub mod Ways
pub mod Filters
pub mod Inputs
pub mod Rooms
pub mod Schedule
pub mod Branches
pub mod Staff
pub mod Courses
pub mod Classes
pub mod Exams
pub mod Students
pub mod Teachers
pub mod Isolation
pub mod Calls
pub mod Visibility
pub mod Refinement
mod Tests
