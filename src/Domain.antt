-- ===== src/Domain.antt =====
-- The vocabulary of the backend: backend/internal/domain.
mod Errors
mod Enums
mod Entities
mod Rules
mod Texts
mod Salary
mod Tests
pub mod Overlap
pub mod Paging
pub mod Swap
pub mod Fin
pub use Errors.*
pub use Enums.*
pub use Entities.*
pub use Texts.*
unfoldable pub use Rules.*
unfoldable pub use Salary.*
