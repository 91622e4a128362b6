-- ===== src/Domain.antt =====
-- The domain model of the backend (backend/src/core/domain): enums, entities and errors.
-- A text that the program only stores, compares and sorts is the number of its place in the
-- database's collation order, and 0 is the empty text. A date is its time in milliseconds. An
-- amount of money is in cents. A double is its bit pattern.
pub mod Kinds
pub mod Enums
pub mod Entities
pub mod Errors
pub use Kinds.*
unfoldable pub use Enums.*
pub use Entities.*
pub use Errors.*
