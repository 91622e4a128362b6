-- ===== src/UseCases.antt =====
-- The use cases of backend/src/core/application/use-cases.
pub mod CreateReservation
pub mod CancelReservation
pub mod ExpireReservations
pub mod RegisterEntry
pub mod RegisterExit
pub mod Queries
pub mod Lists
pub mod Admin
