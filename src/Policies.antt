-- ===== src/Policies.antt =====
-- The interchangeable policies of backend/src/core/domain/policies.
pub mod Assignment
pub mod Eligibility
pub mod Parking
pub mod Pricing
