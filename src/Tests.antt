-- ===== src/Tests.antt =====
-- Tests, and the theorems at concrete inputs.
mod Data
mod Tables
mod Requests
mod Branches
mod Payments
mod Breaker
mod Auth
mod Tokens
mod Realtime
mod Services
mod Worker
