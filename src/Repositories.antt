-- ===== src/Repositories.antt =====
-- The repositories: backend/src/adapters/out/persistence/prisma/repositories over the tables of
-- the world. Each method is one statement of the database, which runs whole or not at all.
pub mod Slots
pub mod Reservations
pub mod Sessions
pub mod Branches
