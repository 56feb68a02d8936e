-- ===== src/Database.antt =====
-- The PostgreSQL database behind the API (packages/api/prisma/schema.prisma and the migrations):
-- rows, the state that a transaction works on, constraints, and transactions with rollback.
pub mod Json
pub mod Schema
pub mod Exec
pub mod Constraints
pub mod Ends
pub mod Keeps
