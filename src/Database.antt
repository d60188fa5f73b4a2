-- ===== src/Database.antt =====
-- The database.
pub mod Table
pub mod Rows
pub mod Exec
pub mod Keeps
pub mod Tasks
pub mod Due
pub mod Versions
pub mod Registrations
pub mod After
