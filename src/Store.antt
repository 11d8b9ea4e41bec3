-- ===== src/Store.antt =====
-- The database and the other state that a handler reads and writes.
pub mod Rows
pub mod Table
pub mod World
pub mod Keeps
pub mod Keyed
