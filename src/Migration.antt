-- ===== src/Migration.antt =====
-- The package internal/migration: files and their names, their order, and SQL statements.
pub mod Checksum
pub mod Filename
pub mod Order
pub mod Statement
pub mod Discovery
