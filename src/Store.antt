-- ===== src/Store.antt =====
-- The database as the services see it: rows of packages/database/src/schema and the statements
-- that select and change them.
pub mod Tables
pub mod Rows
pub mod Keyed
