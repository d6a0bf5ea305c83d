-- ===== src/System.antt =====
-- The services together, over the table of connections they share.
pub mod Life
pub mod Upsert
pub mod Moves
pub mod Frames
pub mod Requests
pub mod Steps
pub mod Distinct
pub mod Runs
mod Tests
