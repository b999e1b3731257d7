-- ===== src/Suite/Messages.antt =====
-- The tests of the JSON form of a message (message.rs).
pub mod Members
pub mod Marks
pub mod Edges
