-- ===== src/Message.antt =====
-- The package repo/message: futures, and the ids that lead to them.
pub mod Future
pub mod Ids
