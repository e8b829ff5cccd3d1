-- ===== src/Logic.antt =====
-- The logic package.
pub mod Calls
pub mod Token
pub mod UserState
pub mod States
pub mod Redis
pub mod Sessions
pub mod Script
pub mod Stays
