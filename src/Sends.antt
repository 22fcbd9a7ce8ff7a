-- ===== src/Sends.antt =====
-- api/sends.ts.
pub mod Common
pub mod Access
pub mod Manage
pub mod Guards
pub mod Counting
pub mod Limit
pub mod Owner
pub mod New
mod Tests
