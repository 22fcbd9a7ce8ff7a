-- ===== src/AuthRequests.antt =====
-- api/auth-requests.ts.
pub mod Handlers
pub mod Sealed
pub mod Final
pub mod Once
mod Tests
