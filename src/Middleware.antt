-- ===== src/Middleware.antt =====
-- auth/middleware.ts: the guard of the authenticated routes.
pub mod Auth
pub mod Authenticated
mod Tests
