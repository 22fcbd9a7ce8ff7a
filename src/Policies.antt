-- ===== src/Policies.antt =====
-- services/policies.ts.
pub mod MasterPassword
pub mod Strictest
mod Tests
