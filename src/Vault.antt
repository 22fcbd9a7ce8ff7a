-- ===== src/Vault.antt =====
-- services/vault.ts.
pub mod Sync
pub mod Access
pub mod Grants
pub mod Visible
pub mod Tables
pub mod Writers
mod Tests
