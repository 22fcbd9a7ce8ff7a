-- ===== src/EmergencyAccess.antt =====
-- api/emergency-access.ts.
pub mod Common
pub mod Listing
pub mod Invitation
pub mod Recovery
pub mod Routes
pub mod Cases
pub mod Edges
pub mod Steps
pub mod Unique
pub mod Approval
mod Tests
