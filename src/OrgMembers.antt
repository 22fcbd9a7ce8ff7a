-- ===== src/OrgMembers.antt =====
-- api/org-members.ts: the members of an organization, its groups, its policies and account recovery.
pub mod Common
pub mod Invite
pub mod Lifecycle
pub mod Groups
pub mod Recovery
pub mod PolicyRoutes
pub mod Listing
pub mod Moves
pub mod Kept
pub mod Writes
pub mod Acceptance
pub mod MemberMoves
pub mod EditMoves
pub mod InviteMoves
pub mod PolicyMoves
pub mod GroupKeeps
pub mod RecoveryMoves
pub mod Routes
pub mod Owners
pub mod Outsiders
pub mod Restored
pub mod Recovered
pub mod Wire
pub mod Enforced
pub mod Tests
