-- ===== src/OrgMembers/Restored.antt =====
-- A revoked member who is restored is what they were.
use vaultur.Prelude.{nat_instance, string_instance}
use vaultur.Prelude.Int.{int_instance}
use vaultur.Shared.MembershipStatus
use vaultur.Shared.MembershipType
use vaultur.Db.{Db}
use vaultur.Context.{Context}
