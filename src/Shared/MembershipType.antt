-- ===== src/Shared/MembershipType.antt =====
-- shared/constants.ts: `MembershipType`.
use vaultur.Prelude.{ℕ}

abbrev pub owner : ℕ
owner = 0

abbrev pub admin : ℕ
admin = 1

abbrev pub user : ℕ
user = 2

abbrev pub manager : ℕ
manager = 3
