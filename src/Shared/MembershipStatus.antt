-- ===== src/Shared/MembershipStatus.antt =====
-- shared/constants.ts: `MembershipStatus`. A row keeps what a revoked member was: the status less 128.
use vaultur.Prelude.Int.{ℤ, pos, negsuc}

abbrev pub revoked : ℤ
revoked = negsuc 0

abbrev pub invited : ℤ
invited = pos 0

abbrev pub accepted : ℤ
accepted = pos 1

abbrev pub confirmed : ℤ
confirmed = pos 2
