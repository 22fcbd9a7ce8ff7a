-- ===== src/Shared/EmergencyAccessType.antt =====
-- shared/constants.ts: `EmergencyAccessType`.
use vaultur.Prelude.{ℕ}

abbrev pub view : ℕ
view = 0

abbrev pub takeover : ℕ
takeover = 1
