-- ===== src/Shared/SendType.antt =====
-- shared/constants.ts: `SendType`.
use vaultur.Prelude.{ℕ}

abbrev pub text : ℕ
text = 0

abbrev pub file : ℕ
file = 1
