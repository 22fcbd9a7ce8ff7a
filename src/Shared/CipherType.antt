-- ===== src/Shared/CipherType.antt =====
-- shared/constants.ts: `CipherType`.
use vaultur.Prelude.{ℕ}

abbrev pub login : ℕ
login = 1

abbrev pub secure_note : ℕ
secure_note = 2

abbrev pub card : ℕ
card = 3

abbrev pub identity : ℕ
identity = 4

abbrev pub ssh_key : ℕ
ssh_key = 5
