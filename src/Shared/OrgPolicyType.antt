-- ===== src/Shared/OrgPolicyType.antt =====
-- shared/constants.ts: `OrgPolicyType`.
use vaultur.Prelude.{ℕ}

abbrev pub two_factor_authentication : ℕ
two_factor_authentication = 0

abbrev pub master_password : ℕ
master_password = 1

abbrev pub password_generator : ℕ
password_generator = 2

abbrev pub single_org : ℕ
single_org = 3

abbrev pub require_sso : ℕ
require_sso = 4

abbrev pub personal_ownership : ℕ
personal_ownership = 5

abbrev pub disable_send : ℕ
disable_send = 6

abbrev pub send_options : ℕ
send_options = 7

abbrev pub reset_password : ℕ
reset_password = 8
