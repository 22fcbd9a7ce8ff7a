-- ===== src/Shared/UpdateType.antt =====
-- shared/constants.ts: `UpdateType`.
use vaultur.Prelude.{ℕ}

abbrev pub sync_cipher_update : ℕ
sync_cipher_update = 0

abbrev pub sync_cipher_create : ℕ
sync_cipher_create = 1

abbrev pub sync_login_delete : ℕ
sync_login_delete = 2

abbrev pub sync_send_create : ℕ
sync_send_create = 12

abbrev pub sync_send_update : ℕ
sync_send_update = 13

abbrev pub sync_send_delete : ℕ
sync_send_delete = 14

abbrev pub auth_request : ℕ
auth_request = 15

abbrev pub auth_request_response : ℕ
auth_request_response = 16
