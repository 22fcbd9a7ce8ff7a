-- ===== src/Shared/EventType.antt =====
-- shared/constants.ts: `EventType`.
use vaultur.Prelude.{ℕ}

abbrev pub user_logged_in : ℕ
user_logged_in = 1000

abbrev pub cipher_created : ℕ
cipher_created = 1100

abbrev pub cipher_updated : ℕ
cipher_updated = 1101

abbrev pub cipher_deleted : ℕ
cipher_deleted = 1102

abbrev pub cipher_shared : ℕ
cipher_shared = 1105

abbrev pub cipher_updated_collections : ℕ
cipher_updated_collections = 1106

abbrev pub cipher_soft_deleted : ℕ
cipher_soft_deleted = 1115

abbrev pub cipher_restored : ℕ
cipher_restored = 1116

abbrev pub collection_created : ℕ
collection_created = 1300

abbrev pub collection_updated : ℕ
collection_updated = 1301

abbrev pub collection_deleted : ℕ
collection_deleted = 1302

abbrev pub group_created : ℕ
group_created = 1400

abbrev pub group_updated : ℕ
group_updated = 1401

abbrev pub group_deleted : ℕ
group_deleted = 1402

abbrev pub organization_user_invited : ℕ
organization_user_invited = 1500

abbrev pub organization_user_confirmed : ℕ
organization_user_confirmed = 1501

abbrev pub organization_user_updated : ℕ
organization_user_updated = 1502

abbrev pub organization_user_removed : ℕ
organization_user_removed = 1503

abbrev pub organization_user_revoked : ℕ
organization_user_revoked = 1511

abbrev pub organization_user_restored : ℕ
organization_user_restored = 1512

abbrev pub policy_updated : ℕ
policy_updated = 1700

abbrev pub organization_user_admin_reset_password : ℕ
organization_user_admin_reset_password = 1508

abbrev pub organization_user_reset_password_enroll : ℕ
organization_user_reset_password_enroll = 1506

abbrev pub organization_user_reset_password_withdraw : ℕ
organization_user_reset_password_withdraw = 1507

abbrev pub user_client_exported_vault : ℕ
user_client_exported_vault = 1007

abbrev pub organization_purged_vault : ℕ
organization_purged_vault = 1601

abbrev pub organization_updated : ℕ
organization_updated = 1600

abbrev pub organization_client_exported_vault : ℕ
organization_client_exported_vault = 1602
