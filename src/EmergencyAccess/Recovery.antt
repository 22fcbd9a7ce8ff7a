-- ===== src/EmergencyAccess/Recovery.antt =====
-- api/emergency-access.ts: the recovery flow, and what an approved recovery opens.
use vaultur.Prelude.{
  ℕ, String, Bool, Option, none, some, ◌==◌, nat_instance, string_instance, ◌&&◌, ◌||◌, not, holds,
  truthy, or_else, List,
}
use vaultur.Prelude.Table.{find_many, update_where, delete_where}
use vaultur.Shared.{emergency_access_status_eq, confirmed, recovery_initiated, recovery_approved}
use vaultur.Shared.EmergencyAccessType
use vaultur.Web.{ok, M, pure, ◌>>=◌, ◌>>◌, modify, get, bad_request, when, err_if}
use vaultur.Db.{EmergencyAccess, Db, User, Cipher}
use vaultur.Context.{Context, mailer_enabled}
use vaultur.Users.{find_user_by_uuid, PasswordFields, password_fields}
use vaultur.EmergencyAccess.Common.{
  ensure_enabled, Summary, summary, load_for_grantor, load_for_grantee, set_where_uuid,
}
use vaultur.EmergencyAccess.Invitation.{mail_user, mail_grantee}

abbrev pub initiated_at : Context → EmergencyAccess → EmergencyAccess
initiated_at c r = record r {
  status = recovery_initiated;
  recovery_initiated_at = some c.now;
  updated_at = c.now;
}

-- POST /emergency-access/:id/initiate
unfoldable pub initiate : Context → String → M Db Summary
initiate c id = do
  ensure_enabled c
  ea ← load_for_grantee c id
  err_if (not (ea.status == confirmed)) "Emergency access not confirmed."
  set_where_uuid ea.uuid (initiated_at c)
  grantor ← get (find_user_by_uuid ea.grantor_uuid)
  when (mailer_enabled c) (mail_user "emergency_access_recovery_initiated" grantor)
  pure (summary (record ea { status = recovery_initiated }))

abbrev pub approved_at : Context → EmergencyAccess → EmergencyAccess
approved_at c r = record r { status = recovery_approved; updated_at = c.now }

-- POST /emergency-access/:id/approve
unfoldable pub approve : Context → String → M Db (Unit {0})
approve c id = do
  ensure_enabled c
  ea ← load_for_grantor c id
  err_if (not (ea.status == recovery_initiated)) "Emergency access not in recovery-initiated state."
  set_where_uuid ea.uuid (approved_at c)
  mail_grantee c "emergency_access_recovery_approved" ea

abbrev pub rejected_at : Context → EmergencyAccess → EmergencyAccess
rejected_at c r = record r { status = confirmed; recovery_initiated_at = none; updated_at = c.now }

-- POST /emergency-access/:id/reject
unfoldable pub reject : Context → String → M Db (Unit {0})
reject c id = do
  ensure_enabled c
  ea ← load_for_grantor c id
  err_if (not (ea.status == recovery_initiated) && not (ea.status == recovery_approved))
      "Emergency access not in recovery state."
  set_where_uuid ea.uuid (rejected_at c)
  mail_grantee c "emergency_access_recovery_rejected" ea

-- `isValidRequest`
unfoldable pub is_valid_request : EmergencyAccess → String → ℕ → Bool
is_valid_request ea grantee atype =
    holds ea.grantee_uuid grantee && ea.status == recovery_approved && ea.atype == atype

-- What the handlers below have in common: the grantee's row, approved for the type asked.
unfoldable pub load_valid : Context → String → ℕ → M Db EmergencyAccess
load_valid c id atype = do
  ensure_enabled c
  ea ← load_for_grantee c id
  err_if (not (is_valid_request ea c.user.uuid atype)) "Emergency access not valid."
  pure ea

pub record View : Type 0 where
  pub ciphers : List Cipher
  pub key_encrypted : Option String

-- POST /emergency-access/:id/view: the items that are answered, before `cipherToJson`.
unfoldable pub view : Context → String → M Db View
view c id = do
  ea ← load_valid c id EmergencyAccessType.view
  ciphers ← get (λ d. find_many (λ cipher. holds cipher.user_uuid ea.grantor_uuid) d.ciphers)
  pure (record { ciphers = ciphers; key_encrypted = ea.key_encrypted })

pub record Takeover : Type 0 where
  pub kdf : ℕ
  pub kdf_iterations : ℕ
  pub kdf_memory : Option ℕ
  pub kdf_parallelism : Option ℕ
  pub key_encrypted : Option String

abbrev require_grantor : Option User → M Db User
require_grantor none d = bad_request "Grantor user not found." d
require_grantor (some u) d = (d, ok u)

-- POST /emergency-access/:id/takeover
unfoldable pub takeover : Context → String → M Db Takeover
takeover c id = do
  ea ← load_valid c id EmergencyAccessType.takeover
  found ← get (find_user_by_uuid ea.grantor_uuid)
  grantor ← require_grantor found
  pure (record {
    kdf = grantor.client_kdf_type;
    kdf_iterations = grantor.client_kdf_iter;
    kdf_memory = grantor.client_kdf_memory;
    kdf_parallelism = grantor.client_kdf_parallelism;
    key_encrypted = ea.key_encrypted;
  })

pub record PasswordBody : Type 0 where
  pub new_master_password_hash : Option String
  pub key : Option String

-- The grantor's row under the new password.
unfoldable pub with_password : Context → PasswordFields → String → String → User → User
with_password c pw key stamp u = record u {
  password_hash = pw.password_hash;
  salt = pw.salt;
  password_iterations = pw.password_iterations;
  akey = key;
  security_stamp = stamp;
  updated_at = c.now;
}

-- POST /emergency-access/:id/password, with the random salt and security stamp
unfoldable pub set_password : Context → String → String → String → PasswordBody → M Db (Unit {0})
set_password c id salt stamp body = do
  ea ← load_valid c id EmergencyAccessType.takeover
  err_if (not (truthy body.new_master_password_hash) || not (truthy body.key))
      "Missing required fields"
  let pw = password_fields c salt (or_else body.new_master_password_hash "")
  modify λ d. record d {
    users =
        update_where (λ u. u.uuid == ea.grantor_uuid)
          (with_password c pw (or_else body.key "") stamp) d.users;
  }
  modify
      λ d. record d { twofactor = delete_where (λ t. t.user_uuid == ea.grantor_uuid) d.twofactor }

-- GET /emergency-access/:id/policies: always an empty list, of which only the guard is left.
unfoldable pub policies : Context → String → M Db (Unit {0})
policies c id = do ea ← load_valid c id EmergencyAccessType.takeover; pure tt
