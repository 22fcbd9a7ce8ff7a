-- ===== src/EmergencyAccess/Common.antt =====
-- api/emergency-access.ts: what its handlers share.
use vaultur.Prelude.{
  ℕ, String, Bool, Option, none, some, ◌==◌, string_instance, ◌&&◌, not, holds, ◌∷◌,
}
use vaultur.Prelude.Table.{find_first, update_where}
use vaultur.Shared.{EmergencyAccessStatus}
use vaultur.Web.{ok, M, modify, not_found, err_if}
use vaultur.Db.{EmergencyAccess, Db, Effect}
use vaultur.Context.{Context}

-- `ensureEnabled`
unfoldable pub ensure_enabled : Context → M Db (Unit {0})
ensure_enabled c = err_if (not c.config.emergency_access_allowed) "Emergency access is not allowed."

-- `baseJson`
pub record Summary : Type 0 where
  pub id : String
  pub status : EmergencyAccessStatus
  pub atype : ℕ
  pub wait_time_days : ℕ

abbrev pub summary : EmergencyAccess → Summary
summary ea = record {
  id = ea.uuid;
  status = ea.status;
  atype = ea.atype;
  wait_time_days = ea.wait_time_days;
}

-- The two conditions on which the loaders select.
abbrev pub is_granted_by : String → String → EmergencyAccess → Bool
is_granted_by id user ea = ea.uuid == id && ea.grantor_uuid == user

abbrev pub is_granted_to : String → String → EmergencyAccess → Bool
is_granted_to id user ea = ea.uuid == id && holds ea.grantee_uuid user

abbrev or_not_found : Option EmergencyAccess → M Db EmergencyAccess
or_not_found none d = not_found "Emergency access not valid." d
or_not_found (some ea) d = (d, ok ea)

-- `loadForGrantor`
unfoldable pub load_for_grantor : Context → String → M Db EmergencyAccess
load_for_grantor c id d =
    or_not_found (find_first (is_granted_by id c.user.uuid) d.emergency_access) d

-- `loadForGrantee`
unfoldable pub load_for_grantee : Context → String → M Db EmergencyAccess
load_for_grantee c id d =
    or_not_found (find_first (is_granted_to id c.user.uuid) d.emergency_access) d

-- `db.update(emergencyAccess).set(…).where(eq(emergencyAccess.uuid, id))`
unfoldable pub set_where_uuid : String → (EmergencyAccess → EmergencyAccess) → M Db (Unit {0})
set_where_uuid id f =
    modify
      λ d. record d { emergency_access = update_where (λ ea. ea.uuid == id) f d.emergency_access }

-- A mail handed to `waitUntil`.
abbrev pub send_mail : String → String → Option String → M Db (Unit {0})
send_mail template to token =
    modify λ d. record d { outbox = Effect.mail template to token ∷ d.outbox }
