-- ===== src/EmergencyAccess/Listing.antt =====
-- api/emergency-access.ts: the two listings.
use vaultur.Prelude.{ℕ, String, Option, none, some, bind_option, List, [], ◌∷◌}
use vaultur.Prelude.Table.{find_many}
use vaultur.Prelude.{◌≡◌, arith, ◌==◌, string_instance, holds}
use vaultur.Shared.{EmergencyAccessStatus}
use vaultur.Web.{M, pure, ◌>>◌}
use vaultur.Db.{Db, User, EmergencyAccess}
use vaultur.Context.{Context}
use vaultur.Users.{find_user_by_uuid, find_user_by_email}
use vaultur.EmergencyAccess.Common.{ensure_enabled}

-- The details of the other party, as the two listings answer them.
pub record Details : Type 0 where
  pub id : String
  pub status : EmergencyAccessStatus
  pub atype : ℕ
  pub wait_time_days : ℕ
  pub other_id : Option String
  pub email : Option String
  pub name : Option String
  pub avatar_color : Option String

abbrev details : EmergencyAccess → Option User → Option String → Details
details ea none email = record {
  id = ea.uuid;
  status = ea.status;
  atype = ea.atype;
  wait_time_days = ea.wait_time_days;
  other_id = none;
  email = email;
  name = none;
  avatar_color = none;
}
details ea (some u) email = record {
  id = ea.uuid;
  status = ea.status;
  atype = ea.atype;
  wait_time_days = ea.wait_time_days;
  other_id = some u.uuid;
  email = some u.email;
  name = some u.name;
  avatar_color = u.avatar_color;
}

-- The grantee of a row: by uuid, and if that finds nobody, by the address invited.
abbrev find_grantee : Context → Db → EmergencyAccess → Option User
find_grantee c d ea = elim (bind_option ea.grantee_uuid (λ id. find_user_by_uuid id d)) [
  | none ↦ bind_option ea.email (λ email. find_user_by_email c email d)
  | some u ↦ some u
]

abbrev list_details :
    (EmergencyAccess → Option User)
    → (EmergencyAccess → Option String)
    → List EmergencyAccess
    → List Details
list_details f email [] = []
list_details f email (ea ∷ rows) = details ea (f ea) (email ea) ∷ list_details f email rows

-- GET /emergency-access/trusted
pub trusted : Context → M Db (List Details)
trusted c = do
  ensure_enabled c
  λ d.
      pure
        (list_details (find_grantee c d) (λ ea. ea.email)
          (find_many (λ ea. ea.grantor_uuid == c.user.uuid) d.emergency_access))
        d

-- GET /emergency-access/granted
pub granted : Context → M Db (List Details)
granted c = do
  ensure_enabled c
  λ d.
      pure
        (list_details (λ ea. find_user_by_uuid ea.grantor_uuid d) (λ _. none)
          (find_many (λ ea. holds ea.grantee_uuid c.user.uuid) d.emergency_access))
        d

pub trusted-keeps : (c : Context) (d : Db) → (trusted c d).0.emergency_access ≡ d.emergency_access
unfolding trusted ensure_enabled
trusted-keeps c d = ground arith

pub granted-keeps : (c : Context) (d : Db) → (granted c d).0.emergency_access ≡ d.emergency_access
unfolding granted ensure_enabled
granted-keeps c d = ground arith
