-- ===== src/EmergencyAccess/Tests.antt =====
-- Alice trusts Bob, who recovers her account.
use vaultur.Prelude.{none, some, ◌≡◌, ◌≢◌, refl, List, [], ◌∷◌, Memᴰ, arith, string_instance}
use vaultur.Prelude.Table.{find_first, update_where}
use vaultur.Shared.{recovery_approved, confirmed}
use vaultur.Web.{ok}
use vaultur.Db.{EmergencyAccess, Db, empty_db}
use vaultur.Context.{Context, mailer_enabled}
use vaultur.Users.{find_user_by_uuid}
use vaultur.Fixtures.{alice, bob, as_user}
use vaultur.EmergencyAccess.Common.{
  ensure_enabled, load_for_grantee, load_for_grantor, set_where_uuid,
}
use vaultur.EmergencyAccess.Recovery.{
  PasswordBody, set_password, load_valid, is_valid_request, initiate, approve,
}
use vaultur.EmergencyAccess.Invitation.{mail_grantee}
use vaultur.EmergencyAccess.Routes.{Request, handle, run}
use vaultur.EmergencyAccess.Steps.{Explained, Survives, every_row-Explained}
use vaultur.Prelude.Table.{All}
use vaultur.EmergencyAccess.Unique.{Unique}
use vaultur.EmergencyAccess.Approval.{
  IsApproved, IsTakeover, IsApproved-by_grantor, set_password-IsTakeover, IsTakeover-needs_approval,
}

abbrev trust : EmergencyAccess
trust = record {
  uuid = "ea";
  grantor_uuid = "a";
  grantee_uuid = some "b";
  email = none;
  key_encrypted = some "key";
  atype = 1;
  status = confirmed;
  wait_time_days = 7;
  recovery_initiated_at = none;
  last_notification_at = none;
  updated_at = 0;
  created_at = 0;
}

abbrev start : Db
start = record empty_db { users = alice ∷ bob ∷ []; emergency_access = trust ∷ [] }

abbrev history : List (Context × Request)
history = (as_user bob, Request.initiate "ea") ∷ (as_user alice, Request.approve "ea") ∷ []

abbrev new_password : PasswordBody
new_password = record { new_master_password_hash = some "new"; key = some "new key" }

start-Unique : Unique start.emergency_access
start-Unique = (λ y m. elim m [ ], tt)

none_approved : (x : EmergencyAccess) → Memᴰ x start.emergency_access → x.status ≢ recovery_approved
none_approved x (Memᴰ.head e) s = ground arith
none_approved x (Memᴰ.tail m) s = elim m [ ]

abbrev approved_row : EmergencyAccess
approved_row = record trust {
  status = recovery_approved;
  updated_at = 1000;
  recovery_initiated_at = some 1000;
}

after-row : (run history start).emergency_access ≡ approved_row ∷ []
unfolding run handle initiate approve ensure_enabled load_for_grantee load_for_grantor
    set_where_uuid find_user_by_uuid mailer_enabled mail_grantee find_first update_where
after-row = refl

approved_row-mem : Memᴰ approved_row (run history start).emergency_access
approved_row-mem = rw after-row (Memᴰ.head refl)

abbrev taken : Db
taken = (set_password (as_user bob) "ea" "salt" "stamp" new_password (run history start)).0

took :
    set_password (as_user bob) "ea" "salt" "stamp" new_password (run history start) ≡ (taken, ok tt)
unfolding run handle initiate approve ensure_enabled load_for_grantee load_for_grantor
    set_where_uuid find_user_by_uuid mailer_enabled mail_grantee find_first update_where
    set_password load_valid is_valid_request
took = refl

IsTakeover-needs_approval_example :
    (t : IsTakeover (as_user bob) "ea" "salt" "stamp" new_password (run history start) taken)
    × IsApproved history t.row
IsTakeover-needs_approval_example =
    IsTakeover-needs_approval history start taken (as_user bob) "ea" "salt" "stamp" new_password
      start-Unique none_approved took

set_password-IsTakeover_example :
    IsTakeover (as_user bob) "ea" "salt" "stamp" new_password (run history start) taken
set_password-IsTakeover_example =
    set_password-IsTakeover (as_user bob) "ea" "salt" "stamp" new_password (run history start) taken
      took

IsApproved-by_grantor_example : IsApproved history approved_row
IsApproved-by_grantor_example =
    IsApproved-by_grantor history start start-Unique none_approved approved_row approved_row-mem
      refl

every_row-Explained_example :
    All
      (Explained (as_user bob) (Request.initiate "ea") start.emergency_access)
      (handle (as_user bob) (Request.initiate "ea") start).emergency_access
    × All
        (Survives
          (as_user bob)
          (Request.initiate "ea")
          (handle (as_user bob) (Request.initiate "ea") start).emergency_access)
        start.emergency_access
every_row-Explained_example =
    every_row-Explained (as_user bob) start (Request.initiate "ea") start-Unique
