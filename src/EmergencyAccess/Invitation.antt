-- ===== src/EmergencyAccess/Invitation.antt =====
-- api/emergency-access.ts: a relationship is offered, changed, removed, accepted and confirmed.
use vaultur.Prelude.{
  ℕ, ◌+◌, ◌*◌, ◌/◌, String, Bool, false, Option, none, some, ◌==◌, string_instance, ◌&&◌, ◌||◌, not,
  holds, truthy, or_else, is_some, ltb, map_option, if◌then◌else◌, ◌∷◌,
}
use vaultur.Prelude.Table.{find_first, delete_where}
use vaultur.Shared.{emergency_access_status_eq, invited, accepted, confirmed}
use vaultur.Shared.EmergencyAccessType
use vaultur.Web.{ok, M, pure, ◌>>=◌, ◌>>◌, modify, get, err_code, not_found, when, err_if}
use vaultur.Db.{EmergencyAccess, Db, User}
use vaultur.Db.Keys.{has_key}
use vaultur.Context.{Context, Claims, issuer, decode_jwt, mailer_enabled}
use vaultur.Users.{find_user_by_email, find_user_by_uuid}
use vaultur.EmergencyAccess.Common.{
  ensure_enabled, Summary, summary, load_for_grantor, set_where_uuid, send_mail,
}

pub record InviteBody : Type 0 where
  pub email : Option String
  pub atype : Option ℕ
  pub wait_time_days : Option ℕ

-- `db.insert(emergencyAccess).values(ea)`: a key that is taken is an exception, answered by a 500.
unfoldable pub insert_row : EmergencyAccess → M Db (Unit {0})
unfolding has_key
insert_row ea d =
    if has_key (λ r. r.uuid) ea.uuid d.emergency_access
    then err_code "Internal server error" 500 d
    else (record d { emergency_access = ea ∷ d.emergency_access }, ok tt)

-- The claims of an invitation's token, which lasts five days.
unfoldable pub invite_claims : Context → String → String → Claims
invite_claims c id email = record {
  iss = issuer c "emergencyaccessinvite";
  sub = id;
  exp = c.now / 1000 + 5 * 24 * 3600;
  emer_id = some id;
  member_id = none;
  org_id = none;
  email = some email;
  sstamp = "";
  device = "";
}

-- The row that `invite` makes, before the mailer is looked at.
unfoldable pub new_row : Context → String → String → ℕ → ℕ → Option User → EmergencyAccess
new_row c id email atype wait grantee = record {
  uuid = id;
  grantor_uuid = c.user.uuid;
  grantee_uuid = map_option (λ (u : User). u.uuid) grantee;
  email = if is_some grantee then none else some email;
  key_encrypted = none;
  atype = atype;
  status = invited;
  wait_time_days = wait;
  recovery_initiated_at = none;
  last_notification_at = none;
  updated_at = c.now;
  created_at = c.now;
}

-- Without mail, an invited user with an account has accepted at once.
unfoldable pub auto_accept : Option User → EmergencyAccess → EmergencyAccess
auto_accept none ea = ea
auto_accept (some u) ea = record ea { grantee_uuid = some u.uuid; email = none; status = accepted }

-- The end of `invite`: the row is stored, and answered.
unfoldable pub store_invitation : Context → String → Option User → EmergencyAccess → M Db Summary
store_invitation c email grantee ea =
    if mailer_enabled c
    then (do
      let token = c.platform.sign (invite_claims c ea.uuid email)
      insert_row ea
      send_mail "emergency_access_invite" email (some token)
      pure (summary ea))
    else (do insert_row (auto_accept grantee ea); pure (summary (auto_accept grantee ea)))

-- POST /emergency-access/invite, with the random uuid of the new row
unfoldable pub invite : Context → String → InviteBody → M Db Summary
invite c fresh body = do
  ensure_enabled c
  let email = c.platform.trim_lower (or_else body.email "")
  let atype = or_else body.atype EmergencyAccessType.view
  let wait = or_else body.wait_time_days 7
  err_if (email == "") "Email is required"
  err_if (email == c.user.email) "You cannot use yourself as an emergency contact"
  err_if (ltb wait 1) "Wait time must be at least 1 day"
  grantee ← get (find_user_by_email c email)
  store_invitation c email grantee (new_row c fresh email atype wait grantee)

-- GET /emergency-access/:id
unfoldable pub show : Context → String → M Db Summary
show c id = do ensure_enabled c; ea ← load_for_grantor c id; pure (summary ea)

pub record UpdateBody : Type 0 where
  pub atype : Option ℕ
  pub wait_time_days : Option ℕ

-- `updateEa`
unfoldable pub update_ea : Context → String → UpdateBody → M Db Summary
update_ea c id body = do
  ensure_enabled c
  ea ← load_for_grantor c id
  let atype = or_else body.atype ea.atype
  let wait = or_else body.wait_time_days ea.wait_time_days
  err_if (ltb wait 1) "Wait time must be at least 1 day"
  set_where_uuid ea.uuid
      (λ r. record r { atype = atype; wait_time_days = wait; updated_at = c.now })
  pure (summary (record ea { atype = atype; wait_time_days = wait }))

-- `deleteEa`: either party can remove the relationship.
unfoldable pub delete_ea : Context → String → M Db (Unit {0})
delete_ea c id = do
  ensure_enabled c
  modify λ d. record d {
    emergency_access =
        delete_where
          (λ r. r.uuid == id && (r.grantor_uuid == c.user.uuid || holds r.grantee_uuid c.user.uuid))
          d.emergency_access;
  }

-- POST /emergency-access/:id/reinvite
unfoldable pub reinvite : Context → String → M Db (Unit {0})
reinvite c id = do
  ensure_enabled c
  ea ← load_for_grantor c id
  err_if (not (ea.status == invited)) "The invitation has already been accepted"
  when (mailer_enabled c && truthy ea.email) (
      send_mail "emergency_access_invite" (or_else ea.email "")
        (some (c.platform.sign (invite_claims c ea.uuid (or_else ea.email "")))))

-- The `try` of `accept`: the handler answers any failure in it with one message.
unfoldable pub check_invitation : Context → String → String → Bool
check_invitation c id token = elim (decode_jwt c token (issuer c "emergencyaccessinvite")) [
  | none ↦ false
  | some claims ↦ holds claims.emer_id id && holds claims.email c.user.email
]

-- The guards of `accept` that read the invitation: by the token if mail is on, else by the address.
unfoldable pub authorize_accept :
    Context → String → Option String → EmergencyAccess → M Db (Unit {0})
authorize_accept c id token ea =
    if mailer_enabled c
    then (do
      err_if (not (truthy token)) "Invite token required"
      err_if (not (check_invitation c id (or_else token ""))) "Invalid invite token")
    else err_if (truthy ea.email && not (holds ea.email c.user.email)) "Invitation does not match"

abbrev require : Option EmergencyAccess → M Db EmergencyAccess
require none d = not_found "Emergency access not valid." d
require (some ea) d = (d, ok ea)

-- A mail to a user who may be missing from the table.
abbrev pub mail_user : String → Option User → M Db (Unit {0})
mail_user template none d = pure tt d
mail_user template (some u) d = send_mail template u.email none d

-- The row after it was accepted.
abbrev pub accepted_by : Context → EmergencyAccess → EmergencyAccess
accepted_by c r = record r {
  grantee_uuid = some c.user.uuid;
  email = none;
  status = accepted;
  updated_at = c.now;
}

-- POST /emergency-access/:id/accept
unfoldable pub accept : Context → String → Option String → M Db (Unit {0})
accept c id token = do
  ensure_enabled c
  found ← get (λ d. find_first (λ r. r.uuid == id) d.emergency_access)
  ea ← require found
  err_if (not (ea.status == invited)) "Emergency access already accepted or confirmed."
  authorize_accept c id token ea
  set_where_uuid id (accepted_by c)
  grantor ← get (find_user_by_uuid ea.grantor_uuid)
  when (mailer_enabled c) (mail_user "emergency_access_invite_accepted" grantor)

-- A mail to the grantee of a row, where there is one.
unfoldable pub mail_grantee : Context → String → EmergencyAccess → M Db (Unit {0})
mail_grantee c template ea = do
  grantee ← get (find_user_by_uuid (or_else ea.grantee_uuid ""))
  when (mailer_enabled c && truthy ea.grantee_uuid) (mail_user template grantee)

-- The row after it was confirmed.
abbrev pub confirmed_with : Context → String → EmergencyAccess → EmergencyAccess
confirmed_with c key r = record r {
  key_encrypted = some key;
  status = confirmed;
  updated_at = c.now;
}

-- POST /emergency-access/:id/confirm
unfoldable pub confirm : Context → String → Option String → M Db (Unit {0})
confirm c id key = do
  ensure_enabled c
  ea ← load_for_grantor c id
  err_if (not (ea.status == accepted)) "Emergency access not in accepted state."
  err_if (not (truthy key)) "Key required"
  set_where_uuid ea.uuid (confirmed_with c (or_else key ""))
  mail_grantee c "emergency_access_invite_confirmed" ea
