-- ===== src/OrgMembers/Recovery.antt =====
-- api/org-members.ts: account recovery, the reset of a member's master password by an administrator.
use vaultur.Prelude.{
  ℕ, String, Bool, true, false, not, Option, none, some, ◌==◌, nat_instance, string_instance, ◌||◌,
  if◌then◌else◌, or_else, truthy, leb,
}
use vaultur.Prelude.Int.{int_instance}
use vaultur.Prelude.Table.{update_where}
use vaultur.Shared.MembershipStatus
use vaultur.Shared.MembershipType
use vaultur.Shared.EventType
use vaultur.Web.{ok, M, pure, ◌>>=◌, ◌>>◌, modify, get, bad_request, when, err_if}
use vaultur.Db.{Db, User, Membership}
use vaultur.Context.{Context, mailer_enabled}
use vaultur.Users.{find_user_by_uuid, password_fields}
use vaultur.Events.{log_org_event, org_user}
use vaultur.Memberships.{membership_rank}
use vaultur.OrgMembers.Common.{
  asserted, or_bad_request, require_member, find_member, find_organization, set_member, send_mail,
}

-- `canResetPassword`
unfoldable pub can_reset_password : Membership → Membership → Bool
can_reset_password actor target =
    if actor.atype == MembershipType.owner
    then true
    else if actor.atype == MembershipType.admin
    then leb (membership_rank target.atype) (membership_rank MembershipType.admin)
    else false

pub record ResetDetails : Type 0 where
  pub organization_user_id : String
  pub kdf : ℕ
  pub kdf_iterations : ℕ
  pub kdf_memory : Option ℕ
  pub kdf_parallelism : Option ℕ
  pub reset_password_key : Option String
  pub encrypted_private_key : Option String

-- The member that the actor may reset.
unfoldable pub load_resettable : String → String → Membership → M Db Membership
load_resettable org id actor = do
  found ← get (find_member id org)
  m ← or_bad_request "User to reset isn't member of required organization" found
  err_if (not (can_reset_password actor m)) "No permission to reset this user's password"
  pure m

-- GET /organizations/:orgId/users/:memberId/reset-password-details
unfoldable pub reset_password_details : Context → String → String → M Db ResetDetails
reset_password_details c org id = do
  actor ← require_member c org MembershipType.admin
  m ← load_resettable org id actor
  listed ← get (find_user_by_uuid m.user_uuid)
  member ← asserted listed
  kept ← get (find_organization org)
  organization ← asserted kept
  pure (record {
    organization_user_id = m.uuid;
    kdf = member.client_kdf_type;
    kdf_iterations = member.client_kdf_iter;
    kdf_memory = member.client_kdf_memory;
    kdf_parallelism = member.client_kdf_parallelism;
    reset_password_key = m.reset_password_key;
    encrypted_private_key = organization.private_key;
  })

pub record ResetBody : Type 0 where
  pub new_master_password_hash : Option String
  pub key : Option String

-- The new password and key of the user, under a new security stamp.
unfoldable pub reset_user : Context → String → String → String → String → User → User
reset_user c salt stamp hash key u =
    let pw = password_fields c salt hash in
    record u {
      password_hash = pw.password_hash;
      salt = pw.salt;
      password_iterations = pw.password_iterations;
      akey = key;
      security_stamp = stamp;
      updated_at = c.now;
    }

-- The mail names the organization, after the password is written.
unfoldable pub mail_reset : String → User → M Db (Unit {0})
mail_reset org member = do
  kept ← get (find_organization org)
  _ ← asserted kept
  send_mail "admin_reset_password" member.email none

-- The writes of a reset, after its guards.
unfoldable pub write_reset :
    Context → String → String → String → String → ResetBody → Membership → M Db (Unit {0})
write_reset c org event salt stamp body m = do
  listed ← get (find_user_by_uuid m.user_uuid)
  member ← asserted listed
  modify λ d. record d {
    users =
        update_where (λ u. u.uuid == member.uuid)
          (reset_user c salt stamp (or_else body.new_master_password_hash "") (or_else body.key ""))
          d.users;
  }
  when (mailer_enabled c) (mail_reset org member)
  log_org_event c event EventType.organization_user_admin_reset_password org (org_user m.uuid)
      (some c.device.atype)

-- PUT /organizations/:orgId/users/:memberId/reset-password, with its event, salt and stamp
unfoldable pub reset_password :
    Context → String → String → String → String → ResetBody → String → M Db (Unit {0})
reset_password c org event salt stamp body id = do
  actor ← require_member c org MembershipType.admin
  m ← load_resettable org id actor
  err_if (not (truthy m.reset_password_key)) "Password reset not or not correctly enrolled"
  err_if (not (m.status == MembershipStatus.confirmed))
      "Organization user must be confirmed for password reset functionality"
  err_if (not (truthy body.new_master_password_hash) || not (truthy body.key))
      "Missing required fields"
  write_reset c org event salt stamp body m

abbrev own_membership : String → Option Membership → M Db Membership
own_membership user none d = bad_request "User to enroll isn't member of required organization" d
own_membership user (some m) d =
    if m.user_uuid == user
    then (d, ok m)
    else bad_request "User to enroll isn't member of required organization" d

abbrev pub given : Option String → Option String
given key = if truthy key then key else none

abbrev pub enrolled : Option String → Membership → Membership
enrolled key m = record m { reset_password_key = given key }

-- PUT /organizations/:orgId/users/:memberId/reset-password-enrollment
unfoldable pub enroll : Context → String → String → String → Option String → M Db (Unit {0})
enroll c org event id key = do
  found ← get (find_member id org)
  _ ← own_membership c.user.uuid found
  set_member id (enrolled key)
  log_org_event c event
      (if truthy key
        then EventType.organization_user_reset_password_enroll
        else EventType.organization_user_reset_password_withdraw)
      org (org_user id) none
