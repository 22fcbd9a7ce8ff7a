-- ===== src/OrgMembers/Lifecycle.antt =====
-- api/org-members.ts: acceptance, confirmation, changes, removal, revocation and restoration.
use vaultur.Prelude.{
  ℕ, String, Bool, true, false, not, Option, none, some, ◌==◌, nat_instance, string_instance, ◌&&◌,
  ◌||◌, if◌then◌else◌, or_else, holds, truthy, leb, List, [],
}
use vaultur.Prelude.Int.{pos, negsuc, ◌+ℤ◌, int_instance, int_ltb}
use vaultur.Prelude.Table.{any}
use vaultur.Shared.MembershipStatus
use vaultur.Shared.MembershipType
use vaultur.Shared.OrgPolicyType
use vaultur.Shared.EventType
use vaultur.Web.{ok, M, pure, ◌>>=◌, ◌>>◌, get, bad_request, when, err_if, from_result}
use vaultur.Db.{Db, Membership}
use vaultur.Context.{Context, Claims, mailer_enabled, decode_jwt, issuer}
use vaultur.Users.{find_user_by_uuid}
use vaultur.Events.{log_org_event, org_user}
use vaultur.Memberships.{is_at_least}
use vaultur.OrgMembers.Common.{
  asserted, or_bad_request, require_member, CollectionAssignment, parse_assignments,
  parse_member_type, find_member, find_organization, set_member, delete_member,
  confirmed_owner_count, replace_member_collections, replace_member_groups, send_mail,
}
use vaultur.OrgMembers.Invite.{owners_only, bulk}

-- An enabled policy of the organization.
abbrev pub has_policy : String → ℕ → Db → Bool
has_policy org atype d =
    any (λ p. p.org_uuid == org && (p.atype == atype && p.enabled)) d.org_policies

abbrev pub is_active_elsewhere : String → Membership → Bool
is_active_elsewhere org m =
    not (m.org_uuid == org) && not (int_ltb m.status MembershipStatus.accepted)

abbrev or_not_found : String → Option Membership → M Db Membership
or_not_found user none d = bad_request "User not found in organization" d
or_not_found user (some m) d =
    if m.user_uuid == user then (d, ok m) else bad_request "User not found in organization" d

abbrev pub is_invitation : String → String → Option Claims → M Db (Unit {0})
is_invitation id email none = bad_request "Invalid invite token"
is_invitation id email (some claims) =
    err_if (not (holds claims.member_id id) || not (holds claims.email email))
      "Invitation does not match"

unfoldable pub check_token : Context → String → Option String → M Db (Unit {0})
check_token c id token = do
  err_if (not (truthy token)) "Invite token not provided"
  is_invitation id c.user.email (decode_jwt c (or_else token "") (issuer c "invite"))

-- The two policies that keep a user out.
unfoldable pub check_policies : Context → String → Membership → M Db (Unit {0})
check_policies c org m = do
  second_factor ← get λ d. any (λ t. t.user_uuid == c.user.uuid) d.twofactor
  required ← get (has_policy org OrgPolicyType.two_factor_authentication)
  err_if (not second_factor && (required && not (is_at_least m.atype MembershipType.admin)))
      "You cannot join this organization until you enable two-step login on your user account"
  single ← get (has_policy org OrgPolicyType.single_org)
  elsewhere ←
      get λ d.
        any (λ x. x.user_uuid == c.user.uuid && is_active_elsewhere org x) d.users_organizations
  err_if (single && not (is_at_least m.atype MembershipType.admin) && elsewhere)
      "You cannot join this organization because you are a member of another organization which forbids it"

abbrev pub accepted : Membership → Membership
accepted m = record m { status = MembershipStatus.accepted }

-- POST /organizations/:orgId/users/:memberId/accept
unfoldable pub accept : Context → String → String → Option String → M Db (Unit {0})
accept c org id token = do
  found ← get (find_member id org)
  m ← or_not_found c.user.uuid found
  err_if (not (m.status == MembershipStatus.invited)) "User already accepted the invitation"
  when (mailer_enabled c) (check_token c id token)
  check_policies c org m
  set_member id accepted
  organization ← get (find_organization org)
  when (mailer_enabled c && truthy m.invited_by_email) (do
    _ ← asserted organization
    send_mail "invite_accepted" (or_else m.invited_by_email "") none)

abbrev pub confirmed : String → Membership → Membership
confirmed key m = record m { status = MembershipStatus.confirmed; akey = key }

-- The mail of a confirmation is awaited, so its missing rows are errors.
unfoldable pub mail_confirmed : String → Membership → M Db (Unit {0})
mail_confirmed org m = do
  listed ← get (find_user_by_uuid m.user_uuid)
  target ← asserted listed
  organization ← get (find_organization org)
  _ ← asserted organization
  send_mail "invite_confirmed" target.email none

-- `confirmMember`, with the uuid of its event
unfoldable pub confirm_member : Context → String → String → String → String → M Db (Unit {0})
confirm_member c org event id key = do
  found ← get (find_member id org)
  m ← or_bad_request "The specified user isn't a member of the organization" found
  err_if (not (m.status == MembershipStatus.accepted))
      "The specified user isn't in an Accepted state"
  owners_only c org (m.atype == MembershipType.owner) "Only Owners can confirm Owners"
  set_member id (confirmed key)
  when (mailer_enabled c) (mail_confirmed org m)
  log_org_event c event EventType.organization_user_confirmed org (org_user id)
      (some c.device.atype)

-- POST /organizations/:orgId/users/:memberId/confirm
unfoldable pub confirm : Context → String → String → String → Option String → M Db (Unit {0})
confirm c org event id key = do
  _ ← require_member c org MembershipType.admin
  err_if (not (truthy key)) "key cannot be blank"
  confirm_member c org event id (or_else key "")

pub record ConfirmEntry : Type 0 where
  pub id : String
  pub key : String
  pub fresh_event : String

-- POST /organizations/:orgId/users/confirm
unfoldable pub confirm_bulk : Context → String → List ConfirmEntry → M Db (Unit {0})
confirm_bulk c org entries = bulk c org entries (λ e. confirm_member c org e.fresh_event e.id e.key)

pub record EditBody : Type 0 where
  pub atype : Option ℕ
  pub access_all : Bool
  pub collections : List CollectionAssignment
  pub groups : Option (List String)

abbrev pub edited : ℕ → Bool → Membership → Membership
edited atype access_all m = record m { atype = atype; access_all = access_all }

-- The loaded member is the only confirmed owner that is left.
abbrev pub is_last_owner : String → Membership → Db → Bool
is_last_owner org m d =
    m.atype == MembershipType.owner
    && (m.status == MembershipStatus.confirmed && leb (confirmed_owner_count org d) 1)

abbrev pub replace_groups_if : Membership → Option (List String) → M Db (Unit {0})
replace_groups_if m none = pure tt
replace_groups_if m (some ids) = replace_member_groups m ids

-- The writes of `editMember`, after its guards.
unfoldable pub write_member :
    Context → String → String → EditBody → ℕ → Membership → M Db (Unit {0})
write_member c org event body atype m = do
  set_member m.uuid (edited atype body.access_all)
  replace_member_collections m (if body.access_all then [] else parse_assignments body.collections)
  replace_groups_if m body.groups
  log_org_event c event EventType.organization_user_updated org (org_user m.uuid)
      (some c.device.atype)

-- `editMember`
unfoldable pub edit_member : Context → String → String → String → EditBody → M Db (Unit {0})
edit_member c org event id body = do
  actor ← require_member c org MembershipType.admin
  found ← get (find_member id org)
  m ← or_bad_request "The specified user isn't a member of the organization" found
  atype ← from_result (parse_member_type body.atype)
  err_if
      ((atype == MembershipType.owner || m.atype == MembershipType.owner)
        && not (actor.atype == MembershipType.owner))
      "Only Owners can grant and remove Owner privileges"
  last ← get (is_last_owner org m)
  err_if (not (atype == MembershipType.owner) && last) "Can't delete the last owner"
  write_member c org event body atype m

-- `removeMember`
unfoldable pub remove_member : Context → String → String → String → M Db (Unit {0})
remove_member c org event id = do
  found ← get (find_member id org)
  m ← or_bad_request "User to delete isn't member of the organization" found
  owners_only c org (m.atype == MembershipType.owner) "Only Owners can delete Admins and Owners"
  last ← get (is_last_owner org m)
  err_if last "Can't delete the last owner"
  delete_member m.uuid
  log_org_event c event EventType.organization_user_removed org (org_user m.uuid)
      (some c.device.atype)

-- DELETE /organizations/:orgId/users/:memberId and POST …/delete
unfoldable pub remove : Context → String → String → String → M Db (Unit {0})
remove c org event id = do
  _ ← require_member c org MembershipType.admin
  remove_member c org event id

-- A member in a bulk route, with the uuid of its event.
pub record Entry : Type 0 where
  pub id : String
  pub fresh_event : String

-- DELETE /organizations/:orgId/users
unfoldable pub remove_bulk : Context → String → List Entry → M Db (Unit {0})
remove_bulk c org entries = bulk c org entries (λ e. remove_member c org e.fresh_event e.id)

-- The status of a revoked member is the old one less 128, and comes back by the same 128.
abbrev pub revoked : Membership → Membership
revoked m = record m { status = m.status +ℤ negsuc 127 }

abbrev pub restored : Membership → Membership
restored m = record m { status = m.status +ℤ pos 128 }

-- `setRevoked` with `revoke`
unfoldable pub revoke_member : Context → String → String → String → M Db (Unit {0})
revoke_member c org event id = do
  found ← get (find_member id org)
  m ← or_bad_request "User isn't member of the organization" found
  err_if (int_ltb m.status MembershipStatus.invited) "User is already revoked"
  owners_only c org (m.atype == MembershipType.owner) "Only owners can revoke other owners"
  last ← get (is_last_owner org m)
  err_if last "Organization must have at least one confirmed owner"
  set_member m.uuid revoked
  log_org_event c event EventType.organization_user_revoked org (org_user m.uuid) none

-- `setRevoked` without `revoke`
unfoldable pub restore_member : Context → String → String → String → M Db (Unit {0})
restore_member c org event id = do
  found ← get (find_member id org)
  m ← or_bad_request "User isn't member of the organization" found
  err_if (not (int_ltb m.status MembershipStatus.invited)) "User is not revoked"
  set_member m.uuid restored
  log_org_event c event EventType.organization_user_restored org (org_user m.uuid) none

abbrev pub set_revoked : Bool → Context → String → String → String → M Db (Unit {0})
set_revoked true = revoke_member
set_revoked false = restore_member

-- PUT /organizations/:orgId/users/:memberId/revoke and …/restore
unfoldable pub revoke_or_restore : Bool → Context → String → String → String → M Db (Unit {0})
revoke_or_restore revoke c org event id = do
  _ ← require_member c org MembershipType.admin
  set_revoked revoke c org event id

-- `setRevokedBulk`
unfoldable pub set_revoked_bulk : Bool → Context → String → List Entry → M Db (Unit {0})
set_revoked_bulk revoke c org entries =
    bulk c org entries (λ e. set_revoked revoke c org e.fresh_event e.id)
