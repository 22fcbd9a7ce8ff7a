-- ===== src/OrgMembers/Invite.antt =====
-- api/org-members.ts: invitations.
use Prim.Native.String
use vaultur.Prelude.{
  ℕ, String, Bool, true, false, not, Option, none, some, ◌==◌, nat_instance, string_instance, ◌&&◌,
  ◌||◌, if◌then◌else◌, is_some, List, [], ◌∷◌, map,
}
use vaultur.Prelude.Int.{int_instance}
use vaultur.Prelude.Table.{find_first, find_many, any}
use vaultur.Shared.MembershipStatus
use vaultur.Shared.MembershipType
use vaultur.Shared.EventType
use vaultur.Web.{
  ok, M, pure, ◌>>=◌, ◌>>◌, modify, get, err_code, when, err_if, from_result, for_each, attempt,
}
use vaultur.Db.{Db, User, Membership}
use vaultur.Db.Keys.{has_key}
use vaultur.Context.{Context, mailer_enabled}
use vaultur.Users.{find_user_by_email, find_user_by_uuid}
use vaultur.Events.{log_org_event, org_user}
use vaultur.Memberships.{find_confirmed_membership}
use vaultur.OrgMembers.Common.{
  asserted, or_bad_request, require_member, CollectionAssignment, parse_assignments,
  parse_member_type, find_member, find_organization, replace_member_collections,
  replace_member_groups, send_mail, invite_claims,
}

-- One address of an invitation, with the random texts that are drawn for it.
pub record Invitee : Type 0 where
  pub address : String
  pub fresh_user : String
  pub fresh_stamp : String
  pub fresh_member : String
  pub fresh_event : String

pub record InviteBody : Type 0 where
  pub emails : List Invitee
  pub atype : Option ℕ
  pub access_all : Bool
  pub collections : List CollectionAssignment
  pub groups : List String

abbrev pbkdf2_iterations : ℕ
pbkdf2_iterations = 600000

-- `newUserShell` (services/users.ts)
unfoldable pub new_user_shell : Context → Invitee → User
new_user_shell c i = record {
  uuid = i.fresh_user;
  enabled = true;
  updated_at = c.now;
  email = c.platform.trim_lower i.address;
  name = c.platform.trim_lower i.address;
  password_hash = "";
  salt = "";
  password_iterations = 0;
  akey = "";
  security_stamp = i.fresh_stamp;
  stamp_exception = none;
  client_kdf_type = 0;
  client_kdf_iter = pbkdf2_iterations;
  client_kdf_memory = none;
  client_kdf_parallelism = none;
  avatar_color = none;
}

-- The primary key and the unique column `email`.
unfoldable pub insert_user : User → M Db (Unit {0})
insert_user u d =
    if has_key (λ x. x.uuid) u.uuid d.users || any (λ x. x.email == u.email) d.users
    then err_code "Internal server error" 500 d
    else (record d { users = u ∷ d.users }, ok tt)

abbrev add_invitation : String → M Db (Unit {0})
add_invitation email = modify λ d.
    if any (λ e. e == email) d.invitations
    then d
    else record d { invitations = email ∷ d.invitations }

unfoldable pub insert_member : Membership → M Db (Unit {0})
insert_member m d =
    if has_key (λ x. x.uuid) m.uuid d.users_organizations
    then err_code "Internal server error" 500 d
    else (record d { users_organizations = m ∷ d.users_organizations }, ok tt)

abbrev is_of : String → String → Membership → Bool
is_of user org m = m.user_uuid == user && m.org_uuid == org

-- The user of an address: created where there is none, refused where already a member.
unfoldable pub invited_user : Context → String → Invitee → Option User → M Db User
invited_user c org i none = do
  err_if (not c.config.invitations_allowed) (String.◌++◌ "User does not exist: " i.address)
  insert_user (new_user_shell c i)
  created ← get (find_user_by_email c i.address)
  user ← asserted created
  when (not (mailer_enabled c)) (add_invitation i.address)
  pure user
invited_user c org i (some user) = do
  existing ← get λ d. find_first (is_of user.uuid org) d.users_organizations
  err_if (is_some existing) (String.◌++◌ "User already in organization: " i.address)
  pure user

unfoldable pub new_member : Context → String → ℕ → Bool → Invitee → User → Membership
new_member c org atype access_all i user = record {
  uuid = i.fresh_member;
  user_uuid = user.uuid;
  org_uuid = org;
  access_all = access_all;
  akey = "";
  status = (if mailer_enabled c then MembershipStatus.invited else MembershipStatus.accepted);
  atype = atype;
  invited_by_email = some c.user.email;
  reset_password_key = none;
  external_id = none;
}

-- The mail names the organization, which has to be there for it.
unfoldable pub mail_invite : Context → String → String → String → String → M Db (Unit {0})
mail_invite c org user to member = do
  listed ← get (find_organization org)
  _ ← asserted listed
  send_mail "org_invite" to (some (c.platform.sign (invite_claims c user to member org)))

-- The body of the loop over the addresses.
unfoldable pub invite_one :
    Context
    → String
    → ℕ
    → Bool
    → List CollectionAssignment
    → List String
    → Invitee
    → M Db (Unit {0})
invite_one c org atype access_all assignments groups i = do
  found ← get (find_user_by_email c i.address)
  user ← invited_user c org i found
  let m = new_member c org atype access_all i user
  insert_member m
  when (not access_all) (replace_member_collections m assignments)
  replace_member_groups m groups
  when (mailer_enabled c) (mail_invite c org user.uuid i.address m.uuid)
  log_org_event c i.fresh_event EventType.organization_user_invited org (org_user m.uuid)
      (some c.device.atype)

abbrev pub is_owner_type : Option Membership → Bool
is_owner_type none = false
is_owner_type (some m) = m.atype == MembershipType.owner

abbrev pub is_empty : List Invitee → Bool
is_empty [] = true
is_empty (_ ∷ _) = false

-- Only owners may make owners: a test of the handler on its own user.
unfoldable pub owners_only : Context → String → Bool → String → M Db (Unit {0})
owners_only c org about_owner message = do
  actor ← get (find_confirmed_membership c.user.uuid org)
  err_if (about_owner && not (is_owner_type actor)) message

abbrev normalized : Context → Invitee → Invitee
normalized c i = record i { address = c.platform.trim_lower i.address }

-- `map(normalizeEmail).filter(Boolean)`
unfoldable pub invitees : Context → InviteBody → List Invitee
invitees c body = find_many (λ i. not (i.address == "")) (map (normalized c) body.emails)

-- POST /organizations/:orgId/users/invite
unfoldable pub invite : Context → String → InviteBody → M Db (Unit {0})
invite c org body = do
  _ ← require_member c org MembershipType.admin
  atype ← from_result (parse_member_type body.atype)
  err_if (is_empty (invitees c body)) "No email addresses provided"
  owners_only c org (atype == MembershipType.owner) "Only Owners can invite Owners"
  for_each (invitees c body)
      (invite_one c org atype body.access_all (parse_assignments body.collections) body.groups)

-- `reinviteMember`
unfoldable pub reinvite_member : Context → String → String → M Db (Unit {0})
reinvite_member c org id = do
  found ← get (find_member id org)
  m ← or_bad_request "The user hasn't been invited to the organization." found
  err_if (not (m.status == MembershipStatus.invited))
      "The user is already accepted or confirmed to the organization"
  listed ← get (find_user_by_uuid m.user_uuid)
  target ← asserted listed
  if mailer_enabled c
      then mail_invite c org target.uuid target.email m.uuid
      else add_invitation target.email

-- POST /organizations/:orgId/users/:memberId/reinvite
unfoldable pub reinvite : Context → String → String → M Db (Unit {0})
reinvite c org id = do _ ← require_member c org MembershipType.admin; reinvite_member c org id

-- A bulk route: each entry on its own, its error kept and the loop going on.
unfoldable pub bulk :
    {X : Type 0} → Context → String → List X → (X → M Db (Unit {0})) → M Db (Unit {0})
bulk c org xs each = do
  _ ← require_member c org MembershipType.admin
  for_each xs (λ x. attempt (each x) >>= λ _. pure tt)

-- POST /organizations/:orgId/users/reinvite
unfoldable pub reinvite_bulk : Context → String → List String → M Db (Unit {0})
reinvite_bulk c org ids = bulk c org ids (reinvite_member c org)
