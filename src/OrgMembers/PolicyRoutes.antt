-- ===== src/OrgMembers/PolicyRoutes.antt =====
-- api/org-members.ts: the policies of an organization, and the members that a policy puts out.
use vaultur.Prelude.{
  ℕ, String, Bool, not, Option, none, some, ◌==◌, nat_instance, string_instance, ◌&&◌, ◌||◌, holds,
  if◌then◌else◌, List, ◌∷◌,
}
use vaultur.Prelude.Int.{negsuc, ◌+ℤ◌, int_instance, int_ltb}
use vaultur.Prelude.Table.{find_first, find_many, update_where, any}
use vaultur.Shared.MembershipStatus
use vaultur.Shared.MembershipType
use vaultur.Shared.OrgPolicyType
use vaultur.Shared.EventType
use vaultur.Web.{
  ok, M, pure, ◌>>=◌, ◌>>◌, get, err_code, bad_request, not_found, when, err_if, for_each,
}
use vaultur.Db.{Db, Membership, Organization, OrgPolicy}
use vaultur.Db.Keys.{has_key}
use vaultur.Context.{Context, Claims, mailer_enabled, decode_jwt, issuer}
use vaultur.Users.{find_user_by_uuid}
use vaultur.Events.{log_org_event, policy}
use vaultur.Memberships.{is_at_least}
use vaultur.OrgMembers.Common.{asserted, require_member, find_organization, set_member, send_mail}
use vaultur.OrgMembers.Lifecycle.{is_active_elsewhere}

-- A member whom the two policies look at.
abbrev pub is_subject : Membership → Bool
is_subject m =
    not (is_at_least m.atype MembershipType.admin || int_ltb m.status MembershipStatus.accepted)

abbrev pub has_second_factor : Membership → Db → Bool
has_second_factor m d = any (λ t. t.user_uuid == m.user_uuid) d.twofactor

abbrev pub is_elsewhere : String → Membership → Db → Bool
is_elsewhere org m d =
    any (λ x. x.user_uuid == m.user_uuid && is_active_elsewhere org x) d.users_organizations

-- The mail names the user and the organization, after the row is written.
unfoldable pub mail_removed : Context → String → String → Membership → M Db (Unit {0})
mail_removed c template org m = do
  listed ← get (find_user_by_uuid m.user_uuid)
  target ← asserted listed
  kept ← get (find_organization org)
  _ ← asserted kept
  when (mailer_enabled c) (send_mail template target.email none)

-- The status that was read before the loop, less 128.
abbrev pub put_out : Membership → Membership → Membership
put_out m r = record r { status = m.status +ℤ negsuc 127 }

-- One turn of a loop over the members, for one of the two policies.
unfoldable pub enforce_on :
    Context → String → String → (Membership → Db → Bool) → Membership → M Db (Unit {0})
enforce_on c template org broken m = when (is_subject m) (do
  out ← get (broken m)
  when out (set_member m.uuid (put_out m) >> mail_removed c template org m))

abbrev pub lacks_second_factor : Membership → Db → Bool
lacks_second_factor m d = not (has_second_factor m d)

unfoldable pub enforce : Context → String → ℕ → List Membership → M Db (Unit {0})
enforce c org atype members = do
  when (atype == OrgPolicyType.two_factor_authentication)
      (for_each members (enforce_on c "two_factor_removed_from_org" org lacks_second_factor))
  when (atype == OrgPolicyType.single_org)
      (for_each members (enforce_on c "single_org_removed_from_org" org (is_elsewhere org)))

unfoldable pub find_policy : String → ℕ → Db → Option OrgPolicy
find_policy org atype d = find_first (λ p. p.org_uuid == org && p.atype == atype) d.org_policies

abbrev policy_row : String → String → ℕ → Bool → String → OrgPolicy
policy_row uuid org atype enabled text = record {
  uuid = uuid;
  org_uuid = org;
  atype = atype;
  enabled = enabled;
  policy_data = text;
}

unfoldable pub store_policy :
    String → String → ℕ → Bool → String → Option OrgPolicy → M Db OrgPolicy
store_policy fresh org atype enabled text none d =
    if has_key (λ p. p.uuid) fresh d.org_policies then err_code "Internal server error" 500 d else (
      record d { org_policies = policy_row fresh org atype enabled text ∷ d.org_policies },
      ok (policy_row fresh org atype enabled text),
    )
store_policy fresh org atype enabled text (some p) d = (
  record d {
    org_policies =
        update_where (λ x. x.uuid == p.uuid)
          (λ x. record x { enabled = enabled; policy_data = text }) d.org_policies;
  },
  ok (policy_row p.uuid org atype enabled text),
)

-- `putPolicyHandler`, with the text of the policy's data and the uuids for a new row and for its event
unfoldable pub put_policy : Context → String → String → String → ℕ → Bool → String → M Db OrgPolicy
put_policy c org fresh event atype enabled text = do
  _ ← require_member c org MembershipType.admin
  members ← get λ d. find_many (λ m. m.org_uuid == org) d.users_organizations
  when enabled (enforce c org atype members)
  existing ← get (find_policy org atype)
  row ← store_policy fresh org atype enabled text existing
  log_org_event c event EventType.policy_updated org (policy row.uuid) (some c.device.atype)
  pure row

abbrev pub policies_of : String → Db → List OrgPolicy
policies_of org d = find_many (λ p. p.org_uuid == org) d.org_policies

-- GET /organizations/:orgId/policies
unfoldable pub list_policies : Context → String → M Db (List OrgPolicy)
list_policies c org = do _ ← require_member c org MembershipType.admin; get (policies_of org)

abbrev of_organization : String → Option Claims → M Db (Unit {0})
of_organization org none = bad_request "Invalid token"
of_organization org (some claims) =
    err_if (not (holds claims.org_id org)) "Token not valid for this organization"

-- GET /organizations/:orgId/policies/token, which no user has to be logged in for
unfoldable pub policies_by_token : Context → String → String → M Db (List OrgPolicy)
policies_by_token c org token = do
  of_organization org (decode_jwt c token (issuer c "invite"))
  get (policies_of org)

-- GET /organizations/:orgId/policies/master-password: the row, if there is one
unfoldable pub master_password_policy_of : Context → String → M Db (Option OrgPolicy)
master_password_policy_of c org = do
  _ ← require_member c org MembershipType.user
  get (find_policy org OrgPolicyType.master_password)

-- GET /organizations/:orgId/policies/:type
unfoldable pub policy_of_type : Context → String → ℕ → M Db (Option OrgPolicy)
policy_of_type c org atype = do
  _ ← require_member c org MembershipType.admin
  get (find_policy org atype)

abbrev or_no_organization : Option Organization → M Db String
or_no_organization none = not_found "Organization doesn't exist"
or_no_organization (some o) = pure o.uuid

-- GET /organizations/:orgId/auto-enroll-status
unfoldable pub auto_enroll_status : String → M Db String
auto_enroll_status org = do found ← get (find_organization org); or_no_organization found
