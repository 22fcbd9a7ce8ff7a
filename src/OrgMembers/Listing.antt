-- ===== src/OrgMembers/Listing.antt =====
-- api/org-members.ts: the listings of members.
use vaultur.Prelude.{
  ℕ, String, Bool, true, not, Option, none, some, ◌==◌, nat_instance, string_instance, ◌&&◌, ◌||◌,
  if◌then◌else◌, is_some, List, [], ◌∷◌, map,
}
use vaultur.Prelude.Int.{ℤ, int_ltb}
use vaultur.Prelude.Table.{find_many, any}
use vaultur.Shared.MembershipStatus
use vaultur.Shared.MembershipType
use vaultur.Web.{M, pure, ◌>>=◌, get}
use vaultur.Db.{Db, User, Membership, UserCollection, GroupUser}
use vaultur.Context.{Context}
use vaultur.Users.{find_user_by_uuid}
use vaultur.OrgMembers.Common.{
  asserted, or_bad_request, require_member, find_member, has_collection,
}

-- `wireType`: a manager is presented as Custom (4).
unfoldable pub wire_type : Membership → ℕ
wire_type m = if m.atype == MembershipType.manager then 4 else m.atype

-- The status that is shown: all the revoked ones as one.
unfoldable pub wire_status : Membership → ℤ
wire_status m =
    if int_ltb m.status MembershipStatus.revoked then MembershipStatus.revoked else m.status

pub record CollectionGrant : Type 0 where
  pub id : String
  pub read_only : Bool
  pub hide_passwords : Bool
  pub manage : Bool

pub record MemberDetails : Type 0 where
  pub id : String
  pub user_id : String
  pub name : Option String
  pub email : String
  pub external_id : Option String
  pub avatar_color : Option String
  pub groups : List String
  pub collections : List CollectionGrant
  pub status : ℤ
  pub atype : ℕ
  pub access_all : Bool
  pub two_factor_enabled : Bool
  pub reset_password_enrolled : Bool
  pub has_master_password : Bool
  pub has_permissions : Bool

abbrev grant_of : Membership → UserCollection → CollectionGrant
grant_of m r = record {
  id = r.collection_uuid;
  read_only = r.read_only;
  hide_passwords = r.hide_passwords;
  manage =
      r.manage || (m.atype == MembershipType.manager && (not r.read_only && not r.hide_passwords));
}

abbrev grants_of : Membership → Db → List CollectionGrant
grants_of m d = map (grant_of m) (
    find_many (λ r. r.user_uuid == m.user_uuid && has_collection m.org_uuid r.collection_uuid d)
      d.users_collections)

abbrev groups_of : Membership → Db → List String
groups_of m d =
    map (λ (x : GroupUser). x.groups_uuid)
      (find_many (λ x. x.users_organizations_uuid == m.uuid) d.groups_users)

-- `membershipUserDetailsJson`, for the user that it takes to be there
unfoldable pub member_details : Bool → Bool → Membership → User → Db → MemberDetails
member_details with_collections with_groups m user d = record {
  id = m.uuid;
  user_id = m.user_uuid;
  name = (if int_ltb m.status MembershipStatus.accepted then none else some user.name);
  email = user.email;
  external_id = m.external_id;
  avatar_color = user.avatar_color;
  groups = (if with_groups then groups_of m d else []);
  collections = (if with_collections && not m.access_all then grants_of m d else []);
  status = wire_status m;
  atype = wire_type m;
  access_all = m.access_all;
  two_factor_enabled = any (λ t. t.user_uuid == m.user_uuid) d.twofactor;
  reset_password_enrolled = is_some m.reset_password_key;
  has_master_password = not (user.password_hash == "");
  has_permissions = wire_type m == 4 && m.access_all;
}

unfoldable pub details_of : Bool → Bool → Membership → M Db MemberDetails
details_of with_collections with_groups m = do
  listed ← get (find_user_by_uuid m.user_uuid)
  user ← asserted listed
  get (member_details with_collections with_groups m user)

unfoldable pub all_details : Bool → Bool → List Membership → M Db (List MemberDetails)
all_details with_collections with_groups [] = pure []
all_details with_collections with_groups (m ∷ ms) = do
  first ← details_of with_collections with_groups m
  rest ← all_details with_collections with_groups ms
  pure (first ∷ rest)

-- GET /organizations/:orgId/users
unfoldable pub list_members : Context → String → Bool → Bool → M Db (List MemberDetails)
list_members c org with_collections with_groups = do
  _ ← require_member c org MembershipType.manager
  members ← get λ d. find_many (λ m. m.org_uuid == org) d.users_organizations
  all_details with_collections with_groups members

-- GET /organizations/:orgId/users/:memberId
unfoldable pub show_member : Context → String → String → M Db MemberDetails
show_member c org id = do
  _ ← require_member c org MembershipType.manager
  found ← get (find_member id org)
  m ← or_bad_request "The specified user isn't a member of the organization" found
  details_of true true m

pub record MiniDetails : Type 0 where
  pub id : String
  pub user_id : String
  pub atype : ℕ
  pub status : ℤ
  pub name : String
  pub email : String

unfoldable pub mini_details_of : Membership → M Db MiniDetails
mini_details_of m = do
  listed ← get (find_user_by_uuid m.user_uuid)
  user ← asserted listed
  pure (record {
    id = m.uuid;
    user_id = m.user_uuid;
    atype = wire_type m;
    status = wire_status m;
    name = user.name;
    email = user.email;
  })

unfoldable pub all_mini_details : List Membership → M Db (List MiniDetails)
all_mini_details [] = pure []
all_mini_details (m ∷ ms) = do
  first ← mini_details_of m
  rest ← all_mini_details ms
  pure (first ∷ rest)

-- GET /organizations/:orgId/users/mini-details
unfoldable pub list_mini_details : Context → String → M Db (List MiniDetails)
list_mini_details c org = do
  _ ← require_member c org MembershipType.user
  members ← get λ d. find_many (λ m. m.org_uuid == org) d.users_organizations
  all_mini_details members
