-- ===== src/OrgMembers/Common.antt =====
-- api/org-members.ts: what its handlers share.
use vaultur.Prelude.{
  ℕ, ◌+◌, ◌*◌, ◌/◌, String, Bool, not, Option, none, some, ◌==◌, nat_instance, string_instance,
  ◌&&◌, if◌then◌else◌, or_else, List, [], ◌∷◌,
}
use vaultur.Prelude.Int.{int_instance}
use vaultur.Prelude.Table.{find_first, find_many, update_where, delete_where, any}
use vaultur.Shared.MembershipStatus
use vaultur.Shared.MembershipType
use vaultur.Web.{
  Result, ok, err, M, pure, ◌>>=◌, ◌>>◌, modify, get, err_code, bad_request, not_found, err_if,
  for_each,
}
use vaultur.Db.{Db, Effect, Membership, UserCollection, Group, Organization}
use vaultur.Context.{Context, Claims, issuer}
use vaultur.Memberships.{find_confirmed_membership, is_at_least}

-- A query whose result the code takes to be there (`!`): without it the code throws a TypeError.
abbrev pub asserted : {A : Type 0} → Option A → M Db A
asserted none = err_code "Internal server error" 500
asserted (some a) = pure a

abbrev pub or_bad_request : {A : Type 0} → String → Option A → M Db A
or_bad_request message none = bad_request message
or_bad_request message (some a) = pure a

abbrev or_no_member : Option Membership → M Db Membership
or_no_member none = not_found "You are not a member of this organization"
or_no_member (some m) = pure m

-- `requireMember`
unfoldable pub require_member : Context → String → ℕ → M Db Membership
require_member c org min_type = do
  found ← get (find_confirmed_membership c.user.uuid org)
  member ← or_no_member found
  err_if (not (is_at_least member.atype min_type))
      "You do not have permission to perform this action"
  pure member

abbrev pub is_confirmed_owner : String → Membership → Bool
is_confirmed_owner org m =
    m.org_uuid == org && (m.atype == MembershipType.owner && m.status == MembershipStatus.confirmed)

unfoldable pub count_where : {A : Type 0} → (A → Bool) → List A → ℕ
count_where p [] = 0
count_where p (x ∷ xs) = (if p x then 1 else 0) + count_where p xs

-- `confirmedOwnerCount`
unfoldable pub confirmed_owner_count : String → Db → ℕ
confirmed_owner_count org d = count_where (is_confirmed_owner org) d.users_organizations

pub record CollectionAssignment : Type 0 where
  pub id : String
  pub read_only : Bool
  pub hide_passwords : Bool
  pub manage : Bool

-- `parseAssignments`, over the objects of the array
unfoldable pub parse_assignments : List CollectionAssignment → List CollectionAssignment
parse_assignments xs = find_many (λ a. not (a.id == "")) xs

-- `parseMemberType`: Custom (4) is a manager.
unfoldable pub parse_member_type : Option ℕ → Result ℕ
parse_member_type value =
    let n = or_else value MembershipType.user in
    if n == 4
    then ok MembershipType.manager
    else if any (λ t. t == n)
        (MembershipType.owner ∷ MembershipType.admin ∷ MembershipType.user ∷ MembershipType.manager
          ∷ [])
    then ok n
    else err 400 "Invalid membership type"

-- The rows that most handlers load: the member of this uuid in this organization.
abbrev pub is_member_of : String → String → Membership → Bool
is_member_of id org m = m.uuid == id && m.org_uuid == org

unfoldable pub find_member : String → String → Db → Option Membership
find_member id org d = find_first (is_member_of id org) d.users_organizations

unfoldable pub find_organization : String → Db → Option Organization
find_organization org d = find_first (λ o. o.uuid == org) d.organizations

-- `db.update(usersOrganizations).set(…).where(eq(usersOrganizations.uuid, id))`
unfoldable pub set_member : String → (Membership → Membership) → M Db (Unit {0})
set_member id f =
    modify λ d. record d {
      users_organizations = update_where (λ m. m.uuid == id) f d.users_organizations;
    }

-- The deletion of a member, with the rows of groups_users that refer to it (`onDelete: "cascade"`).
unfoldable pub delete_member : String → M Db (Unit {0})
delete_member id = modify λ d. record d {
  users_organizations = delete_where (λ m. m.uuid == id) d.users_organizations;
  groups_users = delete_where (λ g. g.users_organizations_uuid == id) d.groups_users;
}

abbrev pub has_collection : String → String → Db → Bool
has_collection org id d = any (λ c. c.org_uuid == org && c.uuid == id) d.collections

unfoldable pub insert_user_collection : UserCollection → M Db (Unit {0})
insert_user_collection r d =
    if any (λ x. x.user_uuid == r.user_uuid && x.collection_uuid == r.collection_uuid)
      d.users_collections
    then err_code "Internal server error" 500 d
    else (record d { users_collections = r ∷ d.users_collections }, ok tt)

abbrev pub assign : Membership → CollectionAssignment → M Db (Unit {0})
assign m a d =
    if has_collection m.org_uuid a.id d
    then insert_user_collection
        (record {
          user_uuid = m.user_uuid;
          collection_uuid = a.id;
          read_only = a.read_only;
          hide_passwords = a.hide_passwords;
          manage = a.manage;
        })
        d
    else (d, ok tt)

-- `replaceMemberCollections`
unfoldable pub replace_member_collections : Membership → List CollectionAssignment → M Db (Unit {0})
replace_member_collections m assignments = do
  modify λ d. record d {
    users_collections =
        delete_where
          (λ r. r.user_uuid == m.user_uuid && has_collection m.org_uuid r.collection_uuid d)
          d.users_collections;
  }
  for_each assignments (assign m)

-- `db.insert(groupsUsers).values(row).onConflictDoNothing()`
unfoldable pub join_group : String → String → M Db (Unit {0})
join_group group member = modify λ d.
    if any (λ g. g.groups_uuid == group && g.users_organizations_uuid == member) d.groups_users
    then d
    else record d {
      groups_users =
          record { groups_uuid = group; users_organizations_uuid = member } ∷ d.groups_users;
    }

unfoldable pub find_group : String → Db → Option Group
find_group id d = find_first (λ g. g.uuid == id) d.groups

abbrev join_if_own : Membership → String → Option Group → M Db (Unit {0})
join_if_own m id none = pure tt
join_if_own m id (some g) =
    if g.organizations_uuid == m.org_uuid then join_group id m.uuid else pure tt

abbrev pub join_group_of : Membership → String → M Db (Unit {0})
join_group_of m id = do found ← get (find_group id); join_if_own m id found

-- `replaceMemberGroups`
unfoldable pub replace_member_groups : Membership → List String → M Db (Unit {0})
replace_member_groups m ids = do
  modify λ d. record d {
    groups_users = delete_where (λ g. g.users_organizations_uuid == m.uuid) d.groups_users;
  }
  for_each ids (join_group_of m)

abbrev pub send_mail : String → String → Option String → M Db (Unit {0})
send_mail template to token =
    modify λ d. record d { outbox = Effect.mail template to token ∷ d.outbox }

-- The claims of an invitation, which lasts five days.
unfoldable pub invite_claims : Context → String → String → String → String → Claims
invite_claims c user_uuid to member_id org = record {
  iss = issuer c "invite";
  sub = user_uuid;
  exp = c.now / 1000 + 5 * 24 * 3600;
  emer_id = none;
  member_id = some member_id;
  org_id = some org;
  email = some to;
  sstamp = "";
  device = "";
}
