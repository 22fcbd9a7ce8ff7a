-- ===== src/OrgMembers/Groups.antt =====
-- api/org-members.ts: groups, their collections and their members.
use vaultur.Prelude.{
  ℕ, String, Bool, not, Option, none, some, ◌==◌, nat_instance, string_instance, ◌&&◌, ◌||◌,
  if◌then◌else◌, or_else, is_some, truthy, List, ◌∷◌, map,
}
use vaultur.Prelude.Table.{find_many, update_where, delete_where, any}
use vaultur.Shared.MembershipType
use vaultur.Shared.EventType
use vaultur.Web.{
  ok, M, pure, ◌>>=◌, ◌>>◌, modify, get, err_code, bad_request, not_found, when, err_if, for_each,
}
use vaultur.Db.{Db, Group, GroupUser, CollectionGroup}
use vaultur.Db.Keys.{has_key}
use vaultur.Context.{Context}
use vaultur.Events.{log_org_event, group}
use vaultur.OrgMembers.Common.{
  or_bad_request, require_member, CollectionAssignment, parse_assignments, find_member, find_group,
  join_group, replace_member_groups,
}
use vaultur.OrgMembers.Lifecycle.{Entry}

-- `requireGroupsEnabled`
abbrev pub require_groups_enabled : Context → M Db (Unit {0})
require_groups_enabled c = err_if (not c.config.org_groups_enabled) "Group support is disabled"

-- The text of the name, as it is stored.
abbrev pub require_name : Option String → M Db String
require_name name =
    if truthy name then pure (or_else name "") else bad_request "The field Name is required."

pub record GroupBody : Type 0 where
  pub name : Option String
  pub access_all : Bool
  pub external_id : Option String
  pub collections : List CollectionAssignment
  pub users : List String

abbrev pub renamed : Context → String → GroupBody → Group → Group
renamed c name body g = record g {
  name = name;
  access_all = body.access_all;
  external_id = body.external_id;
  revision_date = c.now;
}

abbrev new_group : Context → String → String → String → GroupBody → Group
new_group c org fresh name body = record {
  uuid = fresh;
  organizations_uuid = org;
  name = name;
  access_all = body.access_all;
  external_id = body.external_id;
  creation_date = c.now;
  revision_date = c.now;
}

-- The grants and the members of a group.
abbrev drop_group_rows : String → Db → Db
drop_group_rows id d = record d {
  collections_groups = delete_where (λ g. g.groups_uuid == id) d.collections_groups;
  groups_users = delete_where (λ g. g.groups_uuid == id) d.groups_users;
}

-- The row is made, or changed and its grants and members taken away.
unfoldable pub store_group :
    Context → String → String → String → GroupBody → Option Group → M Db Group
store_group c org fresh name body none d =
    if has_key (λ g. g.uuid) fresh d.groups then err_code "Internal server error" 500 d else (
      record d { groups = new_group c org fresh name body ∷ d.groups },
      ok (new_group c org fresh name body),
    )
store_group c org fresh name body (some g) d = (
  drop_group_rows g.uuid
      (record d { groups = update_where (λ x. x.uuid == g.uuid) (renamed c name body) d.groups }),
  ok (renamed c name body g),
)

-- The primary key is the pair, and a collection has to exist (a foreign key).
unfoldable pub insert_collection_group : CollectionGroup → M Db (Unit {0})
insert_collection_group r d =
    if not (has_key (λ k. k.uuid) r.collections_uuid d.collections)
      || any (λ x. x.collections_uuid == r.collections_uuid && x.groups_uuid == r.groups_uuid)
          d.collections_groups
    then err_code "Internal server error" 500 d
    else (record d { collections_groups = r ∷ d.collections_groups }, ok tt)

abbrev pub grant : String → CollectionAssignment → M Db (Unit {0})
grant id a = insert_collection_group (record {
  collections_uuid = a.id;
  groups_uuid = id;
  read_only = a.read_only;
  hide_passwords = a.hide_passwords;
  manage = a.manage;
})

-- A member of the organization joins; other uuids are passed over.
abbrev pub add_member : String → String → String → M Db (Unit {0})
add_member org id member = do
  found ← get (find_member member org)
  when (is_some found) (join_group id member)

abbrev pub event_of : Option Group → ℕ
event_of none = EventType.group_created
event_of (some _) = EventType.group_updated

-- `upsertGroup`, with the uuid for a new group and that of its event
unfoldable pub upsert_group :
    Context → String → String → String → GroupBody → Option Group → M Db Group
upsert_group c org fresh event body existing = do
  require_groups_enabled c
  _ ← require_member c org MembershipType.admin
  name ← require_name body.name
  g ← store_group c org fresh name body existing
  for_each (parse_assignments body.collections) (grant g.uuid)
  for_each body.users (add_member org g.uuid)
  log_org_event c event (event_of existing) org (group g.uuid) (some c.device.atype)
  pure g

-- POST /organizations/:orgId/groups
abbrev pub create_group : Context → String → String → String → GroupBody → M Db Group
create_group c org fresh event body = upsert_group c org fresh event body none

abbrev or_no_group : String → Option Group → M Db Group
or_no_group org none d = not_found "Group not found" d
or_no_group org (some g) d =
    if g.organizations_uuid == org then (d, ok g) else not_found "Group not found" d

-- `loadGroup`
unfoldable pub load_group : String → String → M Db Group
load_group org id = do found ← get (find_group id); or_no_group org found

-- `updateGroupHandler`
unfoldable pub update_group : Context → String → String → GroupBody → String → M Db Group
update_group c org event body id = do
  _ ← require_member c org MembershipType.admin
  g ← load_group org id
  upsert_group c org "" event body (some g)

-- POST …/groups/:groupId/delete-user/:memberId and DELETE …/groups/:groupId/user/:memberId
unfoldable pub delete_group_user : Context → String → String → String → M Db (Unit {0})
delete_group_user c org id member = do
  _ ← require_member c org MembershipType.admin
  g ← load_group org id
  modify λ d. record d {
    groups_users =
        delete_where (λ x. x.groups_uuid == g.uuid && x.users_organizations_uuid == member)
          d.groups_users;
  }

-- The deletion of a group, with the rows that refer to it (`onDelete: "cascade"`).
abbrev pub drop_group : String → M Db (Unit {0})
drop_group id =
    modify λ d. drop_group_rows id (record d { groups = delete_where (λ g. g.uuid == id) d.groups })

-- `deleteGroupHandler`
unfoldable pub delete_group : Context → String → String → String → M Db (Unit {0})
delete_group c org event id = do
  require_groups_enabled c
  _ ← require_member c org MembershipType.admin
  g ← load_group org id
  drop_group g.uuid
  log_org_event c event EventType.group_deleted org (group g.uuid) (some c.device.atype)

abbrev pub delete_found : Context → String → Entry → Option Group → M Db (Unit {0})
delete_found c org e none = pure tt
delete_found c org e (some g) = when (g.organizations_uuid == org) (do
  drop_group e.id
  log_org_event c e.fresh_event EventType.group_deleted org (group e.id) (some c.device.atype))

abbrev pub delete_one : Context → String → Entry → M Db (Unit {0})
delete_one c org e = do found ← get (find_group e.id); delete_found c org e found

-- DELETE /organizations/:orgId/groups
unfoldable pub delete_groups : Context → String → List Entry → M Db (Unit {0})
delete_groups c org entries = do
  _ ← require_member c org MembershipType.admin
  for_each entries (delete_one c org)

-- PUT /organizations/:orgId/groups/:groupId/users
unfoldable pub put_group_users : Context → String → String → List String → M Db (Unit {0})
put_group_users c org id members = do
  require_groups_enabled c
  _ ← require_member c org MembershipType.admin
  g ← load_group org id
  modify λ d. record d { groups_users = delete_where (λ x. x.groups_uuid == g.uuid) d.groups_users }
  for_each members (add_member org g.uuid)

-- PUT /organizations/:orgId/users/:memberId/groups
unfoldable pub put_member_groups : Context → String → String → List String → M Db (Unit {0})
put_member_groups c org member ids = do
  _ ← require_member c org MembershipType.admin
  found ← get (find_member member org)
  m ← or_bad_request "User isn't member of the organization" found
  replace_member_groups m ids

-- GET /organizations/:orgId/groups
unfoldable pub list_groups : Context → String → M Db (List Group)
list_groups c org = do
  _ ← require_member c org MembershipType.manager
  get λ d. find_many (λ g. g.organizations_uuid == org) d.groups

pub record GroupDetails : Type 0 where
  pub detailed : Group
  pub collections : List CollectionGroup
  pub users : List String

-- GET /organizations/:orgId/groups/:groupId/details
unfoldable pub group_details : Context → String → String → M Db GroupDetails
group_details c org id = do
  _ ← require_member c org MembershipType.admin
  g ← load_group org id
  get λ d. record {
    detailed = g;
    collections = find_many (λ x. x.groups_uuid == g.uuid) d.collections_groups;
    users =
        map (λ (x : GroupUser). x.users_organizations_uuid)
          (find_many (λ x. x.groups_uuid == g.uuid) d.groups_users);
  }

-- GET /organizations/:orgId/groups/:groupId/users
unfoldable pub group_users : Context → String → String → M Db (List String)
group_users c org id = do
  _ ← require_member c org MembershipType.admin
  g ← load_group org id
  get λ d.
      map (λ (x : GroupUser). x.users_organizations_uuid)
        (find_many (λ x. x.groups_uuid == g.uuid) d.groups_users)

-- GET /organizations/:orgId/users/:memberId/groups
unfoldable pub member_groups : Context → String → String → M Db (List String)
member_groups c org member = do
  _ ← require_member c org MembershipType.admin
  get λ d.
      map (λ (x : GroupUser). x.groups_uuid)
        (find_many (λ x. x.users_organizations_uuid == member) d.groups_users)
