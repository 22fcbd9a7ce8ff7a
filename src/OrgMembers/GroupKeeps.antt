-- ===== src/OrgMembers/GroupKeeps.antt =====
-- Groups, account recovery and repeated invitations do not write to the table of members; an
-- enrollment keeps to `Moves`.
use vaultur.Prelude.{
  String, refl, ap, ◌==◌, nat_instance, string_instance, Option, none, some, arith, List,
}
use vaultur.Prelude.Table.{delete_where}
use vaultur.Shared.EventType
use vaultur.Shared.MembershipType
use vaultur.Web.{M, get, pure, modify, ◌>>=◌, ◌>>◌, for_each}
use vaultur.Web.Steps.{when-Steps, err_if-Steps}
use vaultur.Db.{Db, Membership, Group}
use vaultur.Context.{Context}
use vaultur.Events.{log_org_event, group}
use vaultur.OrgMembers.Common.{
  require_member, find_member, find_group, parse_assignments, join_group, CollectionAssignment,
  or_bad_request, replace_member_groups,
}
use vaultur.OrgMembers.Lifecycle.{Entry}
use vaultur.OrgMembers.Groups.{
  GroupBody, require_groups_enabled, require_name, store_group, insert_collection_group, grant,
  add_member, upsert_group, load_group, update_group, delete_group_user, delete_group,
  delete_groups, delete_found, delete_one, drop_group, put_group_users, put_member_groups, event_of,
}
use vaultur.OrgMembers.Kept.{
  Keeps, bind-Keeps, each-Keeps, require_member-Keeps, SameMembers, same_refl, same_trans,
  log_org_event-Keeps, replace_member_groups-Keeps,
}
use vaultur.OrgMembers.EditMoves.{or_bad_request-reads}

load_group-Keeps : (org id : String) → Keeps (load_group org id)
unfolding load_group
load_group-Keeps org id d = ground arith

store_group-Keeps :
    (c : Context) (org fresh name : String) (body : GroupBody) (g : Option Group)
    → Keeps (store_group c org fresh name body g)
unfolding store_group
store_group-Keeps c org fresh name body none = λ d. ground arith
store_group-Keeps c org fresh name body (some g) = λ d. refl

grant-Keeps : (id : String) (a : CollectionAssignment) → Keeps (grant id a)
unfolding insert_collection_group
grant-Keeps id a d = ground arith

add_member-Keeps : (org id member : String) → Keeps (add_member org id member)
unfolding join_group
add_member-Keeps org id member d = ground arith

require_name-Keeps : (name : Option String) → Keeps (require_name name)
require_name-Keeps name d = ground arith

groups_enabled-Keeps : (c : Context) → Keeps (require_groups_enabled c)
groups_enabled-Keeps c = err_if-Steps SameMembers same_refl same_trans _ _

pub upsert_group-Keeps :
    (c : Context) (org fresh event : String) (body : GroupBody) (existing : Option Group)
    → Keeps (upsert_group c org fresh event body existing)
unfolding upsert_group
upsert_group-Keeps c org fresh event body existing =
    bind-Keeps (require_groups_enabled c) (λ _. checked) (groups_enabled-Keeps c)
      (λ _.
        bind-Keeps (require_member c org MembershipType.admin)
          (λ _. require_name body.name >>= stored) (require_member-Keeps c org _)
          (λ _. bind-Keeps (require_name body.name) stored (require_name-Keeps body.name) (λ name.
            bind-Keeps (store_group c org fresh name body existing) filled
              (store_group-Keeps c org fresh name body existing) filled-Keeps)))
  where
    logged : Group → M Db Group
    logged g =
        log_org_event c event (event_of existing) org (group g.uuid) (some c.device.atype) >> pure g

    joined : Group → M Db Group
    joined g = for_each body.users (add_member org g.uuid) >> logged g

    filled : Group → M Db Group
    filled g = for_each (parse_assignments body.collections) (grant g.uuid) >> joined g

    stored : String → M Db Group
    stored name = store_group c org fresh name body existing >>= filled

    checked : M Db Group
    checked = require_member c org MembershipType.admin >>= λ _. require_name body.name >>= stored

    filled-Keeps : (g : Group) → Keeps (filled g)
    filled-Keeps g =
        bind-Keeps (for_each (parse_assignments body.collections) (grant g.uuid)) (λ _. joined g)
          (each-Keeps _ (grant g.uuid) (grant-Keeps g.uuid))
          (λ _.
            bind-Keeps (for_each body.users (add_member org g.uuid)) (λ _. logged g)
              (each-Keeps _ (add_member org g.uuid) (add_member-Keeps org g.uuid))
              (λ _.
                bind-Keeps
                  (log_org_event c event (event_of existing) org (group g.uuid)
                    (some c.device.atype))
                  (λ _. pure g) (log_org_event-Keeps c event _ org _ _) (λ _. same_refl)))

-- The routes that load a group as an administrator and go on with it.
with_group-Keeps :
    {A : Type 0} (c : Context) (org id : String) (f : Group → M Db A)
    → ((g : Group) → Keeps (f g))
    → Keeps (require_member c org MembershipType.admin >>= λ _. load_group org id >>= f)
with_group-Keeps c org id f k =
    bind-Keeps (require_member c org MembershipType.admin) (λ _. load_group org id >>= f)
      (require_member-Keeps c org _)
      (λ _. bind-Keeps (load_group org id) f (load_group-Keeps org id) k)

pub update_group-Keeps :
    (c : Context) (org event : String) (body : GroupBody) (id : String)
    → Keeps (update_group c org event body id)
unfolding update_group
update_group-Keeps c org event body id =
    with_group-Keeps c org id _ (λ g. upsert_group-Keeps c org "" event body (some g))

pub delete_group_user-Keeps :
    (c : Context) (org id member : String) → Keeps (delete_group_user c org id member)
unfolding delete_group_user
delete_group_user-Keeps c org id member = with_group-Keeps c org id _ (λ g d. refl)

pub delete_group-Keeps : (c : Context) (org event id : String) → Keeps (delete_group c org event id)
unfolding delete_group
delete_group-Keeps c org event id =
    bind-Keeps (require_groups_enabled c) (λ _. checked) (groups_enabled-Keeps c)
      (λ _. with_group-Keeps c org id dropped (λ g.
        bind-Keeps (drop_group g.uuid) (λ _. logged g) (λ d. refl)
          (λ _. log_org_event-Keeps c event _ org _ _)))
  where
    logged : Group → M Db (Unit {0})
    logged g =
        log_org_event c event EventType.group_deleted org (group g.uuid) (some c.device.atype)

    dropped : Group → M Db (Unit {0})
    dropped g = drop_group g.uuid >> logged g

    checked : M Db (Unit {0})
    checked = require_member c org MembershipType.admin >>= λ _. load_group org id >>= dropped

delete_found-Keeps :
    (c : Context) (org : String) (e : Entry) (found : Option Group)
    → Keeps (delete_found c org e found)
delete_found-Keeps c org e none = λ d. refl
delete_found-Keeps c org e (some g) =
    when-Steps SameMembers same_refl same_trans (g.organizations_uuid == org)
      (drop_group e.id >> logged)
      (bind-Keeps (drop_group e.id) (λ _. logged) (λ d. refl)
        (λ _. log_org_event-Keeps c e.fresh_event _ org _ _))
  where
    logged : M Db (Unit {0})
    logged =
        log_org_event c e.fresh_event EventType.group_deleted org (group e.id) (some c.device.atype)

delete_one-Keeps : (c : Context) (org : String) (e : Entry) → Keeps (delete_one c org e)
delete_one-Keeps c org e d = delete_found-Keeps c org e (find_group e.id d) d

pub delete_groups-Keeps :
    (c : Context) (org : String) (entries : List Entry) → Keeps (delete_groups c org entries)
unfolding delete_groups
delete_groups-Keeps c org entries =
    bind-Keeps (require_member c org MembershipType.admin)
      (λ _. for_each entries (delete_one c org)) (require_member-Keeps c org _)
      (λ _. each-Keeps entries (delete_one c org) (delete_one-Keeps c org))

pub put_group_users-Keeps :
    (c : Context) (org id : String) (members : List String)
    → Keeps (put_group_users c org id members)
unfolding put_group_users
put_group_users-Keeps c org id members =
    bind-Keeps (require_groups_enabled c)
      (λ _. require_member c org MembershipType.admin >>= λ _. load_group org id >>= filled)
      (groups_enabled-Keeps c)
      (λ _. with_group-Keeps c org id filled (λ g.
        bind-Keeps (cleared g) (λ _. for_each members (add_member org g.uuid)) (λ d. refl)
          (λ _. each-Keeps members (add_member org g.uuid) (add_member-Keeps org g.uuid))))
  where
    cleared : Group → M Db (Unit {0})
    cleared g =
        modify λ d. record d {
          groups_users = delete_where (λ x. x.groups_uuid == g.uuid) d.groups_users;
        }

    filled : Group → M Db (Unit {0})
    filled g = cleared g >> for_each members (add_member org g.uuid)

pub put_member_groups-Keeps :
    (c : Context) (org member : String) (ids : List String)
    → Keeps (put_member_groups c org member ids)
unfolding put_member_groups
put_member_groups-Keeps c org member ids =
    bind-Keeps (require_member c org MembershipType.admin)
      (λ _. get (find_member member org) >>= λ found. loaded found >>= joined)
      (require_member-Keeps c org _)
      (λ _ d.
        bind-Keeps (loaded (find_member member org d)) joined
          (λ e.
            ap (λ (x : Db). x.users_organizations)
              (or_bad_request-reads _ (find_member member org d) e))
          (λ m. replace_member_groups-Keeps m ids) d)
  where
    loaded : Option Membership → M Db Membership
    loaded found = or_bad_request "User isn't member of the organization" found

    joined : Membership → M Db (Unit {0})
    joined m = replace_member_groups m ids
