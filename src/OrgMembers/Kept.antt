-- ===== src/OrgMembers/Kept.antt =====
-- The steps of the handlers that do not write to the table of members.
use vaultur.Prelude.{ℕ, String, ◌≡◌, refl, ◌∙◌, ◌==◌, string_instance, ◌&&◌, Option, arith, List}
use vaultur.Prelude.Table.{delete_where}
use vaultur.Web.{M, for_each, ◌>>=◌}
use vaultur.Web.Steps.{bind-Steps, for_each-Steps}
use vaultur.Db.{Db, Membership}
use vaultur.Context.{Context}
use vaultur.Events.{log_org_event, insert_event, Target}
use vaultur.OrgMembers.Common.{
  CollectionAssignment, insert_user_collection, assign, replace_member_collections, join_group,
  join_group_of, replace_member_groups, find_group, require_member, has_collection,
}
use vaultur.OrgMembers.Invite.{mail_invite}

abbrev pub SameMembers : Db → Db → Type 0
SameMembers d e = e.users_organizations ≡ d.users_organizations

abbrev pub same_refl : (d : Db) → SameMembers d d
same_refl d = refl

abbrev pub same_trans : (d e f : Db) → SameMembers d e → SameMembers e f → SameMembers d f
same_trans d e f h k = k ∙ h

-- A step that keeps the table of members.
abbrev pub Keeps : {A : Type 0} → M Db A → Type 0
Keeps m = (d : Db) → SameMembers d (m d).0

-- Steps one after another that keep the table.
pub bind-Keeps :
    {A B : Type 0} (m : M Db A) (f : A → M Db B)
    → Keeps m
    → ((a : A) → Keeps (f a))
    → Keeps (m >>= f)
bind-Keeps m f = bind-Steps SameMembers same_refl same_trans m f

pub each-Keeps :
    {X : Type 0} (xs : List X) (body : X → M Db (Unit {0}))
    → ((x : X) → Keeps (body x))
    → Keeps (for_each xs body)
each-Keeps xs body = for_each-Steps SameMembers same_refl same_trans xs body

pub require_member-Keeps :
    (c : Context) (org : String) (min_type : ℕ) → Keeps (require_member c org min_type)
unfolding require_member
require_member-Keeps c org min_type d = ground arith

pub log_org_event-Keeps :
    (c : Context) (fresh : String) (event_type : ℕ) (org : String) (about : Target)
    (device : Option ℕ)
    → Keeps (log_org_event c fresh event_type org about device)
unfolding log_org_event insert_event
log_org_event-Keeps c fresh event_type org about device d = ground arith

assign-Keeps : (m : Membership) (a : CollectionAssignment) → Keeps (assign m a)
unfolding insert_user_collection
assign-Keeps m a d = ground arith

pub replace_member_collections-Keeps :
    (m : Membership) (xs : List CollectionAssignment) → Keeps (replace_member_collections m xs)
unfolding replace_member_collections
replace_member_collections-Keeps m xs d =
    for_each-Steps SameMembers same_refl same_trans xs (assign m) (assign-Keeps m) (record d {
      users_collections =
          delete_where
            (λ r. r.user_uuid == m.user_uuid && has_collection m.org_uuid r.collection_uuid d)
            d.users_collections;
    })

join_group_of-Keeps : (m : Membership) (id : String) → Keeps (join_group_of m id)
unfolding join_group find_group
join_group_of-Keeps m id d = ground arith

pub replace_member_groups-Keeps :
    (m : Membership) (ids : List String) → Keeps (replace_member_groups m ids)
unfolding replace_member_groups
replace_member_groups-Keeps m ids d =
    for_each-Steps SameMembers same_refl same_trans ids (join_group_of m) (join_group_of-Keeps m)
      (record d {
        groups_users = delete_where (λ g. g.users_organizations_uuid == m.uuid) d.groups_users;
      })

pub mail_invite-Keeps :
    (c : Context) (org user to member : String) → Keeps (mail_invite c org user to member)
unfolding mail_invite
mail_invite-Keeps c org user to member d = ground arith
