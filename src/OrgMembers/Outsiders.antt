-- ===== src/OrgMembers/Outsiders.antt =====
-- A user who is no administrator of an organization changes nothing in it but their own row.
use vaultur.Prelude.{
  String, Bool, true, false, not, ◌≡◌, refl, inl, inr, Option, none, some, Option-cases,
}
use vaultur.Shared.MembershipType
use vaultur.Web.{M, ◌>>=◌, ◌>>◌, err_if}
use vaultur.Db.{Db, Membership}
use vaultur.Context.{Context}
use vaultur.Memberships.{find_confirmed_membership, is_at_least}
use vaultur.OrgMembers.Common.{require_member}
use vaultur.OrgMembers.Invite.{invite, reinvite, reinvite_bulk, bulk}
use vaultur.OrgMembers.Lifecycle.{
  confirm, confirm_bulk, edit_member, remove, remove_bulk, revoke_or_restore, set_revoked_bulk,
}
use vaultur.OrgMembers.Groups.{
  require_groups_enabled, upsert_group, update_group, delete_group_user, delete_group,
  delete_groups, put_group_users, put_member_groups,
}
use vaultur.OrgMembers.PolicyRoutes.{put_policy}
use vaultur.OrgMembers.Recovery.{reset_password}
use vaultur.OrgMembers.Routes.{handle, Request}

abbrev is_admin_row : Option Membership → Bool
is_admin_row none = false
is_admin_row (some m) = is_at_least m.atype MembershipType.admin

-- The user is a confirmed administrator or owner.
abbrev pub is_admin : Context → String → Db → Bool
is_admin c org d = is_admin_row (find_confirmed_membership c.user.uuid org d)

-- The two routes of a member on their own row.
abbrev pub is_own : Request → Bool
is_own (Request.accepting id token) = true
is_own (Request.enrolling event id key) = true
is_own _ = false

-- A test before a handler that writes nothing.
tested :
    {A : Type 0} (b : Bool) (message : String) (m : M Db A) (d : Db)
    → (m d).0 ≡ d
    → ((err_if b message >> m) d).0 ≡ d
tested true message m d h = refl
tested false message m d h = h

module _ (c : Context) (org : String) (d : Db) (h : is_admin c org d ≡ false) where
  refused :
      {A : Type 0} (f : Membership → M Db A)
      → ((require_member c org MembershipType.admin >>= f) d).0 ≡ d
  unfolding require_member
  refused f = elim (Option-cases (find_confirmed_membership c.user.uuid org d)) [
    | inl e ↦ rw (e, require_member) refl
    | inr (m, e) ↦
        let k : is_at_least m.atype MembershipType.admin ≡ false = (let q = rw e at h in q) in
        rw (e, require_member, k) refl
  ]

  -- The routes on groups test the configuration first.
  gated :
      {A : Type 0} (f : Membership → M Db A)
      → ((require_groups_enabled c >> (require_member c org MembershipType.admin >>= f)) d).0 ≡ d
  gated f =
      tested (not c.config.org_groups_enabled) "Group support is disabled"
        (require_member c org MembershipType.admin >>= f) d (refused f)

-- Unless the request is one on the user's own row (accept, or the enrollment in account recovery), a
-- user who is not a confirmed administrator or owner of the organization changes no table at all.
pub outsider_changes_nothing :
    (c : Context) (org : String) (r : Request) (d : Db)
    → is_admin c org d ≡ false
    → is_own r ≡ false
    → handle c org r d ≡ d
unfolding handle invite reinvite reinvite_bulk bulk confirm confirm_bulk edit_member remove
    remove_bulk revoke_or_restore set_revoked_bulk upsert_group update_group delete_group_user
    delete_group delete_groups put_group_users put_member_groups put_policy reset_password
outsider_changes_nothing c org (Request.inviting body) d h k = refused c org d h _
outsider_changes_nothing c org (Request.reinviting id) d h k = refused c org d h _
outsider_changes_nothing c org (Request.reinviting_all ids) d h k = refused c org d h _
outsider_changes_nothing c org (Request.accepting id token) d h k = absurd (cc)
outsider_changes_nothing c org (Request.confirming event id key) d h k = refused c org d h _
outsider_changes_nothing c org (Request.confirming_all entries) d h k = refused c org d h _
outsider_changes_nothing c org (Request.editing event id body) d h k = refused c org d h _
outsider_changes_nothing c org (Request.removing event id) d h k = refused c org d h _
outsider_changes_nothing c org (Request.removing_all entries) d h k = refused c org d h _
outsider_changes_nothing c org (Request.setting_revoked revoke event id) d h k = refused c org d h _
outsider_changes_nothing c org (Request.setting_revoked_all revoke entries) d h k =
    refused c org d h _
outsider_changes_nothing c org (Request.creating_group fresh event body) d h k = gated c org d h _
outsider_changes_nothing c org (Request.updating_group event body id) d h k = refused c org d h _
outsider_changes_nothing c org (Request.deleting_group_user id member) d h k = refused c org d h _
outsider_changes_nothing c org (Request.deleting_group event id) d h k = gated c org d h _
outsider_changes_nothing c org (Request.deleting_groups entries) d h k = refused c org d h _
outsider_changes_nothing c org (Request.putting_group_users id members) d h k = gated c org d h _
outsider_changes_nothing c org (Request.putting_member_groups member ids) d h k =
    refused c org d h _
outsider_changes_nothing c org (Request.putting_policy fresh event atype enabled text) d h k =
    refused c org d h _
outsider_changes_nothing c org (Request.resetting event salt stamp body id) d h k =
    refused c org d h _
outsider_changes_nothing c org (Request.enrolling event id key) d h k = absurd (cc)
