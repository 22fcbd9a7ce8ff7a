-- ===== src/OrgMembers/Routes.antt =====
-- api/org-members.ts: the routes that write, as requests, and the tables after a history of them.
use vaultur.Prelude.{ℕ, String, Bool, Option, List, [], ◌∷◌}
use vaultur.Db.{Db}
use vaultur.Context.{Context}
use vaultur.OrgMembers.Invite.{InviteBody, invite, reinvite, reinvite_bulk}
use vaultur.OrgMembers.Lifecycle.{
  EditBody, Entry, ConfirmEntry, accept, confirm, confirm_bulk, edit_member, remove, remove_bulk,
  revoke_or_restore, set_revoked_bulk,
}
use vaultur.OrgMembers.Groups.{
  GroupBody, create_group, update_group, delete_group_user, delete_group, delete_groups,
  put_group_users, put_member_groups,
}
use vaultur.OrgMembers.PolicyRoutes.{put_policy}
use vaultur.OrgMembers.Recovery.{ResetBody, reset_password, enroll}

-- The routes with their arguments; the uuids, salts and stamps that they draw are among these.
pub data Request : Type 0 where
  inviting : InviteBody → Request
  reinviting : String → Request
  reinviting_all : List String → Request
  accepting : (id : String) → (token : Option String) → Request
  confirming : (event id : String) → (key : Option String) → Request
  confirming_all : List ConfirmEntry → Request
  editing : (event id : String) → EditBody → Request
  removing : (event id : String) → Request
  removing_all : List Entry → Request
  setting_revoked : (revoke : Bool) → (event id : String) → Request
  setting_revoked_all : (revoke : Bool) → List Entry → Request
  creating_group : (fresh event : String) → GroupBody → Request
  updating_group : (event : String) → GroupBody → (id : String) → Request
  deleting_group_user : (id member : String) → Request
  deleting_group : (event id : String) → Request
  deleting_groups : List Entry → Request
  putting_group_users : (id : String) → List String → Request
  putting_member_groups : (member : String) → List String → Request
  putting_policy :
      (fresh event : String) → (atype : ℕ) → (enabled : Bool) → (text : String) → Request
  resetting : (event salt stamp : String) → ResetBody → (id : String) → Request
  enrolling : (event id : String) → (key : Option String) → Request

-- The tables after a request on the organization `org`, whether it returned or failed.
unfoldable pub handle : Context → String → Request → Db → Db
handle c org (inviting body) d = (invite c org body d).0
handle c org (reinviting id) d = (reinvite c org id d).0
handle c org (reinviting_all ids) d = (reinvite_bulk c org ids d).0
handle c org (accepting id token) d = (accept c org id token d).0
handle c org (confirming event id key) d = (confirm c org event id key d).0
handle c org (confirming_all entries) d = (confirm_bulk c org entries d).0
handle c org (editing event id body) d = (edit_member c org event id body d).0
handle c org (removing event id) d = (remove c org event id d).0
handle c org (removing_all entries) d = (remove_bulk c org entries d).0
handle c org (setting_revoked revoke event id) d = (revoke_or_restore revoke c org event id d).0
handle c org (setting_revoked_all revoke entries) d = (set_revoked_bulk revoke c org entries d).0
handle c org (creating_group fresh event body) d = (create_group c org fresh event body d).0
handle c org (updating_group event body id) d = (update_group c org event body id d).0
handle c org (deleting_group_user id member) d = (delete_group_user c org id member d).0
handle c org (deleting_group event id) d = (delete_group c org event id d).0
handle c org (deleting_groups entries) d = (delete_groups c org entries d).0
handle c org (putting_group_users id members) d = (put_group_users c org id members d).0
handle c org (putting_member_groups member ids) d = (put_member_groups c org member ids d).0
handle c org (putting_policy fresh event atype enabled text) d =
    (put_policy c org fresh event atype enabled text d).0
handle c org (resetting event salt stamp body id) d =
    (reset_password c org event salt stamp body id d).0
handle c org (enrolling event id key) d = (enroll c org event id key d).0

-- A request with its context (the user above all) and its organization.
pub record Call : Type 0 where
  pub context : Context
  pub org : String
  pub request : Request

unfoldable pub run : List Call → Db → Db
run [] d = d
run (r ∷ rs) d = run rs (handle r.context r.org r.request d)
