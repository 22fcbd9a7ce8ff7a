-- ===== src/OrgMembers/Owners.antt =====
-- Every request on an organization keeps to `Moves`.
use vaultur.Prelude.{
  String, Bool, true, false, not, ◌≡◌, ◌≢◌, ◌↔◌, refl, sym, subst, ◌⊎◌, inl, inr, Option, none,
  List, [], ◌∷◌, Memᴰ, or_else, truthy,
}
use vaultur.Shared.MembershipType
use vaultur.Web.{M, pure, ◌>>=◌, ◌>>◌, for_each, attempt, err_if}
use vaultur.Web.Steps.{after_read, err_if-reads, bind-Steps, for_each-Steps, attempt-Steps}
use vaultur.Db.{Db, Membership}
use vaultur.Context.{Context}
use vaultur.OrgMembers.Common.{require_member}
use vaultur.OrgMembers.Invite.{reinvite, reinvite_bulk, reinvite_member, bulk}
use vaultur.OrgMembers.Lifecycle.{
  confirm, confirm_bulk, confirm_member, remove, remove_bulk, remove_member, revoke_or_restore,
  set_revoked, set_revoked_bulk,
}
use vaultur.OrgMembers.Routes.{handle, run, Call, Request}
use vaultur.OrgMembers.Moves.{Moves, Moves-refl, Unique, HasOwner}
use vaultur.OrgMembers.Writes.{IsOwner}
use vaultur.OrgMembers.MemberMoves.{
  Moved, confirm-Moves, accept-Moves, remove-Moves, revoke-Moves, restore-Moves,
}
use vaultur.OrgMembers.EditMoves.{require_member-reads, edit-Moves}
use vaultur.OrgMembers.InviteMoves.{Moved-refl, Moved-trans, kept-Moved, invite-Moves}
use vaultur.OrgMembers.PolicyMoves.{put_policy-Moves}
use vaultur.OrgMembers.GroupKeeps.{
  upsert_group-Keeps, update_group-Keeps, delete_group_user-Keeps, delete_group-Keeps,
  delete_groups-Keeps, put_group_users-Keeps, put_member_groups-Keeps,
}
use vaultur.OrgMembers.RecoveryMoves.{reset_password-Keeps, reinvite_member-Keeps, enroll-Moves}

module _ (authority : Type 0) (c : Context) (org : String) where
  -- An administrator's step.
  guarded-Moved :
      (m : M Db (Unit {0})) (d : Db)
      → Moved authority org d (m d).0
      → Moved authority org d ((require_member c org MembershipType.admin >>= λ _. m) d).0
  guarded-Moved m d h =
      after_read (λ e. Moved authority org d e) (require_member c org MembershipType.admin) (λ _. m)
        d (require_member-reads c org _ d) (Moved-refl authority org d) (λ _ _. h)

  bulk-Moved :
      {X : Type 0} (xs : List X) (each : X → M Db (Unit {0}))
      → ((x : X) (d : Db) → Moved authority org d (each x d).0)
      → (d : Db) → Moved authority org d (bulk c org xs each d).0
  unfolding bulk
  bulk-Moved xs each h d = guarded-Moved (for_each xs (λ x. attempt (each x) >>= λ _. pure tt)) d (
      for_each-Steps R r t xs (λ x. attempt (each x) >>= λ _. pure tt)
        (λ x.
          bind-Steps R r t (attempt (each x)) (λ _. pure tt) (attempt-Steps R r t (each x) (h x))
            (λ _. r))
        d)
    where
      R : Db → Db → Type 0
      R = Moved authority org

      r : (d : Db) → R d d
      r = Moved-refl authority org

      t : (d e f : Db) → R d e → R e f → R d f
      t = Moved-trans authority org

  confirm-Moved :
      (event id : String) (key : Option String) (d : Db)
      → Moved authority org d (confirm c org event id key d).0
  unfolding confirm
  confirm-Moved event id key d =
      guarded-Moved
        (err_if (not (truthy key)) "key cannot be blank"
          >> confirm_member c org event id (or_else key ""))
        d
        (after_read (λ e. Moved authority org d e) (err_if (not (truthy key)) "key cannot be blank")
          (λ _. confirm_member c org event id (or_else key "")) d (err_if-reads _ _ d)
          (Moved-refl authority org d)
          (λ _ _. confirm-Moves authority org d c event id (or_else key "")))

  set_revoked-Moved :
      (revoke : Bool) (event id : String) (d : Db)
      → Moved authority org d (set_revoked revoke c org event id d).0
  set_revoked-Moved true event id d = revoke-Moves authority org d c event id
  set_revoked-Moved false event id d = restore-Moves authority org d c event id

rows-Moves :
    (authority : Type 0) (org : String) (before : List Membership) {after : List Membership}
    → after ≡ before
    → Moves authority org before after
rows-Moves authority org before e =
    subst (Moves authority org before) (sym e) (Moves-refl authority org before)

pub handle-Moves :
    (c : Context) (org : String) (r : Request) (d : Db)
    → Moved (IsOwner c org d) org d (handle c org r d)
unfolding handle reinvite reinvite_bulk confirm_bulk remove remove_bulk revoke_or_restore
    set_revoked_bulk
handle-Moves c org (Request.inviting body) d = invite-Moves c org body d
handle-Moves c org (Request.reinviting id) d =
    guarded-Moved _ c org (reinvite_member c org id) d
      (kept-Moved _ org (reinvite_member c org id) (reinvite_member-Keeps c org id) d)
handle-Moves c org (Request.reinviting_all ids) d =
    bulk-Moved _ c org ids (reinvite_member c org)
      (λ id. kept-Moved _ org (reinvite_member c org id) (reinvite_member-Keeps c org id)) d
handle-Moves c org (Request.accepting id token) d = accept-Moves _ org d c id token
handle-Moves c org (Request.confirming event id key) d = confirm-Moved _ c org event id key d
handle-Moves c org (Request.confirming_all entries) d =
    bulk-Moved _ c org entries (λ e. confirm_member c org e.fresh_event e.id e.key)
      (λ e d. confirm-Moves _ org d c e.fresh_event e.id e.key) d
handle-Moves c org (Request.editing event id body) d = edit-Moves c org event id body d
handle-Moves c org (Request.removing event id) d =
    guarded-Moved _ c org (remove_member c org event id) d (remove-Moves _ org d c event id)
handle-Moves c org (Request.removing_all entries) d =
    bulk-Moved _ c org entries (λ e. remove_member c org e.fresh_event e.id)
      (λ e d. remove-Moves _ org d c e.fresh_event e.id) d
handle-Moves c org (Request.setting_revoked revoke event id) d =
    guarded-Moved _ c org (set_revoked revoke c org event id) d
      (set_revoked-Moved _ c org revoke event id d)
handle-Moves c org (Request.setting_revoked_all revoke entries) d =
    bulk-Moved _ c org entries (λ e. set_revoked revoke c org e.fresh_event e.id)
      (λ e. set_revoked-Moved _ c org revoke e.fresh_event e.id) d
handle-Moves c org (Request.creating_group fresh event body) d =
    rows-Moves _ org d.users_organizations (upsert_group-Keeps c org fresh event body none d)
handle-Moves c org (Request.updating_group event body id) d =
    rows-Moves _ org d.users_organizations (update_group-Keeps c org event body id d)
handle-Moves c org (Request.deleting_group_user id member) d =
    rows-Moves _ org d.users_organizations (delete_group_user-Keeps c org id member d)
handle-Moves c org (Request.deleting_group event id) d =
    rows-Moves _ org d.users_organizations (delete_group-Keeps c org event id d)
handle-Moves c org (Request.deleting_groups entries) d =
    rows-Moves _ org d.users_organizations (delete_groups-Keeps c org entries d)
handle-Moves c org (Request.putting_group_users id members) d =
    rows-Moves _ org d.users_organizations (put_group_users-Keeps c org id members d)
handle-Moves c org (Request.putting_member_groups member ids) d =
    rows-Moves _ org d.users_organizations (put_member_groups-Keeps c org member ids d)
handle-Moves c org (Request.putting_policy fresh event atype enabled text) d =
    put_policy-Moves _ c org fresh event atype enabled text d
handle-Moves c org (Request.resetting event salt stamp body id) d =
    rows-Moves _ org d.users_organizations (reset_password-Keeps c org event salt stamp body id d)
handle-Moves c org (Request.enrolling event id key) d = enroll-Moves _ c org event id key d

-- After any history of requests, under any users, on any organizations, an organization that had a
-- confirmed owner has one still, given that no two rows of members had one uuid at the start.
pub owners_remain :
    (history : List Call) (o : String) (d : Db)
    → Unique d.users_organizations
    → HasOwner o d.users_organizations
    → HasOwner o (run history d).users_organizations
unfolding run
owners_remain [] o d u h = h
owners_remain (r ∷ rs) o d u h =
    let m = handle-Moves r.context r.org r.request d in
    owners_remain rs o (handle r.context r.org r.request d) (m.unique u) (m.owned o u h)

-- Where the uuids of members are unique, a row of type Owner that is there after a request was one
-- before, of the same organization, or the user of the request is a confirmed owner of its organization.
pub owners_by_owners :
    (c : Context) (org : String) (r : Request) (d : Db) (y : Membership)
    → Unique d.users_organizations
    → Memᴰ y (handle c org r d).users_organizations
    → y.atype ≡ MembershipType.owner
    → IsOwner c y.org_uuid d
      ⊎ ((x : Membership) × Memᴰ x d.users_organizations
          × (x.uuid ≡ y.uuid)
          × (x.org_uuid ≡ y.org_uuid)
          × (x.atype ≡ MembershipType.owner))
owners_by_owners c org r d y u n t =
    let m = handle-Moves c org r d in
    elim (m.local u y n) [
      | inl k ↦ inr (y, k, refl, refl, t)
      | inr e ↦ elim (m.owners u y n t) [
        | inl w ↦ inl (subst (λ o. IsOwner c o d) (sym e) w)
        | inr w ↦ inr w
      ]
    ]

-- Where the uuids of members are unique, a request on one organization neither adds, changes nor
-- deletes a member of another: a row of another organization is there after it exactly if it was before.
pub other_organizations_kept :
    (c : Context) (org : String) (r : Request) (d : Db) (y : Membership)
    → Unique d.users_organizations
    → y.org_uuid ≢ org
    → Memᴰ y (handle c org r d).users_organizations ↔ Memᴰ y d.users_organizations
other_organizations_kept c org r d y u e =
    let m = handle-Moves c org r d in
    (
      λ n. elim (m.local u y n) [ inl k ↦ k | inr k ↦ absurd (e k) ],
      λ n. elim (m.others u y n) [ inl k ↦ k | inr k ↦ absurd (e k) ],
    )
