-- ===== src/OrgMembers/InviteMoves.antt =====
-- An invitation keeps to `Moves`, over all its addresses.
use vaultur.Prelude.{
  ℕ, String, Bool, false, not, ◌≡◌, refl, sym, subst, inl, inr, ◌==◌, nat_instance, string_instance,
  ◌&&◌, Option, none, some, arith, List, Bool-cases,
}
use vaultur.Shared.MembershipType
use vaultur.Shared.EventType
use vaultur.Web.{ok, M, ◌>>◌, when, err_if, from_result}
use vaultur.Web.Steps.{
  after_read, err_if-reads, err_if-eq-ok, bind-Steps, when-Steps, for_each-Steps,
}
use vaultur.Db.{Db, User, Membership}
use vaultur.Db.Keys.{has_key}
use vaultur.Context.{Context, mailer_enabled}
use vaultur.Events.{log_org_event, org_user}
use vaultur.Memberships.{find_confirmed_membership}
use vaultur.Users.{find_user_by_email}
use vaultur.OrgMembers.Common.{
  require_member, parse_member_type, parse_assignments, CollectionAssignment,
  replace_member_collections, replace_member_groups,
}
use vaultur.OrgMembers.Invite.{
  is_owner_type, is_empty, invitees, invite, invite_one, invited_user, insert_user, insert_member,
  new_member, Invitee, InviteBody, owners_only, mail_invite,
}
use vaultur.OrgMembers.Moves.{Moves, Moves-refl, Moves-trans, insert-Moves}
use vaultur.OrgMembers.Kept.{
  Keeps, SameMembers, same_refl, same_trans, log_org_event-Keeps, replace_member_collections-Keeps,
  replace_member_groups-Keeps, mail_invite-Keeps,
}
use vaultur.OrgMembers.Writes.{IsOwner}
use vaultur.OrgMembers.MemberMoves.{Moved}
use vaultur.OrgMembers.EditMoves.{require_member-reads}

module _ (authority : Type 0) (org : String) where
  pub Moved-refl : (d : Db) → Moved authority org d d
  Moved-refl d = Moves-refl authority org d.users_organizations

  pub Moved-trans :
      (d e f : Db) → Moved authority org d e → Moved authority org e f → Moved authority org d f
  Moved-trans d e f =
      Moves-trans authority org d.users_organizations e.users_organizations f.users_organizations

  pub kept-Moved : {A : Type 0} (m : M Db A) → Keeps m → (d : Db) → Moved authority org d (m d).0
  kept-Moved m k d = subst (Moves authority org d.users_organizations) (sym (k d)) (Moved-refl d)

invited_user-Keeps :
    (c : Context) (org : String) (i : Invitee) (found : Option User)
    → Keeps (invited_user c org i found)
unfolding invited_user insert_user
invited_user-Keeps c org i none = λ d. ground arith
invited_user-Keeps c org i (some user) = λ d. ground arith

insert_member-Moved :
    (authority : Type 0) (m : Membership) (d : Db)
    → (m.atype ≡ MembershipType.owner → authority)
    → Moved authority m.org_uuid d (insert_member m d).0
unfolding insert_member
insert_member-Moved authority m d allowed =
    elim (Bool-cases (has_key (λ x. x.uuid) m.uuid d.users_organizations)) [
      | inl k ↦ rw (k, insert_member) (Moved-refl authority m.org_uuid d)
      | inr k ↦
          rw (k, insert_member)
            (insert-Moves authority m.org_uuid d.users_organizations m k refl allowed)
    ]

-- What follows the insertion of the new row.
abbrev announced :
    Context
    → String
    → Bool
    → List CollectionAssignment
    → List String
    → Invitee
    → User
    → Membership
    → M Db (Unit {0})
announced c org access_all assignments groups i user m = do
  when (not access_all) (replace_member_collections m assignments)
  replace_member_groups m groups
  when (mailer_enabled c) (mail_invite c org user.uuid i.address m.uuid)
  log_org_event c i.fresh_event EventType.organization_user_invited org (org_user m.uuid)
      (some c.device.atype)

announced-Keeps :
    (c : Context) (org : String) (access_all : Bool) (assignments : List CollectionAssignment)
    (groups : List String) (i : Invitee) (user : User) (m : Membership)
    → Keeps (announced c org access_all assignments groups i user m)
announced-Keeps c org access_all assignments groups i user m d =
    bind-Steps R r t (when (not access_all) (replace_member_collections m assignments)) _
      (when-Steps R r t _ _ (replace_member_collections-Keeps m assignments))
      (λ _ d.
        bind-Steps R r t (replace_member_groups m groups) _ (replace_member_groups-Keeps m groups)
          (λ _ d.
            bind-Steps R r t
              (when (mailer_enabled c) (mail_invite c org user.uuid i.address m.uuid)) _
              (when-Steps R r t _ _ (mail_invite-Keeps c org user.uuid i.address m.uuid))
              (λ _ d. log_org_event-Keeps c i.fresh_event _ org _ _ d) d)
          d)
      d
  where
    R : Db → Db → Type 0
    R = SameMembers

    r : (d : Db) → R d d
    r = same_refl

    t : (d e f : Db) → R d e → R e f → R d f
    t = same_trans

module _ (authority : Type 0) (c : Context) (org : String) (atype : ℕ) (access_all : Bool)
    (assignments : List CollectionAssignment) (groups : List String)
    (allowed : atype ≡ MembershipType.owner → authority) where
  invite_one-Moved :
      (i : Invitee) (d : Db)
      → Moved authority org d (invite_one c org atype access_all assignments groups i d).0
  unfolding invite_one new_member
  invite_one-Moved i d =
      bind-Steps R r t (invited_user c org i (find_user_by_email c i.address d)) added
        (kept-Moved authority org (invited_user c org i (find_user_by_email c i.address d))
          (invited_user-Keeps c org i (find_user_by_email c i.address d)))
        (λ user.
          bind-Steps R r t (insert_member (row user)) (λ _. rest user)
            (λ e. insert_member-Moved authority (row user) e allowed)
            (λ _.
              kept-Moved authority org (rest user)
                (announced-Keeps c org access_all assignments groups i user (row user))))
        d
    where
      R : Db → Db → Type 0
      R = Moved authority org

      r : (d : Db) → R d d
      r = Moved-refl authority org

      t : (d e f : Db) → R d e → R e f → R d f
      t = Moved-trans authority org

      row : User → Membership
      row user = new_member c org atype access_all i user

      rest : User → M Db (Unit {0})
      rest user = announced c org access_all assignments groups i user (row user)

      added : User → M Db (Unit {0})
      added user = insert_member (row user) >> rest user

owners_only-reads :
    (c : Context) (org : String) (about_owner : Bool) (message : String) (d : Db)
    → (owners_only c org about_owner message d).0 ≡ d
unfolding owners_only
owners_only-reads c org about_owner message d = err_if-reads _ message d

owners_only-eq-ok :
    (c : Context) (org : String) (about_owner : Bool) (message : String) (d : Db) {a : Unit {0}}
    → owners_only c org about_owner message d ≡ (d, ok a)
    → (about_owner && not (is_owner_type (find_confirmed_membership c.user.uuid org d))) ≡ false
unfolding owners_only
owners_only-eq-ok c org about_owner message d h = err_if-eq-ok _ message d h

-- Each new row has the type that was asked for, which the guard ties to the rights of the user.
pub invite-Moves :
    (c : Context) (org : String) (body : InviteBody) (d : Db)
    → Moved (IsOwner c org d) org d (invite c org body d).0
unfolding invite
invite-Moves c org body d =
    after_read R (require_member c org MembershipType.admin) _ d (require_member-reads c org _ d)
      stay
      λ _ _. after_read R (from_result (parse_member_type body.atype)) _ d refl stay λ atype _.
        after_read R (err_if (is_empty (invitees c body)) "No email addresses provided") _ d
          (err_if-reads _ _ d) stay
          λ _ _.
            after_read R
              (owners_only c org (atype == MembershipType.owner) "Only Owners can invite Owners") _
              d (owners_only-reads c org _ _ d) stay
              λ _ eg.
                let granted = owners_only-eq-ok c org _ _ d eg in
                for_each-Steps (Moved (IsOwner c org d) org) (Moved-refl _ org) (Moved-trans _ org)
                  (invitees c body)
                  (invite_one c org atype body.access_all (parse_assignments body.collections)
                    body.groups)
                  (invite_one-Moved (IsOwner c org d) c org atype body.access_all _ body.groups
                    (λ t. ground (arith, t, granted)))
                  d
  where
    R : Db → Type 0
    R e = Moved (IsOwner c org d) org d e

    stay : R d
    stay = Moved-refl (IsOwner c org d) org d
