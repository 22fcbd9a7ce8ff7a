-- ===== src/OrgMembers/RecoveryMoves.antt =====
-- Account recovery and repeated invitations do not write to the table of members; an enrollment keeps
-- to `Moves`.
use vaultur.Prelude.{
  String, true, not, ◌≡◌, refl, subst, inl, inr, ◌==◌, nat_instance, string_instance, ◌||◌, Option,
  none, some, arith, Bool-cases, Option-cases, truthy, or_else,
}
use vaultur.Prelude.Int.{int_instance}
use vaultur.Prelude.Table.{update_where}
use vaultur.Shared.EventType
use vaultur.Shared.MembershipType
use vaultur.Shared.MembershipStatus
use vaultur.Web.{M, modify, ◌>>◌, when, err_if}
use vaultur.Web.Steps.{after_read, err_if-reads, when-Steps}
use vaultur.Db.{Db, User, Membership}
use vaultur.Context.{Context, mailer_enabled}
use vaultur.Users.{find_user_by_uuid}
use vaultur.Events.{log_org_event, org_user}
use vaultur.OrgMembers.Common.{
  require_member, find_member, set_member, is_confirmed_owner, asserted, or_bad_request,
}
use vaultur.OrgMembers.Invite.{reinvite_member}
use vaultur.OrgMembers.Recovery.{
  reset_password, load_resettable, write_reset, mail_reset, ResetBody, reset_user, enroll, enrolled,
}
use vaultur.OrgMembers.Moves.{Moves, update-Moves}
use vaultur.OrgMembers.Kept.{
  Keeps, bind-Keeps, SameMembers, same_refl, same_trans, log_org_event-Keeps, mail_invite-Keeps,
}
use vaultur.OrgMembers.Writes.{Writes, changed}
use vaultur.OrgMembers.EditMoves.{or_bad_request-reads, require_member-reads}
use vaultur.OrgMembers.MemberMoves.{Moved, found_member, written-Moves}

pub load_resettable-reads :
    (org id : String) (actor : Membership) (d : Db) → (load_resettable org id actor d).0 ≡ d
unfolding load_resettable
load_resettable-reads org id actor d = elim (Option-cases (find_member id org d)) [
  | inl e ↦ rw (e, load_resettable) refl
  | inr (m, e) ↦ rw (e, load_resettable) (ground arith)
]

mail_reset-Keeps : (org : String) (member : User) → Keeps (mail_reset org member)
unfolding mail_reset
mail_reset-Keeps org member d = ground arith

asserted-Keeps : {A : Type 0} (found : Option A) → Keeps (asserted found)
asserted-Keeps none = λ d. refl
asserted-Keeps (some a) = λ d. refl

write_reset-Keeps :
    (c : Context) (org event salt stamp : String) (body : ResetBody) (m : Membership)
    → Keeps (write_reset c org event salt stamp body m)
unfolding write_reset
write_reset-Keeps c org event salt stamp body m d =
    bind-Keeps (asserted (find_user_by_uuid m.user_uuid d)) written (asserted-Keeps _)
      (λ member.
        bind-Keeps (stored member) (λ _. told member) (λ e. refl)
          (λ _.
            bind-Keeps (when (mailer_enabled c) (mail_reset org member)) (λ _. logged)
              (when-Steps SameMembers same_refl same_trans _ _ (mail_reset-Keeps org member))
              (λ _. log_org_event-Keeps c event _ org _ _)))
      d
  where
    logged : M Db (Unit {0})
    logged =
        log_org_event c event EventType.organization_user_admin_reset_password org (org_user m.uuid)
          (some c.device.atype)

    told : User → M Db (Unit {0})
    told member = when (mailer_enabled c) (mail_reset org member) >> logged

    stored : User → M Db (Unit {0})
    stored member = modify λ d. record d {
      users =
          update_where (λ u. u.uuid == member.uuid)
            (reset_user c salt stamp (or_else body.new_master_password_hash "")
              (or_else body.key ""))
            d.users;
    }

    written : User → M Db (Unit {0})
    written member = stored member >> told member

asserted-reads : {A : Type 0} (found : Option A) (d : Db) → (asserted found d).0 ≡ d
asserted-reads none d = refl
asserted-reads (some a) d = refl

pub reset_password-Keeps :
    (c : Context) (org event salt stamp : String) (body : ResetBody) (id : String)
    → Keeps (reset_password c org event salt stamp body id)
unfolding reset_password
reset_password-Keeps c org event salt stamp body id d =
    after_read (SameMembers d) (require_member c org MembershipType.admin) _ d
      (require_member-reads c org _ d) refl
      λ actor _.
        after_read (SameMembers d) (load_resettable org id actor) _ d
          (load_resettable-reads org id actor d) refl
          λ m _.
            after_read (SameMembers d)
              (err_if (not (truthy m.reset_password_key))
                "Password reset not or not correctly enrolled")
              _ d (err_if-reads _ _ d) refl
              λ _ _.
                after_read (SameMembers d)
                  (err_if (not (m.status == MembershipStatus.confirmed))
                    "Organization user must be confirmed for password reset functionality")
                  _ d (err_if-reads _ _ d) refl
                  λ _ _.
                    after_read (SameMembers d)
                      (err_if (not (truthy body.new_master_password_hash) || not (truthy body.key))
                        "Missing required fields")
                      _ d (err_if-reads _ _ d) refl
                      λ _ _. write_reset-Keeps c org event salt stamp body m d

pub reinvite_member-Keeps : (c : Context) (org id : String) → Keeps (reinvite_member c org id)
unfolding reinvite_member
reinvite_member-Keeps c org id d =
    after_read (SameMembers d)
      (or_bad_request "The user hasn't been invited to the organization." (find_member id org d)) _
      d (or_bad_request-reads _ (find_member id org d) d) refl
      λ m _.
        after_read (SameMembers d)
          (err_if (not (m.status == MembershipStatus.invited))
            "The user is already accepted or confirmed to the organization")
          _ d (err_if-reads _ _ d) refl
          λ _ _.
            after_read (SameMembers d) (asserted (find_user_by_uuid m.user_uuid d)) _ d
              (asserted-reads (find_user_by_uuid m.user_uuid d) d) refl
              λ target _. elim (Bool-cases (mailer_enabled c)) [
                | inl k ↦ rw k (mail_invite-Keeps c org target.uuid target.email m.uuid d)
                | inr k ↦ rw k (ground arith)
              ]

-- The key of the actor's own row, and nothing else.
pub enroll-Writes :
    (c : Context) (org event id : String) (key : Option String) (d : Db)
    → Writes
        (find_member id org d)
        d.users_organizations
        (enroll c org event id key d).0.users_organizations
        (λ m. (m.user_uuid == c.user.uuid) ≡ true)
        (λ m. changed d.users_organizations id (enrolled key))
unfolding enroll set_member
enroll-Writes c org event id key d = elim (Option-cases (find_member id org d)) [
  | inl e ↦ rw (e, enroll) refl
  | inr (m, e) ↦ elim (Bool-cases (m.user_uuid == c.user.uuid)) [
    | inr k ↦ rw (e, enroll, k) (inl refl)
    | inl k ↦ rw (e, enroll, k) (inr (refl, log_org_event-Keeps c event _ org _ none (written d)))
  ]
]
  where
    written : Db → Db
    written d = record d { users_organizations = changed d.users_organizations id (enrolled key) }

pub enroll-Moves :
    (authority : Type 0) (c : Context) (org event id : String) (key : Option String) (d : Db)
    → Moved authority org d (enroll c org event id key d).0
enroll-Moves authority c org event id key d =
    written-Moves authority org d (find_member id org d) _ _ _ (enroll-Writes c org event id key d)
      λ m e _.
        let (stored, here, there) = found_member id org d m e in
        subst
          (λ i.
            Moves authority org d.users_organizations
              (changed d.users_organizations i (enrolled key)))
          here
          (update-Moves authority org d.users_organizations m stored there (enrolled key)
            (λ r. (refl, refl)) (λ t. inr t)
            (elim (Bool-cases (is_confirmed_owner m.org_uuid m)) [
              | inl k ↦ inl k
              | inr k ↦ inr (inl k)
            ]))
