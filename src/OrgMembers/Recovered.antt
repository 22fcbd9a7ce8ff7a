-- ===== src/OrgMembers/Recovered.antt =====
-- Who may reset whose master password, and what a reset writes to the table of users.
use vaultur.Prelude.{
  ℕ, String, Bool, true, false, not, ◌≡◌, refl, subst, ap, ◌∙◌, ◌⊎◌, inl, inr, ◌==◌, nat_instance,
  string_instance, ◌||◌, Option, some, arith, Bool-cases, Option-cases, truthy, or_else, eq_iff,
}
use vaultur.Prelude.Int.{int_instance}
use vaultur.Prelude.Table.{update_where, find_first-holds}
use vaultur.Shared.EventType
use vaultur.Shared.MembershipType
use vaultur.Shared.MembershipStatus
use vaultur.Web.{ok, M, ◌>>◌, when, err_if}
use vaultur.Web.Steps.{after_read, err_if-reads, err_if-eq-ok}
use vaultur.Db.{Db, User, Membership}
use vaultur.Context.{Context, mailer_enabled}
use vaultur.Users.{find_user_by_uuid}
use vaultur.Memberships.{find_confirmed_membership, membership_rank}
use vaultur.Events.{log_org_event, insert_event, org_user}
use vaultur.OrgMembers.Common.{require_member, find_member, find_organization}
use vaultur.OrgMembers.Recovery.{
  reset_password, load_resettable, write_reset, mail_reset, ResetBody, reset_user,
  can_reset_password,
}
use vaultur.OrgMembers.EditMoves.{ok_value, require_member-reads, require_member-eq-ok}
use vaultur.OrgMembers.RecoveryMoves.{load_resettable-reads}

-- An owner is reset by owners alone.
can_reset_password-owner :
    (actor target : Membership)
    → can_reset_password actor target ≡ true
    → target.atype ≡ MembershipType.owner
    → actor.atype ≡ MembershipType.owner
unfolding can_reset_password membership_rank
can_reset_password-owner actor target h t = ground (arith, t)

load_resettable-eq-ok :
    (org id : String) (actor : Membership) (d : Db) {m : Membership}
    → load_resettable org id actor d ≡ (d, ok m)
    → (find_member id org d ≡ some m) × (can_reset_password actor m ≡ true)
unfolding load_resettable
load_resettable-eq-ok org id actor d {m} h = elim (Option-cases (find_member id org d)) [
  | inl e ↦ absurd (let q = rw (e, load_resettable) at h in cc)
  | inr (x, e) ↦ elim (Bool-cases (can_reset_password actor x)) [
    | inr k ↦ absurd (let q = rw (e, load_resettable, k) at h in cc)
    | inl k ↦
        let q = rw (e, load_resettable, k) at h in
        (e ∙ ap some (ok_value q), subst (λ y. can_reset_password actor y ≡ true) (ok_value q) k)
  ]
]

log-keeps_users :
    (c : Context) (fresh : String) (event_type : ℕ) (org target : String) (device : Option ℕ)
    (d : Db)
    → (log_org_event c fresh event_type org (org_user target) device d).0.users ≡ d.users
unfolding log_org_event insert_event
log-keeps_users c fresh event_type org target device d = ground arith

-- One user is written, or none.
write_reset-users :
    (c : Context) (org event salt stamp : String) (body : ResetBody) (m : Membership) (d : Db)
    → ((write_reset c org event salt stamp body m d).0.users ≡ d.users)
      ⊎ ((write_reset c org event salt stamp body m d).0.users
          ≡ update_where
              (λ u. u.uuid == m.user_uuid)
              (reset_user c salt stamp
                (or_else body.new_master_password_hash "")
                (or_else body.key ""))
              d.users)
unfolding write_reset find_user_by_uuid mail_reset
write_reset-users c org event salt stamp body m d =
    elim (Option-cases (find_user_by_uuid m.user_uuid d)) [
      | inl e ↦ rw (e, write_reset) (inl refl)
      | inr (u, e) ↦
          rw (e, write_reset)
            (inr (
              told-users u (mailer_enabled c) (written u)
              ∙ ap (λ i. update_where (λ x. x.uuid == i) new d.users)
                  ((eq_iff u.uuid m.user_uuid).0
                    (find_first-holds (λ x. x.uuid == m.user_uuid) d.users e))))
    ]
  where
    new : User → User
    new = reset_user c salt stamp (or_else body.new_master_password_hash "") (or_else body.key "")

    written : User → Db
    written u = record d { users = update_where (λ x. x.uuid == u.uuid) new d.users }

    logged : M Db (Unit {0})
    logged =
        log_org_event c event EventType.organization_user_admin_reset_password org (org_user m.uuid)
          (some c.device.atype)

    told-users :
        (u : User) (b : Bool) (e : Db) → ((when b (mail_reset org u) >> logged) e).0.users ≡ e.users
    told-users u false e = log-keeps_users c event _ org m.uuid _ e
    told-users u true e = elim (Option-cases (find_organization org e)) [
      | inl k ↦ rw (k, mail_reset) refl
      | inr (o, k) ↦ rw (k, mail_reset) (log-keeps_users c event _ org m.uuid _ _)
    ]

-- What a reset that wrote something was allowed by: the actor is a confirmed member of the organization,
-- the member too and enrolled, and an owner is reset by an owner.
pub record IsAllowed (c : Context) (org id : String) (d : Db) (m : Membership) : Type 0 where
  pub actor : Membership
  pub acts : find_confirmed_membership c.user.uuid org d ≡ some actor
  pub loaded : find_member id org d ≡ some m
  pub confirmed : (m.status == MembershipStatus.confirmed) ≡ true
  pub enrolled : truthy m.reset_password_key ≡ true
  pub ranked : m.atype ≡ MembershipType.owner → actor.atype ≡ MembershipType.owner

-- A request that resets a master password leaves the table of users as it was; or it writes the one user of
-- the member that it names, with a new password, key and stamp, where the actor is a confirmed member of
-- the organization, the member is confirmed there and enrolled in account recovery, and the actor is an
-- owner if the member is one.
pub reset_password-IsAllowed :
    (c : Context) (org event salt stamp : String) (body : ResetBody) (id : String) (d : Db)
    → ((reset_password c org event salt stamp body id d).0.users ≡ d.users)
      ⊎ ((m : Membership) × IsAllowed c org id d m
          × ((reset_password c org event salt stamp body id d).0.users
              ≡ update_where
                  (λ u. u.uuid == m.user_uuid)
                  (reset_user c salt stamp
                    (or_else body.new_master_password_hash "")
                    (or_else body.key ""))
                  d.users))
unfolding reset_password
reset_password-IsAllowed c org event salt stamp body id d =
    after_read P (require_member c org MembershipType.admin) _ d (require_member-reads c org _ d)
      (inl refl)
      λ actor ea.
        after_read P (load_resettable org id actor) _ d (load_resettable-reads org id actor d)
          (inl refl)
          λ m em.
            after_read P
              (err_if (not (truthy m.reset_password_key))
                "Password reset not or not correctly enrolled")
              _ d (err_if-reads _ _ d) (inl refl)
              λ _ ek.
                after_read P
                  (err_if (not (m.status == MembershipStatus.confirmed))
                    "Organization user must be confirmed for password reset functionality")
                  _ d (err_if-reads _ _ d) (inl refl)
                  λ _ es.
                    after_read P
                      (err_if (not (truthy body.new_master_password_hash) || not (truthy body.key))
                        "Missing required fields")
                      _ d (err_if-reads _ _ d) (inl refl)
                      λ _ _.
                        let (found, ranked) = load_resettable-eq-ok org id actor d em in
                        let key = err_if-eq-ok _ _ d ek in
                        let status = err_if-eq-ok _ _ d es in
                        elim (write_reset-users c org event salt stamp body m d) [
                          | inl e ↦ inl e
                          | inr e ↦ inr (
                            m,
                            record {
                              actor = actor;
                              acts = require_member-eq-ok c org MembershipType.admin d actor ea;
                              loaded = found;
                              confirmed = ground arith;
                              enrolled = ground arith;
                              ranked = can_reset_password-owner actor m ranked;
                            },
                            e,
                          )
                        ]
  where
    P : Db → Type 0
    P e =
        (e.users ≡ d.users)
        ⊎ ((m : Membership) × IsAllowed c org id d m
            × (e.users
                ≡ update_where (λ u. u.uuid == m.user_uuid)
                    (reset_user c salt stamp (or_else body.new_master_password_hash "")
                      (or_else body.key ""))
                    d.users))
