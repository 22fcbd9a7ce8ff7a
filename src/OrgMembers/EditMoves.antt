-- ===== src/OrgMembers/EditMoves.antt =====
-- A change of a member keeps to `Moves`.
use vaultur.Prelude.{
  ℕ, String, not, ◌≡◌, refl, sym, subst, ap, ◌∙◌, inl, inr, ◌==◌, nat_instance, string_instance,
  ◌&&◌, ◌||◌, if◌then◌else◌, Option, none, some, arith, List, [], Option-cases, Bool-cases, eq_iff,
}
use vaultur.Shared.MembershipType
use vaultur.Shared.MembershipStatus
use vaultur.Prelude.Int.{int_instance}
use vaultur.Shared.EventType
use vaultur.Web.{Result, ok, M, ◌>>◌, err_if, from_result}
use vaultur.Web.Steps.{after_read, err_if-reads, err_if-eq-ok, bind-Steps}
use vaultur.Db.{Db, Membership}
use vaultur.Context.{Context}
use vaultur.Events.{log_org_event, org_user}
use vaultur.Memberships.{find_confirmed_membership, is_at_least}
use vaultur.OrgMembers.Common.{
  find_member, require_member, parse_member_type, parse_assignments, or_bad_request,
  replace_member_collections, set_member,
}
use vaultur.OrgMembers.Lifecycle.{
  edit_member, edited, write_member, EditBody, is_last_owner, replace_groups_if,
}
use vaultur.OrgMembers.Moves.{Moves, Moves-refl, update-Moves}
use vaultur.OrgMembers.Kept.{
  Keeps, SameMembers, same_refl, same_trans, log_org_event-Keeps, replace_member_collections-Keeps,
  replace_member_groups-Keeps,
}
use vaultur.OrgMembers.Writes.{changed, IsOwner}
use vaultur.OrgMembers.MemberMoves.{Moved, found_member, not_last-Spared}

pub require_member-reads :
    (c : Context) (org : String) (min_type : ℕ) (d : Db) → (require_member c org min_type d).0 ≡ d
unfolding require_member
require_member-reads c org min_type d = ground arith

pub ok_value :
    {a b : Membership} {d e : Db} → Path (Db × Result Membership) (d, ok a) (e, ok b) → a ≡ b
ok_value h = ground arith

pub or_bad_request-reads :
    {A : Type 0} (message : String) (found : Option A) (d : Db)
    → (or_bad_request message found d).0 ≡ d
or_bad_request-reads message none d = refl
or_bad_request-reads message (some a) d = refl

pub or_bad_request-eq-ok :
    (message : String) (found : Option Membership) (d : Db) {m : Membership}
    → or_bad_request message found d ≡ (d, ok m)
    → found ≡ some m
or_bad_request-eq-ok message none d h = absurd (cc)
or_bad_request-eq-ok message (some a) d h = ap some (ok_value h)

pub require_member-eq-ok :
    (c : Context) (org : String) (min_type : ℕ) (d : Db) (actor : Membership)
    → require_member c org min_type d ≡ (d, ok actor)
    → find_confirmed_membership c.user.uuid org d ≡ some actor
unfolding require_member
require_member-eq-ok c org min_type d actor h =
    elim (Option-cases (find_confirmed_membership c.user.uuid org d)) [
      | inl e ↦ absurd (let k = rw (e, require_member) at h in ground (arith, k))
      | inr (m, e) ↦ elim (Bool-cases (is_at_least m.atype min_type)) [
        | inl k ↦ e ∙ ap some (let q = rw (e, require_member, k) at h in ok_value q)
        | inr k ↦ absurd (let q = rw (e, require_member, k) at h in cc)
      ]
    ]

replace_groups_if-Keeps :
    (m : Membership) (ids : Option (List String)) → Keeps (replace_groups_if m ids)
replace_groups_if-Keeps m none = λ d. refl
replace_groups_if-Keeps m (some ids) = replace_member_groups-Keeps m ids

write_member-Writes :
    (c : Context) (org event : String) (body : EditBody) (atype : ℕ) (m : Membership) (d : Db)
    → (write_member c org event body atype m d).0.users_organizations
      ≡ changed d.users_organizations m.uuid (edited atype body.access_all)
unfolding write_member set_member
write_member-Writes c org event body atype m d =
    bind-Steps SameMembers same_refl same_trans
      (replace_member_collections m
        (if body.access_all then [] else parse_assignments body.collections))
      (λ _. replace_groups_if m body.groups >> log) (replace_member_collections-Keeps m _)
      (λ _.
        bind-Steps SameMembers same_refl same_trans (replace_groups_if m body.groups) (λ _. log)
          (replace_groups_if-Keeps m body.groups) (λ _. log_org_event-Keeps c event _ org _ _))
      (record d {
        users_organizations = changed d.users_organizations m.uuid (edited atype body.access_all);
      })
  where
    log : M Db (Unit {0})
    log =
        log_org_event c event EventType.organization_user_updated org (org_user m.uuid)
          (some c.device.atype)

pub edit-Moves :
    (c : Context) (org event id : String) (body : EditBody) (d : Db)
    → Moved (IsOwner c org d) org d (edit_member c org event id body d).0
unfolding edit_member
edit-Moves c org event id body d =
    after_read R (require_member c org MembershipType.admin) _ d
      (require_member-reads c org MembershipType.admin d) (Moves-refl _ _ _)
      λ actor ea.
        after_read R
          (or_bad_request "The specified user isn't a member of the organization"
            (find_member id org d))
          _ d (or_bad_request-reads _ _ d) (Moves-refl _ _ _)
          λ m em.
            after_read R (from_result (parse_member_type body.atype)) _ d refl (Moves-refl _ _ _)
              λ atype et.
                after_read R
                  (err_if
                    ((atype == MembershipType.owner || m.atype == MembershipType.owner)
                      && not (actor.atype == MembershipType.owner))
                    _)
                  _ d (err_if-reads _ _ d) (Moves-refl _ _ _)
                  λ _ eg.
                    after_read R
                      (err_if (not (atype == MembershipType.owner) && is_last_owner org m d) _) _ d
                      (err_if-reads _ _ d) (Moves-refl _ _ _)
                      λ _ el.
                        let (stored, here, there) =
                          found_member id org d m (or_bad_request-eq-ok _ _ d em) in
                        let acts = require_member-eq-ok c org MembershipType.admin d actor ea in
                        let granted = err_if-eq-ok _ _ d eg in
                        let last = err_if-eq-ok _ _ d el in
                        subst (Moves (IsOwner c org d) org d.users_organizations)
                          (sym (write_member-Writes c org event body atype m d))
                          (update-Moves (IsOwner c org d) org d.users_organizations m stored there
                            (edited atype body.access_all) (λ r. (refl, refl))
                            (λ t. elim (Bool-cases (actor.atype == MembershipType.owner)) [
                              | inl k ↦ inl (rw acts k)
                              | inr k ↦ absurd (ground (arith, granted))
                            ])
                            (elim (Bool-cases (atype == MembershipType.owner)) [
                              | inr k ↦
                                  inr (not_last-Spared org m d there (let q = rw k at last in q))
                              | inl k ↦ elim (Bool-cases (m.status == MembershipStatus.confirmed)) [
                                | inl q ↦
                                    inl (rw (k, q, (eq_iff m.org_uuid m.org_uuid).1 refl) refl)
                                | inr q ↦ inr (inl (ground (arith, q)))
                              ]
                            ]))
  where
    R : Db → Type 0
    R e = Moved (IsOwner c org d) org d e
