-- ===== src/OrgMembers/Writes.antt =====
-- What the handlers on one member write to the table of members, on all their branches.
use vaultur.Prelude.{
  String, true, false, ◌≡◌, refl, ◌⊎◌, inl, inr, ◌==◌, nat_instance, string_instance, Option, none,
  some, arith, List, Bool-cases, Option-cases,
}
use vaultur.Prelude.Int.{int_instance, int_ltb}
use vaultur.Prelude.Table.{update_where, delete_where}
use vaultur.Shared.MembershipStatus
use vaultur.Shared.MembershipType
use vaultur.Db.{Db, Membership}
use vaultur.Context.{Context}
use vaultur.Events.{log_org_event}
use vaultur.Memberships.{find_confirmed_membership}
use vaultur.OrgMembers.Common.{find_member, set_member, delete_member}
use vaultur.OrgMembers.Invite.{owners_only, is_owner_type}
use vaultur.OrgMembers.Lifecycle.{
  confirm_member, confirmed, mail_confirmed, remove_member, revoke_member, revoked, restore_member,
  restored, is_last_owner,
}

-- Nothing, or one write of the member that was loaded, for whom the guard held.
abbrev pub Writes :
    Option Membership
    → List Membership
    → List Membership
    → (Membership → Type 0)
    → (Membership → List Membership)
    → Type 0
Writes none before after guard write = after ≡ before
Writes (some m) before after guard write = (after ≡ before) ⊎ (guard m × (after ≡ write m))

abbrev pub changed : List Membership → String → (Membership → Membership) → List Membership
changed rows id f = update_where (λ r. r.uuid == id) f rows

-- The user of the request is a confirmed owner.
abbrev pub IsOwner : Context → String → Db → Type 0
IsOwner c org d = is_owner_type (find_confirmed_membership c.user.uuid org d) ≡ true

module _ (c : Context) (org event id : String) (d : Db) where
  -- A confirmation, whether it returns or fails, leaves the table of members as it was; or it changes the
  -- named member alone, to a confirmed one with the given key, where that member had accepted, and where the
  -- user is a confirmed owner if the member is one.
  pub confirm-Writes :
      (key : String)
      → Writes
          (find_member id org d)
          d.users_organizations
          (confirm_member c org event id key d).0.users_organizations
          (λ m.
            (m.status ≡ MembershipStatus.accepted)
            × ((m.atype == MembershipType.owner) ≡ false ⊎ IsOwner c org d))
          (λ m. changed d.users_organizations id (confirmed key))
  unfolding confirm_member set_member mail_confirmed owners_only log_org_event
  confirm-Writes key = elim (Option-cases (find_member id org d)) [
    | inl e ↦ rw (e, confirm_member) refl
    | inr (m, e) ↦ rw (e, confirm_member) (ground arith)
  ]

  pub remove-Writes :
      Writes
        (find_member id org d)
        d.users_organizations
        (remove_member c org event id d).0.users_organizations
        (λ m. is_last_owner org m d ≡ false)
        (λ m. delete_where (λ r. r.uuid == m.uuid) d.users_organizations)
  unfolding remove_member delete_member owners_only log_org_event
  remove-Writes = elim (Option-cases (find_member id org d)) [
    | inl e ↦ rw (e, remove_member) refl
    | inr (m, e) ↦ elim (Bool-cases (is_last_owner org m d)) [
      | inl l ↦ rw (e, remove_member, l) (ground arith)
      | inr l ↦ rw (e, remove_member, l) (ground arith)
    ]
  ]

  pub revoke-Writes :
      Writes
        (find_member id org d)
        d.users_organizations
        (revoke_member c org event id d).0.users_organizations
        (λ m. (int_ltb m.status MembershipStatus.invited ≡ false) × (is_last_owner org m d ≡ false))
        (λ m. changed d.users_organizations m.uuid revoked)
  unfolding revoke_member set_member owners_only log_org_event
  revoke-Writes = elim (Option-cases (find_member id org d)) [
    | inl e ↦ rw (e, revoke_member) refl
    | inr (m, e) ↦ elim (Bool-cases (is_last_owner org m d)) [
      | inl l ↦ rw (e, revoke_member, l) (ground arith)
      | inr l ↦ elim (Bool-cases (int_ltb m.status MembershipStatus.invited)) [
        | inl k ↦ rw (e, revoke_member, l, k) (ground arith)
        | inr k ↦ rw (e, revoke_member, l, k) (ground arith)
      ]
    ]
  ]

  pub restore-Writes :
      Writes
        (find_member id org d)
        d.users_organizations
        (restore_member c org event id d).0.users_organizations
        (λ m. int_ltb m.status MembershipStatus.invited ≡ true)
        (λ m. changed d.users_organizations m.uuid restored)
  unfolding restore_member set_member log_org_event
  restore-Writes = elim (Option-cases (find_member id org d)) [
    | inl e ↦ rw (e, restore_member) refl
    | inr (m, e) ↦ elim (Bool-cases (int_ltb m.status MembershipStatus.invited)) [
      | inl k ↦ rw (e, restore_member, k) (ground arith)
      | inr k ↦ rw (e, restore_member, k) (ground arith)
    ]
  ]
