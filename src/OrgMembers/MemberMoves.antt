-- ===== src/OrgMembers/MemberMoves.antt =====
-- The handlers on one member keep to `Moves`.
use vaultur.Prelude.{
  String, true, false, ◌≡◌, refl, sym, subst, ◌⊎◌, inl, inr, ◌==◌, nat_instance, string_instance,
  Option, none, some, arith, List, eq_iff, and-true, ◌<◌, Memᴰ,
}
use vaultur.Prelude.Int.{ℤ, pos, negsuc, int_instance, int_ltb}
use vaultur.Prelude.Table.{find_first-holds, find_first-mem}
use vaultur.Shared.MembershipStatus
use vaultur.Db.{Db, Membership}
use vaultur.Context.{Context}
use vaultur.OrgMembers.Common.{
  find_member, is_member_of, confirmed_owner_count, count_where, is_confirmed_owner,
}
use vaultur.OrgMembers.Lifecycle.{
  confirm_member, confirmed, remove_member, revoke_member, revoked, restore_member, restored,
  is_last_owner, accept, accepted,
}
use vaultur.OrgMembers.Moves.{Moves, Moves-refl, Spared, update-Moves, delete-Moves}
use vaultur.OrgMembers.Writes.{
  Writes, changed, confirm-Writes, remove-Writes, revoke-Writes, restore-Writes,
}
use vaultur.OrgMembers.Acceptance.{accept-Writes}

-- The rows of members before and after a handler.
abbrev pub Moved : Type 0 → String → Db → Db → Type 0
Moved authority org d e = Moves authority org d.users_organizations e.users_organizations

revoked_status :
    (z : ℤ) → int_ltb z MembershipStatus.invited ≡ true → (z == MembershipStatus.confirmed) ≡ false
revoked_status (pos n) h = ground arith
revoked_status (negsuc n) h = refl

pub found_member :
    (id org : String) (d : Db) (m : Membership)
    → find_member id org d ≡ some m
    → Memᴰ m d.users_organizations × (m.uuid ≡ id) × (m.org_uuid ≡ org)
unfolding find_member
found_member id org d m e =
    let p = and-true _ _ (find_first-holds (is_member_of id org) d.users_organizations e) in
    (
      find_first-mem (is_member_of id org) d.users_organizations e,
      (eq_iff m.uuid id).0 p.0,
      (eq_iff m.org_uuid org).0 p.1,
    )

pub not_last-Spared :
    (org : String) (m : Membership) (d : Db)
    → m.org_uuid ≡ org
    → is_last_owner org m d ≡ false
    → Spared d.users_organizations m
unfolding confirmed_owner_count
not_last-Spared org m d here h =
    subst
      (λ w.
        (is_confirmed_owner w m ≡ false)
        ⊎ (1 < count_where (is_confirmed_owner w) d.users_organizations))
      (sym here) (ground arith)

module _ (authority : Type 0) (org : String) (d : Db) where
  -- A handler that writes nothing, or writes once on the loaded row in a way that keeps to `Moves`.
  pub written-Moves :
      (found : Option Membership) (after : List Membership) (guard : Membership → Type 0)
      (write : Membership → List Membership)
      → Writes found d.users_organizations after guard write
      → ((m : Membership)
          → found ≡ some m
          → guard m
          → Moves authority org d.users_organizations (write m))
      → Moves authority org d.users_organizations after
  written-Moves none after guard write w k =
      subst (Moves authority org d.users_organizations) (sym w)
        (Moves-refl authority org d.users_organizations)
  written-Moves (some m) after guard write w k = elim w [
    | inl e ↦
        subst (Moves authority org d.users_organizations) (sym e)
          (Moves-refl authority org d.users_organizations)
    | inr (g, e) ↦ subst (Moves authority org d.users_organizations) (sym e) (k m refl g)
  ]

  pub confirm-Moves :
      (c : Context) (event id key : String)
      → Moved authority org d (confirm_member c org event id key d).0
  confirm-Moves c event id key =
      written-Moves (find_member id org d) _ _ _ (confirm-Writes c org event id d key) λ m e (s, _).
        let (stored, here, there) = found_member id org d m e in
        subst
          (λ i.
            Moves authority org d.users_organizations
              (changed d.users_organizations i (confirmed key)))
          here
          (update-Moves authority org d.users_organizations m stored there (confirmed key)
            (λ r. (refl, refl)) (λ t. inr t) (inr (inl (ground (arith, s)))))

  pub accept-Moves :
      (c : Context) (id : String) (token : Option String)
      → Moved authority org d (accept c org id token d).0
  accept-Moves c id token =
      written-Moves (find_member id org d) _ _ _ (accept-Writes c org id d token) λ m e (_, s).
        let (stored, here, there) = found_member id org d m e in
        subst
          (λ i.
            Moves authority org d.users_organizations (changed d.users_organizations i accepted))
          here
          (update-Moves authority org d.users_organizations m stored there accepted
            (λ r. (refl, refl)) (λ t. inr t) (inr (inl (ground (arith, s)))))

  pub remove-Moves :
      (c : Context) (event id : String) → Moved authority org d (remove_member c org event id d).0
  remove-Moves c event id =
      written-Moves (find_member id org d) _ _ _ (remove-Writes c org event id d) λ m e l.
        let (stored, here, there) = found_member id org d m e in
        delete-Moves authority org d.users_organizations m stored there
          (not_last-Spared org m d there l)

  pub revoke-Moves :
      (c : Context) (event id : String) → Moved authority org d (revoke_member c org event id d).0
  revoke-Moves c event id =
      written-Moves (find_member id org d) _ _ _ (revoke-Writes c org event id d) λ m e (_, l).
        let (stored, here, there) = found_member id org d m e in
        update-Moves authority org d.users_organizations m stored there revoked (λ r. (refl, refl))
          (λ t. inr t) (inr (not_last-Spared org m d there l))

  pub restore-Moves :
      (c : Context) (event id : String) → Moved authority org d (restore_member c org event id d).0
  restore-Moves c event id =
      written-Moves (find_member id org d) _ _ _ (restore-Writes c org event id d) λ m e s.
        let (stored, here, there) = found_member id org d m e in
        update-Moves authority org d.users_organizations m stored there restored (λ r. (refl, refl))
          (λ t. inr t) (inr (inl (ground (arith, revoked_status m.status s))))
