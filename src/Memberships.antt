-- ===== src/Memberships.antt =====
-- services/memberships.ts: the rank of a member, and the queries on confirmed members.
use vaultur.Prelude.{
  ℕ, String, Bool, true, ◌≡◌, ◌↔◌, ◌⊎◌, ◌==◌, ◌||◌, ◌&&◌, leb, nat_instance, string_instance,
  if◌then◌else◌, Option, List, arith,
}
use vaultur.Prelude.Table.{find_first, find_many}
use vaultur.Prelude.Int.{int_instance}
use vaultur.Shared.MembershipStatus
use vaultur.Shared.MembershipType
use vaultur.Db.{Db, Membership}

-- `membershipRank`: Owner > Admin > Manager > anything else.
unfoldable pub membership_rank : ℕ → ℕ
membership_rank atype =
    if atype == MembershipType.owner
    then 3
    else if atype == MembershipType.admin
    then 2
    else if atype == MembershipType.manager
    then 1
    else 0

-- `isAtLeast`
unfoldable pub is_at_least : ℕ → ℕ → Bool
unfolding membership_rank
is_at_least atype minimum = leb (membership_rank minimum) (membership_rank atype)

-- `hasFullAccess`
unfoldable pub has_full_access : Membership → Bool
unfolding is_at_least
has_full_access m = m.access_all || is_at_least m.atype MembershipType.admin

-- `findConfirmedMembership`
unfoldable pub find_confirmed_membership : String → String → Db → Option Membership
find_confirmed_membership user org d =
    find_first
      (λ m. m.user_uuid == user && (m.org_uuid == org && m.status == MembershipStatus.confirmed))
      d.users_organizations

-- `findConfirmedMemberships`
unfoldable pub find_confirmed_memberships : String → Db → List Membership
find_confirmed_memberships user d =
    find_many (λ m. m.user_uuid == user && m.status == MembershipStatus.confirmed)
      d.users_organizations

-- Full access is `accessAll`, an owner or an admin, and no other member.
pub has_full_access_iff :
    (m : Membership)
    → (has_full_access m ≡ true) ↔ (
        (m.access_all ≡ true) ⊎ (m.atype ≡ MembershipType.owner) ⊎ (m.atype ≡ MembershipType.admin))
unfolding has_full_access
has_full_access_iff m = ground arith

-- The rank orders the types totally: of two types one is at least the other.
pub is_at_least_total : (a b : ℕ) → (is_at_least a b ≡ true) ⊎ (is_at_least b a ≡ true)
unfolding is_at_least
is_at_least_total a b = ground arith

pub is_at_least_trans :
    (a b c : ℕ) → is_at_least a b ≡ true → is_at_least b c ≡ true → is_at_least a c ≡ true
unfolding is_at_least
is_at_least_trans a b c h k = ground arith
