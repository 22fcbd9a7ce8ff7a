-- ===== src/OrgMembers/Wire.antt =====
-- The type of a member on the wire, and the policies that a token opens.
use vaultur.Prelude.{
  ◌≤◌, String, true, holds, ◌≡◌, inl, inr, some, arith, List, Bool-cases, Option-cases,
  string_instance,
}
use vaultur.Prelude.Table.{any}
use vaultur.Web.{ok}
use vaultur.Db.{Db, Membership, OrgPolicy}
use vaultur.Context.{Context, Claims, decode_jwt, issuer}
use vaultur.OrgMembers.Common.{parse_member_type}
use vaultur.OrgMembers.Listing.{wire_type}
use vaultur.OrgMembers.PolicyRoutes.{policies_by_token}

-- The type that is shown for a member of one of the four types is read back as that type.
pub parse_member_type-wire_type :
    (m : Membership) → m.atype ≤ 3 → parse_member_type (some (wire_type m)) ≡ ok m.atype
unfolding parse_member_type wire_type any
parse_member_type-wire_type m h = ground (arith, h)

-- Policies are listed without a login only under a verified invitation to the organization.
pub policies_by_token-invited :
    (c : Context) (org token : String) (d : Db) (policies : List OrgPolicy)
    → (policies_by_token c org token d).1 ≡ ok policies
    → (claims : Claims) × (decode_jwt c token (issuer c "invite") ≡ some claims)
      × (holds claims.org_id org ≡ true)
unfolding policies_by_token
policies_by_token-invited c org token d policies h =
    elim (Option-cases (decode_jwt c token (issuer c "invite"))) [
      | inl e ↦ absurd (let q = rw (e, policies_by_token) at h in cc)
      | inr (claims, e) ↦ elim (Bool-cases (holds claims.org_id org)) [
        | inl k ↦ (claims, e, k)
        | inr k ↦ absurd (let q = rw (e, policies_by_token, k) at h in cc)
      ]
    ]
