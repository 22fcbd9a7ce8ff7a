-- ===== src/OrgMembers/Enforced.antt =====
-- api/org-members.ts: whom the policy of the second factor leaves in, by `putPolicy`.
use vaultur.Prelude.{
  ℕ, Bool, String, true, false, not, ◌≡◌, ◌≢◌, refl, sym, subst, ap, ◌∙◌, inl, inr, ◌==◌,
  nat_instance, string_instance, arith, List, [], ◌∷◌, Memᴰ, Bool-cases, eq_iff,
}
use vaultur.Prelude.Int.{ℤ, pos, negsuc, ◌+ℤ◌, int_instance, int_ltb}
use vaultur.Prelude.Table.{
  any, any-mem, find_many, find_many-mem, mem-find_many, update_where, mem-update_where,
}
use vaultur.Shared.MembershipStatus
use vaultur.Shared.MembershipType
use vaultur.Shared.OrgPolicyType
use vaultur.Memberships.{is_at_least}
use vaultur.Web.{ok, M, pure, ◌>>◌, for_each, >>=-eq-ok}
use vaultur.Db.{Db, Membership, OrgPolicy, TwoFactor}
use vaultur.Context.{Context}
use vaultur.OrgMembers.Common.{set_member, require_member}
use vaultur.OrgMembers.PolicyRoutes.{
  put_policy, enforce, enforce_on, put_out, is_subject, mail_removed, lacks_second_factor,
}
use vaultur.OrgMembers.EditMoves.{require_member-reads}
use vaultur.OrgMembers.PolicyMoves.{recorded, recorded-Keeps, mail_removed-Keeps}

not-false : (b : Bool) → not b ≡ false → b ≡ true
not-false true h = refl
not-false false h = absurd (cc)

below_admin :
    (atype : ℕ)
    → atype ≢ MembershipType.owner
    → atype ≢ MembershipType.admin
    → is_at_least atype MembershipType.admin ≡ false
unfolding is_at_least
below_admin atype o a = ground arith

abbrev template : String
template = "two_factor_removed_from_org"

mail_removed-twofactor :
    (c : Context) (t org : String) (m : Membership) (d : Db)
    → (mail_removed c t org m d).0.twofactor ≡ d.twofactor
unfolding mail_removed
mail_removed-twofactor c t org m d = ground arith

below_accepted :
    (z : ℤ)
    → int_ltb z (pos 129) ≡ true
    → int_ltb (z +ℤ negsuc 127) MembershipStatus.accepted ≡ true
below_accepted (pos n) h = ground arith
below_accepted (negsuc n) h = refl

differs : (a b : String) → (a == b) ≡ false → a ≢ b
differs a b h e = let k : (a == b) ≡ true = (eq_iff a b).1 e in ground (arith, h, k)

out_subject :
    (m z : Membership) → int_ltb m.status (pos 129) ≡ true → is_subject (put_out m z) ≢ true
out_subject m z s h = let k = below_accepted m.status s in ground (arith, h, k)

module _ (c : Context) (org : String) where
  -- After a turn of the loop on `m`: who is subject to the policy was so before, and is not `m` if `m`
  -- was subject to it without a second factor.
  abbrev Turned : Membership → Db → Db → Type 0
  Turned m d e =
      (e.twofactor ≡ d.twofactor)
      × ((y : Membership)
          → Memᴰ y e.users_organizations
          → is_subject y ≡ true
          → Memᴰ y d.users_organizations
            × (is_subject m ≡ true → lacks_second_factor m d ≡ true → y.uuid ≢ m.uuid))

  enforce_on-Turned :
      (m : Membership) (d e : Db)
      → int_ltb m.status (pos 129) ≡ true
      → enforce_on c template org lacks_second_factor m d ≡ (e, ok tt)
      → Turned m d e
  unfolding enforce_on set_member
  enforce_on-Turned m d e s h = elim (Bool-cases (is_subject m)) [
    | inr k ↦
        let same : d ≡ e = ap (λ r. r.0) (let q = rw (k, enforce_on) at h in q) in
        subst (Turned m d) same (refl, λ y n t. (n, λ u. absurd (ground (arith, k, u))))
    | inl k ↦ elim (Bool-cases (lacks_second_factor m d)) [
      | inr b ↦
          let same : d ≡ e = ap (λ r. r.0) (let q = rw (k, enforce_on, b) at h in q) in
          subst (Turned m d) same (refl, λ y n t. (n, λ u w. absurd (ground (arith, b, w))))
      | inl b ↦
          let q = rw (k, enforce_on, b) at h in
          (
            ap (λ r. r.0.twofactor) (sym q) ∙ mail_removed-twofactor c template org m (written d),
            λ y n t. subject_row y t (
                subst (Memᴰ y)
                  (ap (λ r. r.0.users_organizations) (sym q)
                    ∙ mail_removed-Keeps c template org m (written d))
                  n),
          )
    ]
  ]
    where
      written : Db → Db
      written d = record d {
        users_organizations =
            update_where (λ r. r.uuid == m.uuid) (put_out m) d.users_organizations;
      }

      subject_row :
          (y : Membership)
          → is_subject y ≡ true
          → Memᴰ y (written d).users_organizations
          → Memᴰ y d.users_organizations
            × (is_subject m ≡ true → lacks_second_factor m d ≡ true → y.uuid ≢ m.uuid)
      subject_row y t n =
          let (z, k, step) =
            mem-update_where (λ r. r.uuid == m.uuid) (put_out m) d.users_organizations n in
          elim step [
            | inl (other, same) ↦ (
              subst (λ r. Memᴰ r d.users_organizations) (sym same) k,
              λ _ _ e.
                  absurd
                    (differs z.uuid m.uuid other (ap (λ (r : Membership). r.uuid) (sym same) ∙ e)),
            )
            | inr (_, same) ↦ absurd (out_subject m z s (subst (λ r. is_subject r ≡ true) same t))
          ]

  enforce_all-Turned :
      (members : List Membership) (d e : Db)
      → ((m : Membership) → Memᴰ m members → int_ltb m.status (pos 129) ≡ true)
      → for_each members (enforce_on c template org lacks_second_factor) d ≡ (e, ok tt)
      → (e.twofactor ≡ d.twofactor)
        × ((y : Membership)
            → Memᴰ y e.users_organizations
            → is_subject y ≡ true
            → Memᴰ y d.users_organizations
              × ((m : Membership)
                  → Memᴰ m members
                  → is_subject m ≡ true
                  → lacks_second_factor m d ≡ true
                  → y.uuid ≢ m.uuid))
  unfolding for_each
  enforce_all-Turned [] d e valid h =
      let same : d ≡ e = ap (λ r. r.0) h in
      (
        ap (λ (x : Db). x.twofactor) (sym same),
        λ y n t. (
          subst (λ (x : Db). Memᴰ y x.users_organizations) (sym same) n,
          λ m k u w v. elim k [ ],
        ),
      )
  enforce_all-Turned (x ∷ xs) d e valid h =
      let (u, _, first, rest) =
        >>=-eq-ok (enforce_on c template org lacks_second_factor x)
          (λ _. for_each xs (enforce_on c template org lacks_second_factor)) d h in
      let (kept, turn) = enforce_on-Turned x d u (valid x (Memᴰ.head refl)) first in
      let (same, turns) = enforce_all-Turned xs u e (λ m k. valid m (Memᴰ.tail k)) rest in
      (
        same ∙ kept,
        λ y n t.
            let (there, others) = turns y n t in
            let (before, this) = turn y there t in
            (before, λ m k. at_once y m u kept this others k),
      )
    where
      at_once :
          (y m : Membership) (u : Db)
          → u.twofactor ≡ d.twofactor
          → (is_subject x ≡ true → lacks_second_factor x d ≡ true → y.uuid ≢ x.uuid)
          → ((m : Membership)
              → Memᴰ m xs
              → is_subject m ≡ true
              → lacks_second_factor m u ≡ true
              → y.uuid ≢ m.uuid)
          → Memᴰ m (x ∷ xs)
          → is_subject m ≡ true
          → lacks_second_factor m d ≡ true
          → y.uuid ≢ m.uuid
      at_once y m u kept this others (Memᴰ.head e) s l =
          subst (λ r. is_subject r ≡ true → lacks_second_factor r d ≡ true → y.uuid ≢ r.uuid)
            (sym e) this s l
      at_once y m u kept this others (Memᴰ.tail k) s l =
          others m k s
            (subst (λ rows. not (any (λ t. t.user_uuid == m.user_uuid) rows) ≡ true) (sym kept) l)

  abbrev snapshot : Db → List Membership
  snapshot d = find_many (λ m. m.org_uuid == org) d.users_organizations

  -- What is left of the handler after its guard.
  abbrev decreed : String → String → String → M Db OrgPolicy
  decreed fresh event text d =
      (enforce c org OrgPolicyType.two_factor_authentication (snapshot d)
          >> recorded c org fresh event OrgPolicyType.two_factor_authentication true text)
        d

  decreed-enforced :
      (fresh event text : String) (d e : Db) (p : OrgPolicy) (y : Membership)
      → ((m : Membership) → Memᴰ m d.users_organizations → int_ltb m.status (pos 129) ≡ true)
      → decreed fresh event text d ≡ (e, ok p)
      → Memᴰ y e.users_organizations
      → y.org_uuid ≡ org
      → is_subject y ≡ true
      → lacks_second_factor y d ≡ false
  unfolding enforce
  decreed-enforced fresh event text d e p y valid h n here s =
      let (w, _, enforced, stored) =
        >>=-eq-ok (enforce c org OrgPolicyType.two_factor_authentication (snapshot d))
          (λ _. recorded c org fresh event OrgPolicyType.two_factor_authentication true text) d h in
      let (v, _, looped, done) =
        >>=-eq-ok (for_each (snapshot d) (enforce_on c template org lacks_second_factor))
          (λ _. pure tt) d enforced in
      let (_, turns) =
        enforce_all-Turned (snapshot d) d v
          (λ m k.
            valid m
              (mem-find_many (λ (r : Membership). r.org_uuid == org) d.users_organizations k).0)
          looped in
      let rows : e.users_organizations ≡ v.users_organizations =
        ap (λ r. r.0.users_organizations) (sym stored)
        ∙ recorded-Keeps c org fresh event OrgPolicyType.two_factor_authentication true text w
        ∙ ap (λ r. r.0.users_organizations) (sym done) in
      let (there, others) = turns y (subst (Memᴰ y) rows n) s in
      elim (Bool-cases (lacks_second_factor y d)) [
        | inr l ↦ l
        | inl l ↦ absurd (
            others y
              (find_many-mem (λ r. r.org_uuid == org) d.users_organizations there
                ((eq_iff y.org_uuid org).1 here))
              s l refl)
      ]

  put_policy-enforced :
      (fresh event text : String) (d e : Db) (p : OrgPolicy) (y : Membership)
      → ((m : Membership) → Memᴰ m d.users_organizations → int_ltb m.status (pos 129) ≡ true)
      → put_policy c org fresh event OrgPolicyType.two_factor_authentication true text d ≡ (e, ok p)
      → Memᴰ y e.users_organizations
      → y.org_uuid ≡ org
      → is_subject y ≡ true
      → lacks_second_factor y d ≡ false
  unfolding put_policy
  put_policy-enforced fresh event text d e p y valid h n here s =
      let (u, _, admitted, rest) =
        >>=-eq-ok (require_member c org MembershipType.admin) (λ _. decreed fresh event text) d h in
      let same : u ≡ d =
        ap (λ r. r.0) (sym admitted) ∙ require_member-reads c org MembershipType.admin d in
      subst (λ x. lacks_second_factor y x ≡ false) same
        (decreed-enforced fresh event text u e p y
          (subst
            (λ (x : Db).
              (m : Membership) → Memᴰ m x.users_organizations → int_ltb m.status (pos 129) ≡ true)
            (sym same) valid)
          rest n here s)

  subject :
      (y : Membership)
      → y.atype ≢ MembershipType.owner
      → y.atype ≢ MembershipType.admin
      → int_ltb y.status MembershipStatus.accepted ≡ false
      → is_subject y ≡ true
  subject y o a s = let low = below_admin y.atype o a in ground (arith, low, s)

  -- When a request that enables the policy of the second factor returns, each member of the organization
  -- who is neither an owner nor an administrator and whose status is at least Accepted has a row of the
  -- second factors of the time of the request, given that all statuses of the time were below 129. The
  -- row may be of any type and need not be enabled.
  pub second_factor_enforced :
      (fresh event text : String) (d e : Db) (p : OrgPolicy) (y : Membership)
      → ((m : Membership) → Memᴰ m d.users_organizations → int_ltb m.status (pos 129) ≡ true)
      → put_policy c org fresh event OrgPolicyType.two_factor_authentication true text d ≡ (e, ok p)
      → Memᴰ y e.users_organizations
      → y.org_uuid ≡ org
      → y.atype ≢ MembershipType.owner
      → y.atype ≢ MembershipType.admin
      → int_ltb y.status MembershipStatus.accepted ≡ false
      → (t : TwoFactor) × Memᴰ t d.twofactor × (t.user_uuid ≡ y.user_uuid)
  second_factor_enforced fresh event text d e p y valid h n here o a s =
      let has = put_policy-enforced fresh event text d e p y valid h n here (subject y o a s) in
      let (t, m, k) = any-mem (λ t. t.user_uuid == y.user_uuid) d.twofactor (not-false _ has) in
      (t, m, (eq_iff t.user_uuid y.user_uuid).0 k)
