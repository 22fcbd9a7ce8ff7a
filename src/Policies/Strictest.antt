-- ===== src/Policies/Strictest.antt =====
-- The merged policy against each of the policies that it merges.
use vaultur.Prelude.{
  ℕ, ◌≤◌, Bool, true, false, Option, none, some, ◌≡◌, string_instance, arith, List, [], ◌∷◌, Memᴰ,
  Option-cases, inl, inr,
}
use vaultur.Db.{Db, OrgPolicy, Membership}
use vaultur.Policies.MasterPassword.{
  MasterPasswordPolicyData, Parse, merge_policy, merge_policies, raised,
}

-- A minimum that is at least the other, if there is another.
abbrev pub IsAtLeast : Option ℕ → Option ℕ → Type 0
IsAtLeast m none = Unit {0}
IsAtLeast none (some n) = some n ≡ none
IsAtLeast (some m) (some n) = n ≤ m

abbrev pub implies : Bool → Bool → Bool
implies true b = b
implies false b = true

-- The first policy demands all that the second demands.
pub record IsStricter (m p : MasterPasswordPolicyData) : Type 0 where
  pub complexity : IsAtLeast m.min_complexity p.min_complexity
  pub length : IsAtLeast m.min_length p.min_length
  pub lower : implies p.require_lower m.require_lower ≡ true
  pub upper : implies p.require_upper m.require_upper ≡ true
  pub numbers : implies p.require_numbers m.require_numbers ≡ true
  pub special : implies p.require_special m.require_special ≡ true
  pub login : implies p.enforce_on_login m.enforce_on_login ≡ true

raised-right : (m o : Option ℕ) → IsAtLeast (raised m o) o
raised-right m none = tt
raised-right none (some n) = ground arith
raised-right (some k) (some n) = ground arith

raised-left : (m o q : Option ℕ) → IsAtLeast m q → IsAtLeast (raised m o) q
raised-left m none q h = h
raised-left m (some n) none h = tt
raised-left none (some n) (some k) h = absurd (ground arith)
raised-left (some j) (some n) (some k) h = ground arith

merge_policy-right : (m p : MasterPasswordPolicyData) → IsStricter (merge_policy m p) p
unfolding merge_policy
merge_policy-right m p = record {
  complexity = raised-right m.min_complexity p.min_complexity;
  length = raised-right m.min_length p.min_length;
  lower = ground arith;
  upper = ground arith;
  numbers = ground arith;
  special = ground arith;
  login = ground arith;
}

merge_policy-left :
    (m p q : MasterPasswordPolicyData) → IsStricter m q → IsStricter (merge_policy m p) q
unfolding merge_policy
merge_policy-left m p q h = record {
  complexity = raised-left m.min_complexity p.min_complexity q.min_complexity h.complexity;
  length = raised-left m.min_length p.min_length q.min_length h.length;
  lower = (let u = h.lower in ground arith);
  upper = (let u = h.upper in ground arith);
  numbers = (let u = h.numbers in ground arith);
  special = (let u = h.special in ground arith);
  login = (let u = h.login in ground arith);
}

-- The loop keeps what it has.
merge_policies-left :
    (parse : Parse) (rows : List (OrgPolicy × Membership)) (m q : MasterPasswordPolicyData)
    → IsStricter m q
    → IsStricter (merge_policies parse rows m) q
unfolding merge_policies
merge_policies-left parse [] m q h = h
merge_policies-left parse (r ∷ rows) m q h = elim (Option-cases (parse r.0.policy_data)) [
  | inl e ↦ rw e (merge_policies-left parse rows m q h)
  | inr (p, e) ↦
      rw e (merge_policies-left parse rows (merge_policy m p) q (merge_policy-left m p q h))
]

-- The merge of the policies of all rows is at least as strict as the policy of each row that can be
-- read, whatever the order of the rows.
pub merge_policies-IsStricter :
    (parse : Parse) (rows : List (OrgPolicy × Membership)) (m q : MasterPasswordPolicyData)
    (r : OrgPolicy × Membership)
    → Memᴰ r rows
    → parse r.0.policy_data ≡ some q
    → IsStricter (merge_policies parse rows m) q
unfolding merge_policies
merge_policies-IsStricter parse [] m q r n e = elim n [ ]
merge_policies-IsStricter parse (s ∷ rows) m q r (Memᴰ.head h) e =
    let u : parse s.0.policy_data ≡ some q = rw (← h) e in
    rw u (merge_policies-left parse rows (merge_policy m q) q (merge_policy-right m q))
merge_policies-IsStricter parse (s ∷ rows) m q r (Memᴰ.tail n) e =
    merge_policies-IsStricter parse rows _ q r n e
