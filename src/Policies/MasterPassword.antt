-- ===== src/Policies/MasterPassword.antt =====
-- services/policies.ts: `masterPasswordPolicy`, the merge of the policies of a user's organizations.
use vaultur.Prelude.{
  ℕ, String, Bool, false, Option, none, some, ◌==◌, nat_instance, string_instance, ◌&&◌, ◌||◌, leb,
  if◌then◌else◌, or_else, List, [], ◌∷◌,
}
use vaultur.Prelude.Table.{find_many, inner_join}
use vaultur.Prelude.Int.{int_instance}
use vaultur.Shared.MembershipStatus
use vaultur.Shared.OrgPolicyType
use vaultur.Db.{Db, OrgPolicy, Membership}

-- `MasterPasswordPolicyData`, with `false` where a flag is absent
pub record MasterPasswordPolicyData : Type 0 where
  pub min_complexity : Option ℕ
  pub min_length : Option ℕ
  pub require_lower : Bool
  pub require_upper : Bool
  pub require_numbers : Bool
  pub require_special : Bool
  pub enforce_on_login : Bool

abbrev pub no_demands : MasterPasswordPolicyData
no_demands = record {
  min_complexity = none;
  min_length = none;
  require_lower = false;
  require_upper = false;
  require_numbers = false;
  require_special = false;
  enforce_on_login = false;
}

abbrev max : ℕ → ℕ → ℕ
max a b = if leb a b then b else a

-- `if (n != null) merged = Math.max(merged ?? 0, n)`
abbrev pub raised : Option ℕ → Option ℕ → Option ℕ
raised merged none = merged
raised merged (some n) = some (max (or_else merged 0) n)

-- The body of the loop, for a text that `JSON.parse` reads.
unfoldable pub merge_policy :
    MasterPasswordPolicyData → MasterPasswordPolicyData → MasterPasswordPolicyData
merge_policy merged data' = record {
  min_complexity = raised merged.min_complexity data'.min_complexity;
  min_length = raised merged.min_length data'.min_length;
  require_lower = merged.require_lower || data'.require_lower;
  require_upper = merged.require_upper || data'.require_upper;
  require_numbers = merged.require_numbers || data'.require_numbers;
  require_special = merged.require_special || data'.require_special;
  enforce_on_login = merged.enforce_on_login || data'.enforce_on_login;
}

-- What `JSON.parse` makes of the text of a policy, which holds an object; none where it throws.
abbrev pub Parse : Type 0
Parse = String → Option MasterPasswordPolicyData

abbrev merge_row :
    Option MasterPasswordPolicyData → MasterPasswordPolicyData → MasterPasswordPolicyData
merge_row none merged = merged
merge_row (some data') merged = merge_policy merged data'

-- The loop.
unfoldable pub merge_policies :
    Parse → List (OrgPolicy × Membership) → MasterPasswordPolicyData → MasterPasswordPolicyData
merge_policies parse [] merged = merged
merge_policies parse (r ∷ rows) merged =
    merge_policies parse rows (merge_row (parse r.0.policy_data) merged)

abbrev pub same_org : OrgPolicy → Membership → Bool
same_org p m = p.org_uuid == m.org_uuid

abbrev pub is_selected : String → OrgPolicy × Membership → Bool
is_selected user_uuid r =
    r.1.user_uuid == user_uuid
    && (r.1.status == MembershipStatus.confirmed
        && (r.0.atype == OrgPolicyType.master_password && r.0.enabled))

abbrev pub merge_any : Parse → List (OrgPolicy × Membership) → Option MasterPasswordPolicyData
merge_any parse [] = none
merge_any parse (r ∷ rows) = some (merge_policies parse (r ∷ rows) no_demands)

-- `masterPasswordPolicy`: none where no policy applies.
unfoldable pub master_password_policy : Parse → Db → String → Option MasterPasswordPolicyData
master_password_policy parse d user_uuid =
    merge_any parse
      (find_many (is_selected user_uuid) (inner_join same_org d.org_policies d.users_organizations))
