-- ===== src/Policies/Tests.antt =====
-- Bob's organization asks for twelve characters.
use vaultur.Prelude.{true, false, none, some, [], ◌∷◌}
use vaultur.Shared.MembershipStatus
use vaultur.Db.{Db, empty_db, OrgPolicy, Membership}
use vaultur.Policies.MasterPassword.{MasterPasswordPolicyData, Parse, no_demands}

abbrev policy : OrgPolicy
policy = record { uuid = "p"; org_uuid = "o"; atype = 1; enabled = true; policy_data = "12" }

abbrev membership : Membership
membership = record {
  uuid = "m";
  user_uuid = "b";
  org_uuid = "o";
  access_all = false;
  akey = "key";
  status = MembershipStatus.confirmed;
  atype = 2;
  invited_by_email = none;
  reset_password_key = none;
  external_id = none;
}

abbrev twelve : MasterPasswordPolicyData
twelve = record no_demands { min_length = some 12 }

abbrev parse : Parse
parse text = some twelve

abbrev db : Db
db = record empty_db { org_policies = policy ∷ []; users_organizations = membership ∷ [] }
