-- ===== src/OrgMembers/Tests.antt =====
-- An organization of Alice, its owner, and Bob, who has accepted his invitation.
use vaultur.Prelude.{
  ℕ, ◌≤◌, String, true, false, none, some, ◌≡◌, ◌≢◌, ◌↔◌, refl, sym, ap, ◌∙◌, ◌==◌, nat_instance,
  string_instance, eq_iff, List, [], ◌∷◌, Memᴰ, arith, ◌⊎◌,
}
use vaultur.Prelude.Int.{ℤ, pos, int_instance, int_ltb}
use vaultur.Prelude.Table.{any, find_many, find_first, update_where}
use vaultur.Shared.MembershipStatus
use vaultur.Shared.MembershipType
use vaultur.Shared.OrgPolicyType
use vaultur.Web.{ok, for_each}
use vaultur.Db.{Db, empty_db, Membership, OrgPolicy, TwoFactor}
use vaultur.Db.Keys.{has_key}
use vaultur.Context.{mailer_enabled}
use vaultur.Events.{log_org_event}
use vaultur.Memberships.{find_confirmed_membership, is_at_least}
use vaultur.Fixtures.{alice, bob, as_user}
use vaultur.OrgMembers.Common.{
  require_member, find_member, find_organization, set_member, parse_member_type,
}
use vaultur.OrgMembers.Lifecycle.{
  confirm_member, confirmed, accept, accepted, revoked, check_policies,
}
use vaultur.OrgMembers.Listing.{wire_type}
use vaultur.OrgMembers.Routes.{Request, Call, run, handle}
use vaultur.OrgMembers.Moves.{Unique, HasOwner}
use vaultur.OrgMembers.Writes.{Writes, changed, IsOwner, confirm-Writes}
use vaultur.OrgMembers.Acceptance.{accept-Writes}
use vaultur.OrgMembers.Owners.{owners_remain, owners_by_owners, other_organizations_kept}
use vaultur.OrgMembers.Outsiders.{is_admin, outsider_changes_nothing}
use vaultur.OrgMembers.Recovery.{ResetBody, reset_user, reset_password}
use vaultur.OrgMembers.Recovered.{IsAllowed, reset_password-IsAllowed}
use vaultur.OrgMembers.PolicyRoutes.{put_policy, enforce, enforce_on, find_policy, store_policy}
use vaultur.OrgMembers.Enforced.{second_factor_enforced}
use vaultur.OrgMembers.Wire.{parse_member_type-wire_type}

abbrev row : String → String → String → ℤ → ℕ → Membership
row uuid user org status atype = record {
  uuid = uuid;
  user_uuid = user;
  org_uuid = org;
  access_all = false;
  akey = "";
  status = status;
  atype = atype;
  invited_by_email = none;
  reset_password_key = some "enrolled";
  external_id = none;
}

abbrev owner : Membership
owner = row "m1" "a" "o" MembershipStatus.confirmed MembershipType.owner

abbrev member : Membership
member = row "m2" "b" "o" MembershipStatus.accepted MembershipType.user

abbrev start : Db
start = record empty_db {
  users = alice ∷ bob ∷ [];
  organizations =
      record { uuid = "o"; name = "Org"; billing_email = ""; private_key = none; public_key = none }
      ∷ [];
  users_organizations = owner ∷ member ∷ [];
}

abbrev history : List Call
history =
    record {
      context = as_user alice;
      org = "o";
      request = Request.confirming "e1" "m2" (some "key");
    }
    ∷ record { context = as_user alice; org = "o"; request = Request.removing "e2" "m1" }
    ∷ record { context = as_user bob; org = "o"; request = Request.setting_revoked true "e3" "m1" }
    ∷ []

strings_differ : (a b : String) → (a == b) ≡ false → a ≢ b
strings_differ a b h e = let k : (a == b) ≡ true = (eq_iff a b).1 e in ground (arith, h, k)

only_member : (y : Membership) → Memᴰ y (member ∷ []) → y.uuid ≢ "m1"
only_member y (Memᴰ.head e) k =
    strings_differ "m2" "m1" refl (sym (ap (λ (r : Membership). r.uuid) e) ∙ k)
only_member y (Memᴰ.tail n) k = elim n [ ]

start-Unique : Unique start.users_organizations
start-Unique = (only_member, ((λ y n. elim n [ ]), tt))

start-HasOwner : HasOwner "o" start.users_organizations
start-HasOwner = (owner, Memᴰ.head refl, refl)

owners_remain_example : HasOwner "o" (run history start).users_organizations
owners_remain_example = owners_remain history "o" start start-Unique start-HasOwner

bob_no_admin : is_admin (as_user bob) "o" start ≡ false
unfolding find_confirmed_membership find_first
bob_no_admin = refl

outsider_changes_nothing_example :
    handle (as_user bob) "o" (Request.removing "e" "m1") start ≡ start
outsider_changes_nothing_example =
    outsider_changes_nothing (as_user bob) "o" (Request.removing "e" "m1") start bob_no_admin refl

abbrev change : Request
change = Request.accepting "m2" none

owner_kept : Memᴰ owner (handle (as_user bob) "o" change start).users_organizations
unfolding handle accept find_member find_first
owner_kept = Memᴰ.head refl

owners_by_owners_example :
    IsOwner (as_user bob) "o" start
    ⊎ ((x : Membership) × Memᴰ x start.users_organizations
        × (x.uuid ≡ "m1")
        × (x.org_uuid ≡ "o")
        × (x.atype ≡ MembershipType.owner))
owners_by_owners_example =
    owners_by_owners (as_user bob) "o" change start owner start-Unique owner_kept refl

elsewhere : owner.org_uuid ≢ "p"
elsewhere = strings_differ "o" "p" refl

other_organizations_kept_example :
    Memᴰ owner (handle (as_user bob) "p" change start).users_organizations
    ↔ Memᴰ owner start.users_organizations
other_organizations_kept_example =
    other_organizations_kept (as_user bob) "p" change start owner start-Unique elsewhere

abbrev invited : Db
invited = record start {
  users_organizations = owner ∷ row "m2" "b" "o" MembershipStatus.invited MembershipType.user ∷ [];
}

accept-Writes_example :
    Writes
      (find_member "m2" "o" invited)
      invited.users_organizations
      (accept (as_user bob) "o" "m2" none invited).0.users_organizations
      (λ m. ((m.user_uuid == "b") ≡ true) × ((m.status == MembershipStatus.invited) ≡ true))
      (λ m. changed invited.users_organizations "m2" accepted)
accept-Writes_example = accept-Writes (as_user bob) "o" "m2" invited none

accepted_test : (accept (as_user bob) "o" "m2" none invited).0 ≡ start
unfolding accept find_member find_first check_policies set_member find_organization update_where
    mailer_enabled any
accepted_test = refl

confirm-Writes_example :
    Writes
      (find_member "m2" "o" start)
      start.users_organizations
      (confirm_member (as_user alice) "o" "e" "m2" "key" start).0.users_organizations
      (λ m.
        (m.status ≡ MembershipStatus.accepted)
        × ((m.atype == MembershipType.owner) ≡ false ⊎ IsOwner (as_user alice) "o" start))
      (λ m. changed start.users_organizations "m2" (confirmed "key"))
confirm-Writes_example = confirm-Writes (as_user alice) "o" "e" "m2" start "key"

abbrev without_bob : Db
without_bob = record start { users_organizations = owner ∷ revoked member ∷ [] }

abbrev recovery : ResetBody
recovery = record { new_master_password_hash = some "hash"; key = some "key" }

reset_password-IsAllowed_example :
    ((reset_password (as_user alice) "o" "e" "salt" "stamp" recovery "m1" start).0.users
      ≡ start.users)
    ⊎ ((m : Membership) × IsAllowed (as_user alice) "o" "m1" start m
        × ((reset_password (as_user alice) "o" "e" "salt" "stamp" recovery "m1" start).0.users
            ≡ update_where
                (λ u. u.uuid == m.user_uuid)
                (reset_user (as_user alice) "salt" "stamp" "hash" "key")
                start.users))
reset_password-IsAllowed_example =
    reset_password-IsAllowed (as_user alice) "o" "e" "salt" "stamp" recovery "m1" start

abbrev manager : Membership
manager = row "m3" "c" "o" MembershipStatus.confirmed MembershipType.manager

manager_in_range : manager.atype ≤ 3
manager_in_range = omega arith

parse_member_type-wire_type_example :
    parse_member_type (some (wire_type manager)) ≡ ok MembershipType.manager
parse_member_type-wire_type_example = parse_member_type-wire_type manager manager_in_range

abbrev protected : Db
protected = record start {
  twofactor = record { uuid = "t"; user_uuid = "b"; atype = 0; enabled = true } ∷ [];
}

statuses_small :
    (m : Membership) → Memᴰ m protected.users_organizations → int_ltb m.status (pos 129) ≡ true
statuses_small m (Memᴰ.head e) = ap (λ (r : Membership). int_ltb r.status (pos 129)) e
statuses_small m (Memᴰ.tail (Memᴰ.head e)) = ap (λ (r : Membership). int_ltb r.status (pos 129)) e
statuses_small m (Memᴰ.tail (Memᴰ.tail n)) = elim n [ ]

abbrev decided : OrgPolicy
decided = record { uuid = "p"; org_uuid = "o"; atype = 0; enabled = true; policy_data = "null" }

policy_put :
    put_policy
      (as_user alice)
      "o"
      "p"
      "e"
      OrgPolicyType.two_factor_authentication
      true
      "null"
      protected
    ≡ (record protected { org_policies = decided ∷ [] }, ok decided)
unfolding put_policy require_member find_confirmed_membership find_first is_at_least enforce
    for_each enforce_on find_many any find_policy store_policy has_key log_org_event
policy_put = refl

not_owner : member.atype ≢ MembershipType.owner
not_owner e = omega (arith, e)

not_admin : member.atype ≢ MembershipType.admin
not_admin e = omega (arith, e)

second_factor_enforced_example : (t : TwoFactor) × Memᴰ t protected.twofactor × (t.user_uuid ≡ "b")
second_factor_enforced_example =
    second_factor_enforced (as_user alice) "o" "p" "e" "null" protected
      (record protected { org_policies = decided ∷ [] }) decided member statuses_small policy_put
      (Memᴰ.tail (Memᴰ.head refl)) refl not_owner not_admin refl
