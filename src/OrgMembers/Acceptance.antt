-- ===== src/OrgMembers/Acceptance.antt =====
-- What `accept` writes to the table of members, on all its branches.
use vaultur.Prelude.{
  String, Bool, true, false, ◌≡◌, refl, sym, subst, ◌⊎◌, inl, inr, ◌==◌, nat_instance,
  string_instance, ◌&&◌, Option, none, some, arith, List, Bool-cases, Option-cases, truthy, or_else,
}
use vaultur.Prelude.Int.{int_instance}
use vaultur.Shared.MembershipStatus
use vaultur.Web.{Result, ok, err, M, continue, when, get, ◌>>=◌, ◌>>◌}
use vaultur.Db.{Db, Membership}
use vaultur.Context.{Context, Claims, mailer_enabled}
use vaultur.OrgMembers.Common.{find_member, find_organization, set_member, send_mail, asserted}
use vaultur.OrgMembers.Lifecycle.{accept, accepted, check_token, check_policies, is_invitation}
use vaultur.OrgMembers.Writes.{Writes, changed}

-- A step that writes nothing, before a step that does.
after_check :
    {A : Type 0} (P : List Membership → Type 0) (m : M Db (Unit {0})) (f : M Db A) (d : Db)
    → (m d).0 ≡ d
    → P d.users_organizations
    → P (f d).0.users_organizations
    → P ((m >> f) d).0.users_organizations
after_check P m f d h k l = continued (m d) h
  where
    continued :
        (r : Db × Result (Unit {0})) → r.0 ≡ d → P (continue r (λ _. f)).0.users_organizations
    continued (e, err n t) q = subst (λ (x : Db). P x.users_organizations) (sym q) k
    continued (e, ok a) q = subst (λ x. P (f x).0.users_organizations) (sym q) l

is_invitation-reads :
    (id email : String) (claims : Option Claims) (d : Db) → (is_invitation id email claims d).0 ≡ d
is_invitation-reads id email none d = refl
is_invitation-reads id email (some claims) d = ground arith

check_token-reads :
    (c : Context) (id : String) (token : Option String) (d : Db) → (check_token c id token d).0 ≡ d
unfolding check_token
check_token-reads c id token d = elim (Bool-cases (truthy token)) [
  | inl k ↦ rw (k, check_token) (is_invitation-reads id c.user.email _ d)
  | inr k ↦ rw (k, check_token) refl
]

check_policies-reads :
    (c : Context) (org : String) (m : Membership) (d : Db) → (check_policies c org m d).0 ≡ d
unfolding check_policies
check_policies-reads c org m d = ground arith

abbrev welcome : Context → String → Membership → M Db (Unit {0})
welcome c org m = do
  organization ← get (find_organization org)
  when (mailer_enabled c && truthy m.invited_by_email) (do
    _ ← asserted organization
    send_mail "invite_accepted" (or_else m.invited_by_email "") none)

welcomed :
    (c : Context) (org id : String) (m : Membership) (d : Db)
    → ((set_member id accepted >> welcome c org m) d).0.users_organizations
      ≡ changed d.users_organizations id accepted
unfolding set_member
welcomed c org id m d = ground arith

-- An acceptance, whether it returns or fails, leaves the table of members as it was; or it changes the status
-- of the named row alone, to Accepted, where that row is the user's own and was Invited.
pub accept-Writes :
    (c : Context) (org id : String) (d : Db) (token : Option String)
    → Writes
        (find_member id org d)
        d.users_organizations
        (accept c org id token d).0.users_organizations
        (λ m.
          ((m.user_uuid == c.user.uuid) ≡ true) × ((m.status == MembershipStatus.invited) ≡ true))
        (λ m. changed d.users_organizations id accepted)
unfolding accept
accept-Writes c org id d token = elim (Option-cases (find_member id org d)) [
  | inl e ↦ rw (e, accept) refl
  | inr (m, e) ↦ elim (Bool-cases (m.user_uuid == c.user.uuid)) [
    | inr k ↦ rw (e, accept, k) (inl refl)
    | inl k ↦ elim (Bool-cases (m.status == MembershipStatus.invited)) [
      | inr s ↦ rw (e, accept, k, s) (inl refl)
      | inl s ↦
          rw (e, accept, k, s)
            (after_check (Guarded m) (when (mailer_enabled c) (check_token c id token)) (joined m) d
              (when_token (mailer_enabled c)) (inl refl)
              (after_check (Guarded m) (check_policies c org m) (welcomed_by m) d
                (check_policies-reads c org m d) (inl refl)
                (inr ((refl, refl), welcomed c org id m d))))
    ]
  ]
]
  where
    Guarded : Membership → List Membership → Type 0
    Guarded m rows =
        (rows ≡ d.users_organizations)
        ⊎ (((true ≡ true) × (true ≡ true)) × (rows ≡ changed d.users_organizations id accepted))

    welcomed_by : Membership → M Db (Unit {0})
    welcomed_by m = set_member id accepted >> welcome c org m

    joined : Membership → M Db (Unit {0})
    joined m = check_policies c org m >> welcomed_by m

    when_token : (b : Bool) → (when b (check_token c id token) d).0 ≡ d
    when_token true = check_token-reads c id token d
    when_token false = refl
