-- ===== src/OrgMembers/PolicyMoves.antt =====
-- A policy puts members out without touching the owners, and keeps to `Moves`.
use vaultur.Prelude.{
  ℕ, String, Bool, true, false, ◌≡◌, refl, sym, subst, ◌∙◌, inl, inr, ◌==◌, nat_instance,
  string_instance, Option, none, some, arith, List, Memᴰ, Bool-cases, eq_iff,
}
use vaultur.Prelude.Int.{int_instance}
use vaultur.Prelude.Table.{
  find_many, mem-find_many, update_where, mem-update_where_hit, mem-update_where_kept,
}
use vaultur.Shared.MembershipType
use vaultur.Shared.EventType
use vaultur.Shared.OrgPolicyType
use vaultur.Web.{M, get, pure, ◌>>=◌, ◌>>◌, when, for_each}
use vaultur.Web.Steps.{after_read, bind-Steps, when-Steps, for_each-mem-Steps}
use vaultur.Db.{Db, Membership, OrgPolicy}
use vaultur.Context.{Context}
use vaultur.Memberships.{is_at_least}
use vaultur.Events.{log_org_event, policy}
use vaultur.OrgMembers.Common.{require_member, set_member, is_confirmed_owner}
use vaultur.OrgMembers.PolicyRoutes.{
  put_policy, enforce, enforce_on, put_out, is_subject, mail_removed, store_policy, find_policy,
  lacks_second_factor, is_elsewhere,
}
use vaultur.OrgMembers.Moves.{Moves, update-Moves}
use vaultur.OrgMembers.Kept.{Keeps, SameMembers, same_refl, same_trans, log_org_event-Keeps}
use vaultur.OrgMembers.MemberMoves.{Moved}
use vaultur.OrgMembers.InviteMoves.{Moved-refl, Moved-trans, kept-Moved}
use vaultur.OrgMembers.EditMoves.{require_member-reads}

abbrev IsVersion : Membership → Membership → Type 0
IsVersion x y = (y.uuid ≡ x.uuid) × (y.atype ≡ x.atype) × (y.org_uuid ≡ x.org_uuid)

-- Each row is still there, with its uuid, its type and its organization.
abbrev AllThere : List Membership → List Membership → Type 0
AllThere before rows =
    (x : Membership) → Memᴰ x before → (y : Membership) × Memᴰ y rows × IsVersion x y

pub mail_removed-Keeps :
    (c : Context) (template org : String) (m : Membership) → Keeps (mail_removed c template org m)
unfolding mail_removed
mail_removed-Keeps c template org m d = ground arith

subject_not_owner :
    (m y : Membership) (o : String)
    → is_subject m ≡ true
    → y.atype ≡ m.atype
    → is_confirmed_owner o y ≡ false
unfolding is_at_least
subject_not_owner m y o h t =
    let k : (m.atype == MembershipType.owner) ≡ false = ground arith in ground (arith, k, t)

put_out-AllThere :
    (m : Membership) (before rows : List Membership)
    → AllThere before rows
    → AllThere before (update_where (λ r. r.uuid == m.uuid) (put_out m) rows)
put_out-AllThere m before rows h x stored =
    let (y, n, v) = h x stored in
    elim (Bool-cases (y.uuid == m.uuid)) [
      | inl k ↦ (put_out m y, mem-update_where_hit (λ r. r.uuid == m.uuid) (put_out m) rows k n, v)
      | inr k ↦ (y, mem-update_where_kept (λ r. r.uuid == m.uuid) (put_out m) rows k n, v)
    ]

module _ (authority : Type 0) (c : Context) (org : String) (before : List Membership) where
  -- What a turn of the loop does, as long as the rows of the snapshot are there.
  abbrev Turn : Db → Db → Type 0
  Turn d e =
      AllThere before d.users_organizations
      → AllThere before e.users_organizations × Moved authority org d e

  Turn-refl : (d : Db) → Turn d d
  Turn-refl d h = (h, Moved-refl authority org d)

  Turn-trans : (d e f : Db) → Turn d e → Turn e f → Turn d f
  Turn-trans d e f h k a =
      let (b, m) = h a in let (z, n) = k b in (z, Moved-trans authority org d e f m n)

  set_member-Turn :
      (m : Membership)
      → Memᴰ m before
      → m.org_uuid ≡ org
      → is_subject m ≡ true
      → (d : Db) → Turn d (set_member m.uuid (put_out m) d).0
  unfolding set_member
  set_member-Turn m stored here subject d h =
      let (y, n, (u, t, o)) = h m stored in
      (
        put_out-AllThere m before d.users_organizations h,
        subst
            (λ i.
              Moves authority org d.users_organizations
                (update_where (λ r. r.uuid == i) (put_out m) d.users_organizations))
            u
            (update-Moves authority org d.users_organizations y n (o ∙ here) (put_out m)
              (λ r. (refl, refl)) (λ w. inr w)
              (inr (inl (subject_not_owner m y y.org_uuid subject t)))),
      )

  kept-Turn : {A : Type 0} (m : M Db A) → Keeps m → (d : Db) → Turn d (m d).0
  kept-Turn m k d h = (subst (AllThere before) (sym (k d)) h, kept-Moved authority org m k d)

  enforce_on-Turn :
      (template : String) (broken : Membership → Db → Bool) (m : Membership)
      → Memᴰ m before
      → m.org_uuid ≡ org
      → (d : Db) → Turn d (enforce_on c template org broken m d).0
  unfolding enforce_on
  enforce_on-Turn template broken m stored here d = elim (Bool-cases (is_subject m)) [
    | inr k ↦ rw (k, enforce_on) (Turn-refl d)
    | inl k ↦ elim (Bool-cases (broken m d)) [
      | inr b ↦ rw (k, enforce_on, b) (Turn-refl d)
      | inl b ↦
          rw (k, enforce_on, b)
            (bind-Steps Turn Turn-refl Turn-trans (set_member m.uuid (put_out m))
              (λ _. mail_removed c template org m) (set_member-Turn m stored here k)
              (λ _. kept-Turn (mail_removed c template org m) (mail_removed-Keeps c template org m))
              d)
    ]
  ]

  enforce_all-Turn :
      (template : String) (broken : Membership → Db → Bool) (members : List Membership)
      → ((m : Membership) → Memᴰ m members → Memᴰ m before × (m.org_uuid ≡ org))
      → (d : Db) → Turn d (for_each members (enforce_on c template org broken) d).0
  enforce_all-Turn template broken members each =
      for_each-mem-Steps Turn Turn-refl Turn-trans members (enforce_on c template org broken)
        (λ m k. enforce_on-Turn template broken m (each m k).0 (each m k).1)

  enforce-Turn :
      (atype : ℕ) (members : List Membership)
      → ((m : Membership) → Memᴰ m members → Memᴰ m before × (m.org_uuid ≡ org))
      → (d : Db) → Turn d (enforce c org atype members d).0
  unfolding enforce
  enforce-Turn atype members each =
      bind-Steps Turn Turn-refl Turn-trans
        (when (atype == OrgPolicyType.two_factor_authentication)
          (for_each members (enforce_on c "two_factor_removed_from_org" org lacks_second_factor)))
        (λ _.
          when (atype == OrgPolicyType.single_org)
            (for_each members (enforce_on c "single_org_removed_from_org" org (is_elsewhere org))))
        (when-Steps Turn Turn-refl Turn-trans _ _
          (enforce_all-Turn _ lacks_second_factor members each))
        (λ _.
          when-Steps Turn Turn-refl Turn-trans _ _
            (enforce_all-Turn _ (is_elsewhere org) members each))

  when_enabled-Turn :
      (enabled : Bool) (atype : ℕ) (members : List Membership)
      → ((m : Membership) → Memᴰ m members → Memᴰ m before × (m.org_uuid ≡ org))
      → (d : Db) → Turn d (when enabled (enforce c org atype members) d).0
  when_enabled-Turn enabled atype members each =
      when-Steps Turn Turn-refl Turn-trans enabled (enforce c org atype members)
        (enforce-Turn atype members each)

abbrev pub recorded : Context → String → String → String → ℕ → Bool → String → M Db OrgPolicy
recorded c org fresh event atype enabled text = do
  existing ← get (find_policy org atype)
  row ← store_policy fresh org atype enabled text existing
  log_org_event c event EventType.policy_updated org (policy row.uuid) (some c.device.atype)
  pure row

store_policy-Keeps :
    (fresh org : String) (atype : ℕ) (enabled : Bool) (text : String) (found : Option OrgPolicy)
    → Keeps (store_policy fresh org atype enabled text found)
unfolding store_policy
store_policy-Keeps fresh org atype enabled text none = λ d. ground arith
store_policy-Keeps fresh org atype enabled text (some p) = λ d. refl

pub recorded-Keeps :
    (c : Context) (org fresh event : String) (atype : ℕ) (enabled : Bool) (text : String)
    → Keeps (recorded c org fresh event atype enabled text)
recorded-Keeps c org fresh event atype enabled text d =
    bind-Steps SameMembers same_refl same_trans
      (store_policy fresh org atype enabled text (find_policy org atype d))
      (λ row.
        log_org_event c event EventType.policy_updated org (policy row.uuid) (some c.device.atype)
        >> pure row)
      (store_policy-Keeps fresh org atype enabled text (find_policy org atype d))
      (λ row.
        bind-Steps SameMembers same_refl same_trans
          (log_org_event c event EventType.policy_updated org (policy row.uuid)
            (some c.device.atype))
          (λ _. pure row) (log_org_event-Keeps c event _ org _ _) (λ _. same_refl))
      d

pub put_policy-Moves :
    (authority : Type 0) (c : Context) (org fresh event : String) (atype : ℕ) (enabled : Bool)
    (text : String) (d : Db)
    → Moved authority org d (put_policy c org fresh event atype enabled text d).0
unfolding put_policy
put_policy-Moves authority c org fresh event atype enabled text d =
    after_read (λ e. Moved authority org d e) (require_member c org MembershipType.admin) _ d
      (require_member-reads c org _ d) (Moved-refl authority org d)
      λ _ _.
        (bind-Steps (Turn authority c org rows) (Turn-refl authority c org rows)
          (Turn-trans authority c org rows) (when enabled (enforce c org atype (members d)))
          (λ _. recorded c org fresh event atype enabled text)
          (when_enabled-Turn authority c org rows enabled atype (members d)
            (λ m k. from_snapshot m k))
          (λ _.
            kept-Turn authority c org rows (recorded c org fresh event atype enabled text)
              (recorded-Keeps c org fresh event atype enabled text))
          d (λ x k. (x, k, (refl, refl, refl)))).1
  where
    rows : List Membership
    rows = d.users_organizations

    members : Db → List Membership
    members d = find_many (λ m. m.org_uuid == org) d.users_organizations

    from_snapshot : (m : Membership) → Memᴰ m (members d) → Memᴰ m rows × (m.org_uuid ≡ org)
    from_snapshot m k =
        let (stored, here) = mem-find_many (λ (r : Membership). r.org_uuid == org) rows k in
        (stored, (eq_iff m.org_uuid org).0 here)
