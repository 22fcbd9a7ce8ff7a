-- ===== src/EmergencyAccess/Approval.antt =====
-- What a takeover has behind it: the grantor's own approval.
use vaultur.Prelude.{
  ◌≢◌, ◌⊎◌, ℕ, String, ◌≡◌, refl, sym, ap, ◌∙◌, inl, inr, ◌==◌, nat_instance, string_instance, some,
  arith, List, [], ◌∷◌, Memᴰ, or_else,
}
use vaultur.Prelude.Table.{find_first, update_where, delete_where, find_first-holds, find_first-mem}
use vaultur.Shared.{recovery_approved}
use vaultur.Shared.EmergencyAccessType
use vaultur.Web.{ok, >>=-eq-ok}
use vaultur.Db.{EmergencyAccess, Db}
use vaultur.Context.{Context}
use vaultur.EmergencyAccess.Common.{ensure_enabled, load_for_grantee, is_granted_to}
use vaultur.EmergencyAccess.Recovery.{
  PasswordBody, set_password, load_valid, is_valid_request, with_password,
}
use vaultur.Users.{password_fields}
use vaultur.EmergencyAccess.Routes.{Request, handle, run}
use vaultur.EmergencyAccess.Edges.{Edge, granted_to}
use vaultur.EmergencyAccess.Steps.{Explained, handle-Explains}
use vaultur.EmergencyAccess.Unique.{Unique, handle-Unique}

-- The grantor of the row has approved its recovery at some time of the history.
abbrev pub IsApproved : List (Context × Request) → EmergencyAccess → Type 0
IsApproved h y = (c : Context) × Memᴰ (c, Request.approve y.uuid) h × (y.grantor_uuid ≡ c.user.uuid)

-- The row, or what it was, stood approved in a table.
abbrev WasApproved : List EmergencyAccess → EmergencyAccess → Type 0
WasApproved rows y =
    (x : EmergencyAccess) × Memᴰ x rows
    × (x.uuid ≡ y.uuid)
    × (x.grantor_uuid ≡ y.grantor_uuid)
    × (x.status ≡ recovery_approved)

-- One edge into `recovery_approved`: the row stood there, or its grantor approves it.
edge_approved :
    (c : Context) (r : Request) (x y : EmergencyAccess)
    → Edge c r x y
    → y.status ≡ recovery_approved
    → (x.uuid ≡ y.uuid)
      × (x.grantor_uuid ≡ y.grantor_uuid)
      × ((x.status ≡ recovery_approved)
          ⊎ ((r ≡ Request.approve y.uuid) × (y.grantor_uuid ≡ c.user.uuid)))
edge_approved c r x y (Edge.keep e) s = ground arith
edge_approved c r x y (Edge.retime body _ _ _ e) s = ground arith
edge_approved c r x y (Edge.accept token _ _ _ e) s = ground arith
edge_approved c r x y (Edge.confirm key _ _ _ e) s = ground arith
edge_approved c r x y (Edge.initiate _ _ _ e) s = ground arith
edge_approved c r x y (Edge.approve q g _ e) s = ground arith
edge_approved c r x y (Edge.reject _ _ _ e) s = ground arith

step_approved :
    (c : Context) (r : Request) (d : Db) (y : EmergencyAccess)
    → Explained c r d.emergency_access y
    → y.status ≡ recovery_approved
    → WasApproved d.emergency_access y
      ⊎ ((r ≡ Request.approve y.uuid) × (y.grantor_uuid ≡ c.user.uuid))
step_approved c r d y (inr i) s = absurd (ground arith)
step_approved c r d y (inl (x, m, e)) s =
    let (u, g, o) = edge_approved c r x y e s in
    elim o [ inl t ↦ inl (x, m, u, g, t) | inr p ↦ inr p ]

run-IsApproved :
    (h : List (Context × Request)) (d : Db)
    → Unique d.emergency_access
    → (y : EmergencyAccess) → Memᴰ y (run h d).emergency_access
    → y.status ≡ recovery_approved
    → IsApproved h y ⊎ WasApproved d.emergency_access y
unfolding run
run-IsApproved [] d u y m s = inr (y, m, refl, refl, s)
run-IsApproved ((c, r) ∷ h) d u y m s =
    elim (run-IsApproved h (handle c r d) (handle-Unique c d u r) y m s) [
      | inl (a, n, g) ↦ inl (a, Memᴰ.tail n, g)
      | inr (x, n, p, g, t) ↦ elim (step_approved c r d x ((handle-Explains c d u r).0 x n) t) [
        | inl (z, k, q, f, v) ↦ inr (z, k, q ∙ p, f ∙ g, v)
        | inr (q, f) ↦
            inl (c, Memᴰ.head (λ i. (c, (ap Request.approve (sym p) ∙ sym q) i)), sym g ∙ f)
      ]
    ]

-- From a table with one row to a uuid and without approved rows, a row is approved only after a
-- request of its own grantor to approve it.
pub IsApproved-by_grantor :
    (h : List (Context × Request)) (d : Db)
    → Unique d.emergency_access
    → ((x : EmergencyAccess) → Memᴰ x d.emergency_access → x.status ≢ recovery_approved)
    → (y : EmergencyAccess) → Memᴰ y (run h d).emergency_access
    → y.status ≡ recovery_approved
    → IsApproved h y
IsApproved-by_grantor h d u none_yet y m s = elim (run-IsApproved h d u y m s) [
  | inl a ↦ a
  | inr (x, n, _, _, t) ↦ absurd (none_yet x n t)
]

-- What a takeover that succeeded has read and written.
pub record IsTakeover (c : Context) (id salt stamp : String) (body : PasswordBody) (d e : Db)
    : Type 0 where
  pub row : EmergencyAccess
  pub listed : Memᴰ row d.emergency_access
  pub named : row.uuid ≡ id
  pub grantee : row.grantee_uuid ≡ some c.user.uuid
  pub approved : row.status ≡ recovery_approved
  pub takeover : row.atype ≡ EmergencyAccessType.takeover
  pub result : e ≡ record d {
    users =
        update_where
          (λ u. u.uuid == row.grantor_uuid)
          (with_password c
            (password_fields c salt (or_else body.new_master_password_hash ""))
            (or_else body.key "")
            stamp)
          d.users;
    twofactor = delete_where (λ t. t.user_uuid == row.grantor_uuid) d.twofactor;
  }

load_valid-ok :
    (c : Context) (id : String) (atype : ℕ) (d e : Db) (ea : EmergencyAccess)
    → load_valid c id atype d ≡ (e, ok ea)
    → (e ≡ d)
      × (find_first (is_granted_to id c.user.uuid) d.emergency_access ≡ some ea)
      × (ea.status ≡ recovery_approved)
      × (ea.atype ≡ atype)
unfolding load_valid ensure_enabled load_for_grantee is_valid_request
load_valid-ok c id atype d e ea h = ground arith

-- A takeover that succeeds has an approved row of its user, and writes the grantor's password and
-- nothing else, but that it deletes the grantor's second factors.
pub set_password-IsTakeover :
    (c : Context) (id salt stamp : String) (body : PasswordBody) (d e : Db)
    → set_password c id salt stamp body d ≡ (e, ok tt)
    → IsTakeover c id salt stamp body d e
unfolding set_password
set_password-IsTakeover c id salt stamp body d e h =
    let (u, ea, l, rest) = >>=-eq-ok (load_valid c id EmergencyAccessType.takeover) _ d h in
    let (same, found, approved, kind) = load_valid-ok c id _ d u ea l in
    let (named, grantee) =
      granted_to id c.user.uuid ea (find_first-holds _ d.emergency_access found) in
    record {
      row = ea;
      listed = find_first-mem _ d.emergency_access found;
      named = named;
      grantee = grantee;
      approved = approved;
      takeover = kind;
      result = ground arith;
    }

-- No takeover without the grantor's own approval: whatever was requested before, from a table with
-- one row to a uuid and without approved rows, a takeover that succeeds rewrites the password of a
-- grantor who requested to approve this relationship, and its user is the grantee of an approved
-- row of the takeover type.
pub IsTakeover-needs_approval :
    (h : List (Context × Request)) (d e : Db) (c : Context) (id salt stamp : String)
    (body : PasswordBody)
    → Unique d.emergency_access
    → ((x : EmergencyAccess) → Memᴰ x d.emergency_access → x.status ≢ recovery_approved)
    → set_password c id salt stamp body (run h d) ≡ (e, ok tt)
    → (t : IsTakeover c id salt stamp body (run h d) e) × IsApproved h t.row
IsTakeover-needs_approval h d e c id salt stamp body u none_yet s =
    let t = set_password-IsTakeover c id salt stamp body (run h d) e s in
    (t, IsApproved-by_grantor h d u none_yet t.row t.listed t.approved)
