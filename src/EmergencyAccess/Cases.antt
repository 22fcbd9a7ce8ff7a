-- ===== src/EmergencyAccess/Cases.antt =====
-- What each handler of api/emergency-access.ts does to its table: nothing, or one write whose guards
-- have passed.
use vaultur.Prelude.{
  String, true, false, ◌≡◌, ap, ◌⊎◌, inl, inr, ◌==◌, string_instance, Option, none, some,
  Option-cases, arith, eq_iff, List, ◌∷◌, ◌≤◌, ℕ, or_else, truthy, holds, ◌&&◌, ◌||◌, Bool-cases,
  if◌then◌else◌,
}
use vaultur.Prelude.Table.{find_first, update_where, delete_where, find_first-holds}
use vaultur.Shared.{invited, accepted, confirmed, recovery_initiated, recovery_approved}
use vaultur.Db.{EmergencyAccess, Db}
use vaultur.Context.{Context, mailer_enabled}
use vaultur.Users.{find_user_by_email}
use vaultur.Db.Keys.{has_key}
use vaultur.Web.{ok, err}
use vaultur.Shared.EmergencyAccessType
use vaultur.EmergencyAccess.Common.{
  ensure_enabled, load_for_grantor, load_for_grantee, is_granted_by, is_granted_to, set_where_uuid,
}
use vaultur.EmergencyAccess.Invitation.{
  mail_grantee, accept, accepted_by, confirm, confirmed_with, update_ea, UpdateBody, reinvite, show,
  delete_ea, authorize_accept, check_invitation, invite, InviteBody, insert_row, store_invitation,
  new_row, auto_accept,
}
use vaultur.EmergencyAccess.Recovery.{
  view, takeover, policies, initiate, initiated_at, approve, approved_at, reject, rejected_at,
  load_valid, view, takeover, set_password, PasswordBody,
}

-- A handler that looks a row up, and then leaves the table alone or, where `G` holds of the row,
-- rewrites it by `f` of the row found.
abbrev pub Writes :
    Option EmergencyAccess
    → List EmergencyAccess
    → List EmergencyAccess
    → (EmergencyAccess → Type 0)
    → (EmergencyAccess → EmergencyAccess → EmergencyAccess)
    → Type 0
Writes none before after G f = after ≡ before
Writes (some ea) before after G f =
    (after ≡ before) ⊎ (G ea × (after ≡ update_where (λ r. r.uuid == ea.uuid) (f ea) before))

-- `updateEa` computes the row's new fields from the row that it loaded.
abbrev pub retimed : Context → UpdateBody → EmergencyAccess → EmergencyAccess → EmergencyAccess
retimed c body ea r = record r {
  atype = or_else body.atype ea.atype;
  wait_time_days = or_else body.wait_time_days ea.wait_time_days;
  updated_at = c.now;
}

-- Who may accept an invitation: with mail the holder of its token, without mail the user of its
-- address, or anybody where the row has no address.
abbrev pub IsInvitee : Context → String → Option String → EmergencyAccess → Type 0
IsInvitee c id token ea =
    ((mailer_enabled c ≡ true) × (check_invitation c id (or_else token "") ≡ true))
    ⊎ ((mailer_enabled c ≡ false)
        × ((truthy ea.email ≡ false) ⊎ (holds ea.email c.user.email ≡ true)))

module _ (c : Context) (id : String) (d : Db) where
  pub approve-Writes :
      Writes
        (find_first (is_granted_by id c.user.uuid) d.emergency_access)
        d.emergency_access
        (approve c id d).0.emergency_access
        (λ ea. ea.status ≡ recovery_initiated)
        (λ _. approved_at c)
  unfolding approve ensure_enabled load_for_grantor set_where_uuid mail_grantee
  approve-Writes =
      elim (Option-cases (find_first (is_granted_by id c.user.uuid) d.emergency_access)) [
        | inl e ↦ rw (e, approve) (ground arith)
        | inr (ea, e) ↦ rw (e, approve) (ground arith)
      ]

  pub reject-Writes :
      Writes
        (find_first (is_granted_by id c.user.uuid) d.emergency_access)
        d.emergency_access
        (reject c id d).0.emergency_access
        (λ ea. (ea.status ≡ recovery_initiated) ⊎ (ea.status ≡ recovery_approved))
        (λ _. rejected_at c)
  unfolding reject ensure_enabled load_for_grantor set_where_uuid mail_grantee
  reject-Writes =
      elim (Option-cases (find_first (is_granted_by id c.user.uuid) d.emergency_access)) [
        | inl e ↦ rw (e, reject) (ground arith)
        | inr (ea, e) ↦ rw (e, reject) (ground arith)
      ]

  pub initiate-Writes :
      Writes
        (find_first (is_granted_to id c.user.uuid) d.emergency_access)
        d.emergency_access
        (initiate c id d).0.emergency_access
        (λ ea. ea.status ≡ confirmed)
        (λ _. initiated_at c)
  unfolding initiate ensure_enabled load_for_grantee set_where_uuid
  initiate-Writes =
      elim (Option-cases (find_first (is_granted_to id c.user.uuid) d.emergency_access)) [
        | inl e ↦ rw (e, initiate) (ground arith)
        | inr (ea, e) ↦ rw (e, initiate) (ground arith)
      ]

  pub confirm-Writes :
      (key : Option String)
      → Writes
          (find_first (is_granted_by id c.user.uuid) d.emergency_access)
          d.emergency_access
          (confirm c id key d).0.emergency_access
          (λ ea. (ea.status ≡ accepted) × (truthy key ≡ true))
          (λ _. confirmed_with c (or_else key ""))
  unfolding confirm ensure_enabled load_for_grantor set_where_uuid mail_grantee
  confirm-Writes key =
      elim (Option-cases (find_first (is_granted_by id c.user.uuid) d.emergency_access)) [
        | inl e ↦ rw (e, confirm) (ground arith)
        | inr (ea, e) ↦ rw (e, confirm) (ground arith)
      ]

  authorize_accept-cases :
      (token : Option String) (ea : EmergencyAccess)
      → ((n : ℕ) × (t : String) × (authorize_accept c id token ea d ≡ (d, err n t)))
        ⊎ ((authorize_accept c id token ea d ≡ (d, ok tt)) × IsInvitee c id token ea)
  unfolding authorize_accept
  authorize_accept-cases token ea = elim (Bool-cases (mailer_enabled c)) [
    | inl m ↦ elim (Bool-cases (truthy token)) [
      | inl t ↦ elim (Bool-cases (check_invitation c id (or_else token ""))) [
        | inl k ↦ inr (rw (m, t, k), inl (m, k))
        | inr k ↦ inl (400, "Invalid invite token", rw (m, t, k))
      ]
      | inr t ↦ inl (400, "Invite token required", rw (m, t))
    ]
    | inr m ↦ elim (Bool-cases (truthy ea.email)) [
      | inl t ↦ elim (Bool-cases (holds ea.email c.user.email)) [
        | inl k ↦ inr (rw (m, t, k), inr (m, inr k))
        | inr k ↦ inl (400, "Invitation does not match", rw (m, t, k))
      ]
      | inr t ↦ inr (rw (m, t), inr (m, inl t))
    ]
  ]

  pub accept-Writes :
      (token : Option String)
      → Writes
          (find_first (λ r. r.uuid == id) d.emergency_access)
          d.emergency_access
          (accept c id token d).0.emergency_access
          (λ ea. (ea.status ≡ invited) × IsInvitee c id token ea)
          (λ _. accepted_by c)
  unfolding accept ensure_enabled set_where_uuid
  accept-Writes token = elim (Option-cases (find_first (λ r. r.uuid == id) d.emergency_access)) [
    | inl e ↦ rw (e, accept) (ground arith)
    | inr (ea, e) ↦ elim (authorize_accept-cases token ea) [
      | inl (n, t, a) ↦ rw (e, accept) (ground arith)
      | inr (a, i) ↦ rw (e, accept) (ground (arith, same ea e))
    ]
  ]
    where
      same :
          (ea : EmergencyAccess)
          → find_first (λ r. r.uuid == id) d.emergency_access ≡ some ea
          → update_where (λ r. r.uuid == ea.uuid) (accepted_by c) d.emergency_access
            ≡ update_where (λ r. r.uuid == id) (accepted_by c) d.emergency_access
      same ea e =
          ap (λ k. update_where (λ r. r.uuid == k) (accepted_by c) d.emergency_access)
            ((eq_iff ea.uuid id).0 (find_first-holds _ d.emergency_access e))

  pub update_ea-Writes :
      (body : UpdateBody)
      → Writes
          (find_first (is_granted_by id c.user.uuid) d.emergency_access)
          d.emergency_access
          (update_ea c id body d).0.emergency_access
          (λ ea. 1 ≤ or_else body.wait_time_days ea.wait_time_days)
          (retimed c body)
  unfolding update_ea ensure_enabled load_for_grantor set_where_uuid
  update_ea-Writes body =
      elim (Option-cases (find_first (is_granted_by id c.user.uuid) d.emergency_access)) [
        | inl e ↦ rw (e, update_ea) (ground arith)
        | inr (ea, e) ↦ rw (e, update_ea) (ground arith)
      ]

  -- The other handlers leave the table as it is.
  pub reinvite-keeps : (reinvite c id d).0.emergency_access ≡ d.emergency_access
  unfolding reinvite ensure_enabled load_for_grantor
  reinvite-keeps = ground arith

  pub show-keeps : (show c id d).0.emergency_access ≡ d.emergency_access
  unfolding show ensure_enabled load_for_grantor
  show-keeps = ground arith

  pub view-keeps : (view c id d).0.emergency_access ≡ d.emergency_access
  unfolding view load_valid ensure_enabled load_for_grantee
  view-keeps = ground arith

  pub takeover-keeps : (takeover c id d).0.emergency_access ≡ d.emergency_access
  unfolding takeover load_valid ensure_enabled load_for_grantee
  takeover-keeps = ground arith

  pub policies-keeps : (policies c id d).0.emergency_access ≡ d.emergency_access
  unfolding policies load_valid ensure_enabled load_for_grantee
  policies-keeps = ground arith

  pub set_password-keeps :
      (salt stamp : String) (body : PasswordBody)
      → (set_password c id salt stamp body d).0.emergency_access ≡ d.emergency_access
  unfolding set_password load_valid ensure_enabled load_for_grantee
  set_password-keeps salt stamp body = ground arith

  pub delete_ea-deletes :
      ((delete_ea c id d).0.emergency_access ≡ d.emergency_access)
      ⊎ ((delete_ea c id d).0.emergency_access
          ≡ delete_where
              (λ r.
                r.uuid == id && (r.grantor_uuid == c.user.uuid || holds r.grantee_uuid c.user.uuid))
              d.emergency_access)
  unfolding delete_ea ensure_enabled
  delete_ea-deletes = ground arith

-- The row that `invite` stores.
module _ (c : Context) (fresh : String) (body : InviteBody) (d : Db) where
  abbrev pub invited_row : EmergencyAccess
  invited_row =
      let email = c.platform.trim_lower (or_else body.email "") in
      let grantee = find_user_by_email c email d in
      let row =
        new_row c fresh email (or_else body.atype EmergencyAccessType.view)
          (or_else body.wait_time_days 7) grantee in
      if mailer_enabled c then row else auto_accept grantee row

  pub invite-writes :
      ((invite c fresh body d).0.emergency_access ≡ d.emergency_access)
      ⊎ ((has_key (λ r. r.uuid) fresh d.emergency_access ≡ false)
          × (1 ≤ or_else body.wait_time_days 7)
          × ((invite c fresh body d).0.emergency_access ≡ invited_row ∷ d.emergency_access))
  unfolding invite ensure_enabled store_invitation insert_row new_row auto_accept
  invite-writes = ground arith

  pub invited_row-has_key :
      has_key (λ r. r.uuid) fresh d.emergency_access ≡ false
      → has_key (λ r. r.uuid) invited_row.uuid d.emergency_access ≡ false
  unfolding new_row auto_accept
  invited_row-has_key h = ground arith
