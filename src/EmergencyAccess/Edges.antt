-- ===== src/EmergencyAccess/Edges.antt =====
-- The state machine of emergency access: who moves a row from which status to which.
use vaultur.Prelude.{
  eq-some_of_holds, ◌==◌, Bool-cases, String, Bool, true, ◌≡◌, refl, sym, ap, subst, ◌∙◌, ◌⊎◌, inl,
  inr, ◌≤◌, string_instance, Option, none, some, eq_iff, List, Memᴰ, and-true, or_else, truthy,
}
use vaultur.Prelude.Table.{
  find_first, find_first-holds, find_first-mem, mem-update_where, mem-update_where_kept,
  mem-update_where_hit,
}
use vaultur.Shared.{invited, accepted, confirmed, recovery_initiated, recovery_approved}
use vaultur.Db.{EmergencyAccess}
use vaultur.Db.Keys.{UniqueBy, same_of_key}
use vaultur.Context.{Context}
use vaultur.EmergencyAccess.Common.{is_granted_by, is_granted_to}
use vaultur.EmergencyAccess.Invitation.{accepted_by, confirmed_with, UpdateBody}
use vaultur.EmergencyAccess.Recovery.{initiated_at, approved_at, rejected_at}
use vaultur.EmergencyAccess.Routes.{Request}
use vaultur.EmergencyAccess.Cases.{Writes, IsInvitee, retimed}

-- What the request `r` of the user of `c` may make of a row.
pub data Edge (c : Context) (r : Request) (x y : EmergencyAccess) : Type 0 where
  keep : y ≡ x → Edge c r x y
  retime :
      (body : UpdateBody)
      → r ≡ Request.update x.uuid body
      → x.grantor_uuid ≡ c.user.uuid
      → 1 ≤ or_else body.wait_time_days x.wait_time_days
      → y ≡ retimed c body x x
      → Edge c r x y
  accept :
      (token : Option String)
      → r ≡ Request.accept x.uuid token
      → x.status ≡ invited
      → IsInvitee c x.uuid token x
      → y ≡ accepted_by c x
      → Edge c r x y
  confirm :
      (key : Option String)
      → r ≡ Request.confirm x.uuid key
      → x.grantor_uuid ≡ c.user.uuid
      → (x.status ≡ accepted) × (truthy key ≡ true)
      → y ≡ confirmed_with c (or_else key "") x
      → Edge c r x y
  initiate :
      r ≡ Request.initiate x.uuid
      → x.grantee_uuid ≡ some c.user.uuid
      → x.status ≡ confirmed
      → y ≡ initiated_at c x
      → Edge c r x y
  approve :
      r ≡ Request.approve x.uuid
      → x.grantor_uuid ≡ c.user.uuid
      → x.status ≡ recovery_initiated
      → y ≡ approved_at c x
      → Edge c r x y
  reject :
      r ≡ Request.reject x.uuid
      → x.grantor_uuid ≡ c.user.uuid
      → (x.status ≡ recovery_initiated) ⊎ (x.status ≡ recovery_approved)
      → y ≡ rejected_at c x
      → Edge c r x y

pub granted_by :
    (id user : String) (x : EmergencyAccess)
    → is_granted_by id user x ≡ true
    → (x.uuid ≡ id) × (x.grantor_uuid ≡ user)
granted_by id user x h =
    let (p, q) = and-true _ _ h in ((eq_iff x.uuid id).0 p, (eq_iff x.grantor_uuid user).0 q)

pub granted_to :
    (id user : String) (x : EmergencyAccess)
    → is_granted_to id user x ≡ true
    → (x.uuid ≡ id) × (x.grantee_uuid ≡ some user)
granted_to id user x h =
    let (p, q) = and-true _ _ h in ((eq_iff x.uuid id).0 p, eq-some_of_holds x.grantee_uuid user q)

-- A row after a write is an old row, or the one that was found, rewritten.
module _ (q : EmergencyAccess → Bool) (G : EmergencyAccess → Type 0)
    (f : EmergencyAccess → EmergencyAccess → EmergencyAccess) (before after : List EmergencyAccess)
    (unique : UniqueBy (λ r. r.uuid) before) where
  abbrev Traced : EmergencyAccess → Type 0
  Traced y = (x : EmergencyAccess) × Memᴰ x before × ((y ≡ x) ⊎ ((q x ≡ true) × G x × (y ≡ f x x)))

  kept : {y : EmergencyAccess} → after ≡ before → Memᴰ y after → Traced y
  kept {y} e m = (y, subst (Memᴰ y) e m, inl refl)

  pub Writes-Traced :
      (o : Option EmergencyAccess)
      → find_first q before ≡ o
      → Writes o before after G f
      → {y : EmergencyAccess} → Memᴰ y after
      → Traced y
  Writes-Traced none e w m = kept w m
  Writes-Traced (some ea) e (inl w) m = kept w m
  Writes-Traced (some ea) e (inr (g, w)) {y} m =
      let (x, n, o) = mem-update_where _ (f ea) before (subst (Memᴰ y) w m) in
      elim o [
        | inl (p, s) ↦ (x, n, inl s)
        | inr (p, s) ↦
            let same : ea ≡ x =
              same_of_key (λ r. r.uuid) before unique (find_first-mem q before e) n
                (sym ((eq_iff x.uuid ea.uuid).0 p)) in
            (
              x,
              n,
              inr (
                subst (λ z. q z ≡ true) same (find_first-holds q before e),
                subst G same g,
                s ∙ ap (λ z. f z x) same,
              ),
            )
      ]

  -- An old row stands after a write, or stands there rewritten.
  abbrev Stays : EmergencyAccess → Type 0
  Stays x = Memᴰ x after ⊎ ((q x ≡ true) × G x × Memᴰ (f x x) after)

  pub Writes-Stays :
      (o : Option EmergencyAccess)
      → find_first q before ≡ o
      → Writes o before after G f
      → {x : EmergencyAccess} → Memᴰ x before
      → Stays x
  Writes-Stays none e w {x} m = inl (subst (Memᴰ x) (sym w) m)
  Writes-Stays (some ea) e (inl w) {x} m = inl (subst (Memᴰ x) (sym w) m)
  Writes-Stays (some ea) e (inr (g, w)) {x} m = elim (Bool-cases (x.uuid == ea.uuid)) [
    | inr k ↦ inl (subst (Memᴰ x) (sym w) (mem-update_where_kept _ (f ea) before k m))
    | inl k ↦
        let same : ea ≡ x =
          same_of_key (λ r. r.uuid) before unique (find_first-mem q before e) m
            (sym ((eq_iff x.uuid ea.uuid).0 k)) in
        inr (
          subst (λ z. q z ≡ true) same (find_first-holds q before e),
          subst G same g,
          subst (λ z. Memᴰ (f z x) after) same
              (subst (Memᴰ (f ea x)) (sym w) (mem-update_where_hit _ (f ea) before k m)),
        )
  ]
