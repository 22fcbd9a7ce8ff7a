-- ===== src/EmergencyAccess/Steps.antt =====
-- The table of emergency access before and after a request, row by row.
use vaultur.Prelude.{
  eq-some_of_holds, String, Bool, true, false, ◌≡◌, ◌≢◌, refl, sym, ap, subst, ◌∙◌, ◌⊎◌, inl, inr,
  string_instance, none, some, arith, eq_iff, List, ◌∷◌, Memᴰ, or_else, ◌≤◌, holds, and-true,
  Bool-cases, ◌==◌, ◌&&◌, ◌||◌,
}
use vaultur.Prelude.Table.{find_first, mem-delete_where, mem-delete_where_kept, All, All-of_mem}
use vaultur.Shared.{invited, accepted}
use vaultur.Db.{EmergencyAccess, Db}
use vaultur.Db.Keys.{UniqueBy, has_key, not-has_key}
use vaultur.Context.{Context}
use vaultur.EmergencyAccess.Invitation.{InviteBody, new_row, auto_accept}
use vaultur.EmergencyAccess.Invitation
use vaultur.EmergencyAccess.Listing
use vaultur.EmergencyAccess.Routes.{Request, handle}
use vaultur.EmergencyAccess.Routes
use vaultur.EmergencyAccess.Cases
use vaultur.EmergencyAccess.Cases.{invited_row}
use vaultur.EmergencyAccess.Edges.{Edge, Writes-Traced, Writes-Stays, granted_by, granted_to}

-- A row that the invite request `r` added under a uuid that no row had: the invitation of its user, never
-- beyond `accepted`.
pub record IsInvitation (c : Context) (r : Request) (before : List EmergencyAccess)
    (y : EmergencyAccess) : Type 0 where
  pub body : InviteBody
  pub request : r ≡ Request.invite y.uuid body
  pub new : All (λ x. x.uuid ≢ y.uuid) before
  pub grantor : y.grantor_uuid ≡ c.user.uuid
  pub key : y.key_encrypted ≡ none
  pub wait : (y.wait_time_days ≡ or_else body.wait_time_days 7) × (1 ≤ y.wait_time_days)
  pub status : (y.status ≡ invited) ⊎ (y.status ≡ accepted)

-- Where a row of the table after a request comes from.
abbrev pub Explained : Context → Request → List EmergencyAccess → EmergencyAccess → Type 0
Explained c r before y =
    ((x : EmergencyAccess) × Memᴰ x before × Edge c r x y) ⊎ IsInvitation c r before y

-- What becomes of a row of the table before a request: it stands in the table after it, moved along an
-- edge, or one of its two parties has deleted it.
abbrev pub Survives : Context → Request → List EmergencyAccess → EmergencyAccess → Type 0
Survives c r after x =
    ((y : EmergencyAccess) × Memᴰ y after × Edge c r x y)
    ⊎ ((r ≡ Request.delete x.uuid)
        × ((x.grantor_uuid ≡ c.user.uuid) ⊎ (x.grantee_uuid ≡ some c.user.uuid)))

module _ (c : Context) (d : Db) (unique : UniqueBy (λ r. r.uuid) d.emergency_access) where
  abbrev pub Explains : Request → List EmergencyAccess → Type 0
  Explains r after =
      ((y : EmergencyAccess) → Memᴰ y after → Explained c r d.emergency_access y)
      × ((x : EmergencyAccess) → Memᴰ x d.emergency_access → Survives c r after x)

  kept :
      (r : Request) (after : List EmergencyAccess) → after ≡ d.emergency_access → Explains r after
  kept r after e = (
    (λ y m. inl (y, subst (Memᴰ y) e m, Edge.keep refl)),
    λ x m. inl (x, subst (Memᴰ x) (sym e) m, Edge.keep refl),
  )

  -- A write of a row whose edge is at hand.
  along :
      (r : Request) (q : EmergencyAccess → Bool) (G : EmergencyAccess → Type 0)
      (f : EmergencyAccess → EmergencyAccess → EmergencyAccess) (after : List EmergencyAccess)
      → Cases.Writes (find_first q d.emergency_access) d.emergency_access after G f
      → ((x : EmergencyAccess) → q x ≡ true → G x → Edge c r x (f x x))
      → Explains r after
  along r q G f after w edge = (
    (λ y m.
        let (x, n, o) = Writes-Traced q G f d.emergency_access after unique _ refl w m in
        elim o [
          | inl e ↦ inl (x, n, Edge.keep e)
          | inr (p, g, e) ↦ inl (x, n, subst (Edge c r x) (sym e) (edge x p g))
        ]),
    λ x m. elim (Writes-Stays q G f d.emergency_access after unique _ refl w m) [
      | inl n ↦ inl (x, n, Edge.keep refl)
      | inr (p, g, n) ↦ inl (f x x, n, edge x p g)
    ],
  )

  invited_row-uuid :
      (fresh : String) (body : InviteBody) → (invited_row c fresh body d).uuid ≡ fresh
  unfolding new_row auto_accept
  invited_row-uuid fresh body = ground arith

  invited_row-IsInvitation :
      (fresh : String) (body : InviteBody)
      → has_key (λ r. r.uuid) fresh d.emergency_access ≡ false
      → 1 ≤ or_else body.wait_time_days 7
      → IsInvitation c (Routes.invite fresh body) d.emergency_access (invited_row c fresh body d)
  unfolding new_row auto_accept
  invited_row-IsInvitation fresh body k h = record {
    body = body;
    request = ap (λ u. Routes.invite u body) (sym (invited_row-uuid fresh body));
    new = All-of_mem _ d.emergency_access λ x m e.
        not-has_key (λ r. r.uuid) fresh d.emergency_access k x m (e ∙ invited_row-uuid fresh body);
    grantor = ground arith;
    key = ground arith;
    wait = (ground arith, ground arith);
    status = ground arith;
  }

  invite-Explains :
      (fresh : String) (body : InviteBody)
      → Explains (Routes.invite fresh body) (handle c (Routes.invite fresh body) d).emergency_access
  unfolding handle
  invite-Explains fresh body = elim (Cases.invite-writes c fresh body d) [
    | inl e ↦ kept _ _ e
    | inr (k, h, e) ↦ (
      (λ y m. added k h y (subst (Memᴰ y) e m)),
      λ x m. inl (x, subst (Memᴰ x) (sym e) (Memᴰ.tail m), Edge.keep refl),
    )
  ]
    where
      added :
          has_key (λ r. r.uuid) fresh d.emergency_access ≡ false
          → 1 ≤ or_else body.wait_time_days 7
          → (y : EmergencyAccess) → Memᴰ y (invited_row c fresh body d ∷ d.emergency_access)
          → Explained c (Routes.invite fresh body) d.emergency_access y
      added k h y (Memᴰ.head e) = inr (
          subst (IsInvitation c (Routes.invite fresh body) d.emergency_access) (sym e)
            (invited_row-IsInvitation fresh body k h))
      added k h y (Memᴰ.tail n) = inl (y, n, Edge.keep refl)

  abbrev is_party : String → EmergencyAccess → Bool
  is_party id r =
      r.uuid == id && (r.grantor_uuid == c.user.uuid || holds r.grantee_uuid c.user.uuid)

  deleted :
      (id : String) (x : EmergencyAccess)
      → is_party id x ≡ true
      → (x.uuid ≡ id) × ((x.grantor_uuid ≡ c.user.uuid) ⊎ (x.grantee_uuid ≡ some c.user.uuid))
  deleted id x h =
      let (p, q) = and-true _ _ h in
      (
        (eq_iff x.uuid id).0 p,
        elim (Bool-cases (x.grantor_uuid == c.user.uuid)) [
          | inl g ↦ inl ((eq_iff x.grantor_uuid c.user.uuid).0 g)
          | inr g ↦ inr (eq-some_of_holds x.grantee_uuid c.user.uuid (ground (arith, q, g)))
        ],
      )

  delete_ea-Explains :
      (id : String) → Explains (Request.delete id) (Invitation.delete_ea c id d).0.emergency_access
  delete_ea-Explains id = elim (Cases.delete_ea-deletes c id d) [
    | inl e ↦ kept _ _ e
    | inr e ↦ (
      (λ y m. inl (y, (mem-delete_where _ _ (subst (Memᴰ y) e m)).0, Edge.keep refl)),
      λ x m. elim (Bool-cases (is_party id x)) [
        | inr k ↦ inl (
          x,
          subst (Memᴰ x) (sym e) (mem-delete_where_kept _ d.emergency_access k m),
          Edge.keep refl,
        )
        | inl k ↦ let (p, o) = deleted id x k in inr (ap Request.delete (sym p), o)
      ],
    )
  ]

  -- All the requests.
  pub handle-Explains : (r : Request) → Explains r (handle c r d).emergency_access
  unfolding handle
  handle-Explains Request.trusted = kept _ _ (Listing.trusted-keeps c d)
  handle-Explains Request.granted = kept _ _ (Listing.granted-keeps c d)
  handle-Explains (Request.invite fresh body) = invite-Explains fresh body
  handle-Explains (Request.show id) = kept _ _ (Cases.show-keeps c id d)
  handle-Explains (Request.update id body) =
      along _ _ _ _ _ (Cases.update_ea-Writes c id d body) λ x p g.
        let (e, o) = granted_by id c.user.uuid x p in
        Edge.retime body (ap (λ k. Request.update k body) (sym e)) o g refl
  handle-Explains (Request.delete id) = delete_ea-Explains id
  handle-Explains (Request.reinvite id) = kept _ _ (Cases.reinvite-keeps c id d)
  handle-Explains (Request.accept id token) =
      along _ _ _ _ _ (Cases.accept-Writes c id d token) λ x p g.
        let same : id ≡ x.uuid = sym ((eq_iff x.uuid id).0 p) in
        Edge.accept token (ap (λ k. Request.accept k token) same) g.0
          (subst (λ k. Cases.IsInvitee c k token x) same g.1) refl
  handle-Explains (Request.confirm id key) =
      along _ _ _ _ _ (Cases.confirm-Writes c id d key) λ x p g.
        let (e, o) = granted_by id c.user.uuid x p in
        Edge.confirm key (ap (λ k. Request.confirm k key) (sym e)) o g refl
  handle-Explains (Request.initiate id) = along _ _ _ _ _ (Cases.initiate-Writes c id d) λ x p g.
      let (e, o) = granted_to id c.user.uuid x p in
      Edge.initiate (ap Request.initiate (sym e)) o g refl
  handle-Explains (Request.approve id) = along _ _ _ _ _ (Cases.approve-Writes c id d) λ x p g.
      let (e, o) = granted_by id c.user.uuid x p in
      Edge.approve (ap Request.approve (sym e)) o g refl
  handle-Explains (Request.reject id) = along _ _ _ _ _ (Cases.reject-Writes c id d) λ x p g.
      let (e, o) = granted_by id c.user.uuid x p in Edge.reject (ap Request.reject (sym e)) o g refl
  handle-Explains (Request.view id) = kept _ _ (Cases.view-keeps c id d)
  handle-Explains (Request.takeover id) = kept _ _ (Cases.takeover-keeps c id d)
  handle-Explains (Request.policies id) = kept _ _ (Cases.policies-keeps c id d)
  handle-Explains (Request.password id salt stamp body) =
      kept _ _ (Cases.set_password-keeps c id d salt stamp body)

-- Whatever a request is and answers, from a table with one row to a uuid: each row after it is an old row
-- moved along an edge of the state machine by a user whom the edge admits, or the row that an invite
-- request of the user added under a uuid that no row had; and each row before it stands after it moved
-- along such an edge, unless the request deletes it and its user is its grantor or its grantee.
pub every_row-Explained :
    (c : Context) (d : Db) (r : Request)
    → UniqueBy (λ x. x.uuid) d.emergency_access
    → All (Explained c r d.emergency_access) (handle c r d).emergency_access
      × All (Survives c r (handle c r d).emergency_access) d.emergency_access
every_row-Explained c d r unique =
    let (come, go) = handle-Explains c d unique r in (All-of_mem _ _ come, All-of_mem _ _ go)
