-- ===== src/Sends/Owner.antt =====
-- api/sends.ts: the endpoints of an owner and the Sends of other users.
use vaultur.Prelude.{
  ◌≢◌, eq-some_of_holds, ℕ, String, true, false, ◌≡◌, refl, ◌⊎◌, inl, inr, ◌==◌, string_instance,
  Option, none, some, arith, Bool-cases, Option-cases, List, ap, ◌&&◌, not, is_some, nat_instance,
  holds, and-true, eq_iff, sym, subst, Memᴰ,
}
use vaultur.Prelude.Table.{
  find_first, update_where, delete_where, find_first-holds, find_first-mem, mem-update_where_kept,
  mem-delete_where_kept,
}
use vaultur.Db.Keys.{UniqueBy, same_of_key}
use vaultur.Web.{err, Result-cases}
use vaultur.Shared.SendType
use vaultur.Db.{Db, Send}
use vaultur.Context.{Context}
use vaultur.Users.{touch_user}
use vaultur.Sends.Common.{
  SendBody, SendData, with_password, enforce_disable_send_policy, disable_send_applies, only_delete,
  store_send, check_deletion, read_expiration, parse_send_data,
}
use vaultur.Sends.Manage.{
  load_own_send, is_own, upload, update, remove_password, delete, show, updated_send,
}

updated_send-uuid :
    (c : Context) (salt : String) (parsed : SendData) (s : Send) (t : ℕ) (o : Option ℕ)
    → (updated_send c salt parsed s t o).uuid ≡ s.uuid
unfolding updated_send with_password
updated_send-uuid c salt parsed s t o = ground arith

module _ (c : Context) (id : String) (d : Db)
    (foreign : find_first (is_own id c.user.uuid) d.sends ≡ none) where
  load_own_send-foreign : load_own_send c id d ≡ (d, err 404 "Send not found")
  unfolding load_own_send
  load_own_send-foreign = rw (foreign, load_own_send)

module _ (c : Context) (id : String) (d : Db)
    (foreign : (s : Send) → Memᴰ s d.sends → s.uuid ≡ id → s.user_uuid ≢ some c.user.uuid) where
  none_own : find_first (is_own id c.user.uuid) d.sends ≡ none
  none_own = elim (Option-cases (find_first (is_own id c.user.uuid) d.sends)) [
    | inl e ↦ e
    | inr (s, e) ↦
        let (named, own) = and-true _ _ (find_first-holds _ d.sends e) in
        absurd (
          foreign s (find_first-mem _ d.sends e) ((eq_iff s.uuid id).0 named)
            (eq-some_of_holds s.user_uuid c.user.uuid own))
  ]

  load_own_send-refuses : load_own_send c id d ≡ (d, err 404 "Send not found")
  load_own_send-refuses = load_own_send-foreign c id d none_own

  -- Where no Send of a uuid is the user's, the user can neither read, upload to, change nor delete one
  -- under it: each of the endpoints refuses, with a 404 unless the policy against Sends comes first, and
  -- changes nothing.
  pub foreign_send :
      (salt file_id : String) (body : SendBody) (file : Option ℕ)
      → (show c id d ≡ (d, err 404 "Send not found"))
        × (upload c id file_id file d ≡ (d, err 404 "Send not found"))
        × (remove_password c id d ≡ (d, err 404 "Send not found"))
        × (delete c id d ≡ (d, err 404 "Send not found"))
        × ((update c id salt body d ≡ (d, err 404 "Send not found"))
            ⊎ ((disable_send_applies c d ≡ true)
                × (update c id salt body d ≡ (d, err 400 only_delete))))
  unfolding show upload remove_password delete update enforce_disable_send_policy
  foreign_send salt file_id body file = (
    load_own_send-refuses,
    rw (load_own_send-refuses, upload),
    rw (load_own_send-refuses, remove_password),
    rw (load_own_send-refuses, delete),
    elim (Bool-cases (disable_send_applies c d)) [
      | inl a ↦ inr (a, rw (a, update))
      | inr a ↦ inl (rw (a, load_own_send-refuses, update))
    ],
  )

module _ (c : Context) (d : Db) (unique : UniqueBy (λ s. s.uuid) d.sends) where
  -- The Send that an owner loads is not another user's.
  not_loaded :
      (id : String) (s y : Send)
      → find_first (is_own id c.user.uuid) d.sends ≡ some s
      → Memᴰ y d.sends
      → holds y.user_uuid c.user.uuid ≡ false
      → (y.uuid == s.uuid) ≡ false
  not_loaded id s y f m other = elim (Bool-cases (y.uuid == s.uuid)) [
    | inr h ↦ h
    | inl h ↦
        let same : s ≡ y =
          same_of_key (λ r. r.uuid) d.sends unique (find_first-mem _ d.sends f) m
            (sym ((eq_iff y.uuid s.uuid).0 h)) in
        let own : holds s.user_uuid c.user.uuid ≡ true =
          (and-true _ _ (find_first-holds _ d.sends f)).1 in
        absurd (cc (subst (λ r. holds r.user_uuid c.user.uuid ≡ true) same own))
  ]

  -- A Send of another user stands unchanged after any change, upload or deletion.
  abbrev KeepsOthers : List Send → Type 0
  KeepsOthers after =
      (y : Send) → Memᴰ y d.sends → holds y.user_uuid c.user.uuid ≡ false → Memᴰ y after

  same_sends : (after : List Send) → after ≡ d.sends → KeepsOthers after
  same_sends after w y m h = subst (Memᴰ y) (sym w) m

  -- One write of the Send that was loaded, or none.
  abbrev Writes : Option Send → List Send → Type 0
  Writes none after = after ≡ d.sends
  Writes (some s) after =
      (after ≡ d.sends)
      ⊎ ((f : Send → Send) × (after ≡ update_where (λ r. r.uuid == s.uuid) f d.sends))
      ⊎ (after ≡ delete_where (λ r. r.uuid == s.uuid) d.sends)

  kept :
      (id : String) (e : List Send) (o : Option Send)
      → find_first (is_own id c.user.uuid) d.sends ≡ o
      → Writes o e
      → KeepsOthers e
  kept id e none f w = same_sends e w
  kept id e (some s) f (inl w) = same_sends e w
  kept id e (some s) f (inr (inl (g, w))) = λ y m h.
      subst (Memᴰ y) (sym w) (mem-update_where_kept _ g d.sends (not_loaded id s y f m h) m)
  kept id e (some s) f (inr (inr w)) =
      λ y m h. subst (Memᴰ y) (sym w) (mem-delete_where_kept _ d.sends (not_loaded id s y f m h) m)

  upload-keeps :
      (id file_id : String) (file : Option ℕ) → (upload c id file_id file d).0.sends ≡ d.sends
  unfolding upload load_own_send touch_user
  upload-keeps id file_id file = elim (Option-cases (find_first (is_own id c.user.uuid) d.sends)) [
    | inl e ↦ rw (e, upload) (ground arith)
    | inr (s, e) ↦ rw (e, upload) (ground arith)
  ]

  remove_password-Writes :
      (id : String)
      → Writes (find_first (is_own id c.user.uuid) d.sends) (remove_password c id d).0.sends
  unfolding remove_password load_own_send store_send
  remove_password-Writes id = elim (Option-cases (find_first (is_own id c.user.uuid) d.sends)) [
    | inl e ↦ rw (e, remove_password)
    | inr (s, e) ↦ rw (e, remove_password) (inr (inl (_, refl)))
  ]

  delete-Writes :
      (id : String) → Writes (find_first (is_own id c.user.uuid) d.sends) (delete c id d).0.sends
  unfolding delete load_own_send touch_user
  delete-Writes id = elim (Option-cases (find_first (is_own id c.user.uuid) d.sends)) [
    | inl e ↦ rw (e, delete)
    | inr (s, e) ↦ rw (e, delete) (inr (inr (ground arith)))
  ]

  updated :
      (id salt : String) (body : SendBody) (s : Send)
      → find_first (is_own id c.user.uuid) d.sends ≡ some s
      → disable_send_applies c d ≡ false
      → Writes (some s) (update c id salt body d).0.sends
  unfolding update load_own_send touch_user store_send enforce_disable_send_policy
  updated id salt body s e a =
      let parsed = parse_send_data body in
      elim (Bool-cases (parsed.atype == s.atype)) [
        | inr k ↦ inl (rw (a, e, k, update))
        | inl k ↦ elim (Bool-cases (s.atype == SendType.text && not (is_some parsed.text))) [
          | inl x ↦ inl (rw (a, e, k, x, update))
          | inr x ↦ elim (Result-cases (check_deletion c parsed.deletion_date)) [
            | inl (n, t, p) ↦ inl (rw (a, e, k, x, p, update))
            | inr (t, p) ↦ elim (Result-cases (read_expiration parsed.expiration_date)) [
              | inl (n, m, q) ↦ inl (rw (a, e, k, x, p, q, update))
              | inr (o, q) ↦
                  let changed = updated_send c salt parsed s t o in
                  inr (
                    inl (
                      (λ _. changed),
                      rw (a, e, k, x, p, q, update)
                          (ap (λ u. update_where (λ r. r.uuid == u) (λ _. changed) d.sends)
                            (updated_send-uuid c salt parsed s t o)),
                    ))
            ]
          ]
        ]
      ]

  -- What `update` stores where its guards pass; where one refuses, nothing is stored.
  update-Writes :
      (id salt : String) (body : SendBody)
      → Writes (find_first (is_own id c.user.uuid) d.sends) (update c id salt body d).0.sends
  unfolding update load_own_send enforce_disable_send_policy
  update-Writes id salt body = elim (Option-cases (find_first (is_own id c.user.uuid) d.sends)) [
    | inl e ↦ rw e (ground (arith, load_own_send-foreign c id d e))
    | inr (s, e) ↦ elim (Bool-cases (disable_send_applies c d)) [
      | inl a ↦ rw e (inl (rw (a, update)))
      | inr a ↦ rw e (updated id salt body s e a)
    ]
  ]

  -- In a table with one row to a uuid, whatever a user requests of the endpoints that upload to, change
  -- or delete a Send, the Sends of other users stay as they are.
  pub others_kept :
      (id salt file_id : String) (body : SendBody) (file : Option ℕ) (y : Send)
      → Memᴰ y d.sends
      → holds y.user_uuid c.user.uuid ≡ false
      → Memᴰ y (upload c id file_id file d).0.sends
        × Memᴰ y (update c id salt body d).0.sends
        × Memᴰ y (remove_password c id d).0.sends
        × Memᴰ y (delete c id d).0.sends
  others_kept id salt file_id body file y m h = (
    same_sends _ (upload-keeps id file_id file) y m h,
    kept id _ _ refl (update-Writes id salt body) y m h,
    kept id _ _ refl (remove_password-Writes id) y m h,
    kept id _ _ refl (delete-Writes id) y m h,
  )
