-- ===== src/AuthRequests/Final.antt =====
-- Auth requests under any sequence of requests: secrets stay sealed, and an answer is final.
use vaultur.Prelude.{
  ℕ, String, Bool, true, false, ◌≡◌, refl, sym, ap, subst, ◌⊎◌, inl, inr, ◌==◌, string_instance,
  Option, none, some, Bool-cases, arith, eq_iff, List, [], ◌∷◌, Memᴰ, and-true, or_else,
}
use vaultur.Prelude.Table.{
  find_first, update_where, find_first-holds, find_first-mem, mem-update_where,
  mem-update_where_kept,
}
use vaultur.Shared.DeviceType
use vaultur.Db.{AuthRequest, Db, User}
use vaultur.Db.Keys.{UniqueBy, same_of_key}
use vaultur.Context.{Context}
use vaultur.AuthRequests.Handlers
use vaultur.AuthRequests.Handlers.{
  CreateBody, AnswerBody, answered, is_own, is_expired, new_request, load_live, ttl,
}
use vaultur.AuthRequests.Sealed.{
  IsSealed, Sealed, Writes, answer-Writes, create-writes, new_request-IsSealed,
}

pub data Request : Type 0 where
  create : String → String → Option ℕ → CreateBody → Request
  poll : String → String → Request
  list : Request
  show : String → Request
  answer : String → AnswerBody → Request

-- The state after a request, whatever it answered.
unfoldable pub handle : Context → Request → Db → Db
handle c (create fresh event_uuid header body) d =
    (Handlers.create c fresh event_uuid header body d).0
handle c (poll id code) d = (Handlers.poll c id code d).0
handle c list d = (Handlers.list_auth_requests c d).0
handle c (show id) d = (Handlers.show c id d).0
handle c (answer id body) d = (Handlers.answer c id body d).0

unfoldable pub run : List (Context × Request) → Db → Db
run [] d = d
run ((c, r) ∷ h) d = run h (handle c r d)

abbrev pub Unique : List AuthRequest → Type 0
Unique = UniqueBy λ r. r.uuid

answered-IsSealed :
    (c : Context) (body : AnswerBody) (ar : AuthRequest) → IsSealed (answered c body ar)
unfolding answered
answered-IsSealed c body ar h = ground arith

pub answered-uuid :
    (c : Context) (body : AnswerBody) (ar : AuthRequest) → (answered c body ar).uuid ≡ ar.uuid
unfolding answered
answered-uuid c body ar = refl

module _ (c : Context) (d : Db) where
  pub poll-keeps : (id code : String) → (handle c (poll id code) d).auth_requests ≡ d.auth_requests
  unfolding handle Handlers.poll
  poll-keeps id code = ground arith

  pub show-keeps : (id : String) → (handle c (show id) d).auth_requests ≡ d.auth_requests
  unfolding handle Handlers.show load_live
  show-keeps id = ground arith

  pub list-keeps : (handle c list d).auth_requests ≡ d.auth_requests
  unfolding handle Handlers.list_auth_requests
  list-keeps = refl

  Sealed-write :
      (body : AnswerBody) (o : Option AuthRequest) (after : List AuthRequest)
      → Sealed d.auth_requests
      → Writes c body o d after
      → Sealed after
  Sealed-write body none after s w = subst Sealed (sym w) s
  Sealed-write body (some ar) after s (inl w) = subst Sealed (sym w) s
  Sealed-write body (some ar) after s (inr (_, _, w)) = λ y m.
      let (x, n, o) = mem-update_where _ (answered c body) d.auth_requests (subst (Memᴰ y) w m) in
      elim o [
        | inl (_, e) ↦ subst IsSealed (sym e) (s x n)
        | inr (_, e) ↦ subst IsSealed (sym e) (answered-IsSealed c body x)
      ]

  Sealed-cons :
      (ar : AuthRequest) → IsSealed ar → Sealed d.auth_requests → Sealed (ar ∷ d.auth_requests)
  Sealed-cons ar h s y (Memᴰ.head e) = subst IsSealed (sym e) h
  Sealed-cons ar h s y (Memᴰ.tail m) = s y m

  handle-Sealed : (r : Request) → Sealed d.auth_requests → Sealed (handle c r d).auth_requests
  unfolding handle
  handle-Sealed (create fresh event_uuid header body) s =
      elim (create-writes c d fresh event_uuid header body) [
        | inl w ↦ subst Sealed (sym w) s
        | inr (u, _, w) ↦ subst Sealed (sym w) (
            Sealed-cons _
              (new_request-IsSealed c d fresh (or_else header DeviceType.unknown_browser) body u) s)
      ]
  handle-Sealed (poll id code) s = subst Sealed (sym (poll-keeps id code)) s
  handle-Sealed list s = subst Sealed (sym list-keeps) s
  handle-Sealed (show id) s = subst Sealed (sym (show-keeps id)) s
  handle-Sealed (answer id body) s = Sealed-write body _ _ s (answer-Writes c d id body)

  pub new_request-uuid :
      (fresh : String) (t : ℕ) (body : CreateBody) (u : User)
      → (new_request c fresh t body u).uuid ≡ fresh
  unfolding new_request
  new_request-uuid fresh t body u = refl

  -- What a request does to one row: nothing, or its user answers it, while it is live and open.
  abbrev pub Fate : Request → AuthRequest → List AuthRequest → Type 0
  Fate r y after =
      Memᴰ y after
      ⊎ ((body : AnswerBody) × (r ≡ answer y.uuid body)
          × (y.user_uuid ≡ c.user.uuid)
          × (y.approved ≡ none)
          × (is_expired c y ≡ false)
          × Memᴰ (answered c body y) after)

  mem-updated :
      (p : AuthRequest → Bool) (f : AuthRequest → AuthRequest) (rows : List AuthRequest)
      (y : AuthRequest)
      → p y ≡ true
      → Memᴰ y rows
      → Memᴰ (f y) (update_where p f rows)
  unfolding update_where
  mem-updated p f [] y h m = elim m [ ]
  mem-updated p f (x ∷ rows) y h (Memᴰ.head e) = Memᴰ.head (rw (← e, h))
  mem-updated p f (x ∷ rows) y h (Memᴰ.tail m) = Memᴰ.tail (mem-updated p f rows y h m)

  answer-Fate :
      Unique d.auth_requests
      → (id : String) (body : AnswerBody) (o : Option AuthRequest) (after : List AuthRequest)
      → find_first (is_own id c.user.uuid) d.auth_requests ≡ o
      → Writes c body o d after
      → (y : AuthRequest) → Memᴰ y d.auth_requests
      → Fate (answer id body) y after
  answer-Fate u id body none after f w y m = inl (subst (Memᴰ y) (sym w) m)
  answer-Fate u id body (some ar) after f (inl w) y m = inl (subst (Memᴰ y) (sym w) m)
  answer-Fate u id body (some ar) after f (inr (live, fresh, w)) y m =
      elim (Bool-cases (y.uuid == ar.uuid)) [
        | inr h ↦
            inl (
              subst (Memᴰ y) (sym w)
                (mem-update_where_kept _ (answered c body) d.auth_requests h m))
        | inl h ↦
            let same : ar ≡ y =
              same_of_key (λ r. r.uuid) d.auth_requests u (find_first-mem _ d.auth_requests f) m
                (sym ((eq_iff y.uuid ar.uuid).0 h)) in
            let (named, own) = and-true _ _ (
              subst (λ r. is_own id c.user.uuid r ≡ true) same
                (find_first-holds _ d.auth_requests f)) in
            inr (
              body,
              ap (λ k. Request.answer k body) (sym ((eq_iff y.uuid id).0 named)),
              (eq_iff y.user_uuid c.user.uuid).0 own,
              subst (λ r. r.approved ≡ none) same fresh,
              subst (λ r. is_expired c r ≡ false) same live,
              subst (Memᴰ (answered c body y)) (sym w)
                  (mem-updated _ (answered c body) d.auth_requests y h m),
            )
      ]

  -- In a table with one row to a uuid, no request removes an auth request, and only an answer changes
  -- one: by its own user, within its 15 minutes, and if it was not answered before.
  pub handle-Fate :
      (r : Request)
      → Unique d.auth_requests
      → (y : AuthRequest) → Memᴰ y d.auth_requests
      → Fate r y (handle c r d).auth_requests
  unfolding handle
  handle-Fate (create fresh event_uuid header body) u y m =
      elim (create-writes c d fresh event_uuid header body) [
        | inl w ↦ inl (subst (Memᴰ y) (sym w) m)
        | inr (x, _, w) ↦ inl (subst (Memᴰ y) (sym w) (Memᴰ.tail m))
      ]
  handle-Fate (poll id code) u y m = inl (subst (Memᴰ y) (sym (poll-keeps id code)) m)
  handle-Fate list u y m = inl (subst (Memᴰ y) (sym list-keeps) m)
  handle-Fate (show id) u y m = inl (subst (Memᴰ y) (sym (show-keeps id)) m)
  handle-Fate (answer id body) u y m =
      answer-Fate u id body _ _ refl (answer-Writes c d id body) y m

pub run-Sealed :
    (h : List (Context × Request)) (d : Db)
    → Sealed d.auth_requests
    → Sealed (run h d).auth_requests
unfolding run
run-Sealed [] d s = s
run-Sealed ((c, r) ∷ h) d s = run-Sealed h (handle c r d) (handle-Sealed c d r s)
