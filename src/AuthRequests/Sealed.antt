-- ===== src/AuthRequests/Sealed.antt =====
-- The secrets of an auth request: they are there only after its user approved it.
use vaultur.Prelude.{
  ℕ, ◌+◌, ◌<◌, String, Bool, true, false, ◌≡◌, ◌≢◌, refl, ap, ◌∙◌, ◌⊎◌, inl, inr, ◌==◌,
  string_instance, Option, none, some, Option-cases, Bool-cases, arith, eq_iff, List, ◌∷◌, Memᴰ,
  or_else,
}
use vaultur.Shared.DeviceType
use vaultur.Users.{find_user_by_email}
use vaultur.Prelude.Table.{find_first, update_where, find_first-holds, find_first-mem}
use vaultur.Web.{ok}
use vaultur.Db.{AuthRequest, Db, User}
use vaultur.Db.Keys.{has_key}
use vaultur.Context.{Context}
use vaultur.Events.{log_user_event}
use vaultur.AuthRequests.Handlers.{
  CreateBody, AnswerBody, Answer, create, poll, answer, answered, insert_request, is_own,
  is_expired, load_live, new_request, auth_request_json, ttl, is_incomplete,
}

-- The secrets are absent before an approval and after a denial.
abbrev pub IsSealed : AuthRequest → Type 0
IsSealed ar = (ar.approved ≢ some true) → (ar.enc_key ≡ none) × (ar.master_password_hash ≡ none)

abbrev pub Sealed : List AuthRequest → Type 0
Sealed rows = (ar : AuthRequest) → Memᴰ ar rows → IsSealed ar

approved-cases : (o : Option Bool) → (o ≡ some true) ⊎ (o ≢ some true)
approved-cases none = inr (λ e. cc)
approved-cases (some true) = inl refl
approved-cases (some false) = inr (λ e. cc)

-- `answer` writes the row that it loaded, or nothing.
abbrev pub Writes : Context → AnswerBody → Option AuthRequest → Db → List AuthRequest → Type 0
Writes c body none d after = after ≡ d.auth_requests
Writes c body (some ar) d after =
    (after ≡ d.auth_requests)
    ⊎ ((is_expired c ar ≡ false)
        × (ar.approved ≡ none)
        × (after ≡ update_where (λ r. r.uuid == ar.uuid) (answered c body) d.auth_requests))

module _ (c : Context) (d : Db) where
  pub answer-Writes :
      (id : String) (body : AnswerBody)
      → Writes c body
          (find_first (is_own id c.user.uuid) d.auth_requests)
          d
          (answer c id body d).0.auth_requests
  unfolding answer load_live
  answer-Writes id body = elim (Option-cases (find_first (is_own id c.user.uuid) d.auth_requests)) [
    | inl e ↦ rw (e, answer) (ground arith)
    | inr (ar, e) ↦ rw (e, answer) (ground arith)
  ]

  pub new_request-IsSealed :
      (fresh : String) (t : ℕ) (body : CreateBody) (u : User)
      → IsSealed (new_request c fresh t body u)
  unfolding new_request
  new_request-IsSealed fresh t body u h = (refl, refl)

  -- Whether `create` adds its row is decided by its guards; for a user who is found the row is new.
  pub create-writes :
      (fresh event_uuid : String) (header : Option ℕ) (body : CreateBody)
      → ((create c fresh event_uuid header body d).0.auth_requests ≡ d.auth_requests)
        ⊎ ((u : User) × (has_key (λ r. r.uuid) fresh d.auth_requests ≡ false)
            × ((create c fresh event_uuid header body d).0.auth_requests
                ≡ new_request c fresh (or_else header DeviceType.unknown_browser) body u
                  ∷ d.auth_requests))
  unfolding create insert_request log_user_event new_request
  create-writes fresh event_uuid header body =
      elim (Option-cases (find_user_by_email c (or_else body.email "") d)) [
        | inl e ↦ inl (ground arith)
        | inr (u, e) ↦ elim (Bool-cases (has_key (λ r. r.uuid) fresh d.auth_requests)) [
          | inl h ↦ inl (ground arith)
          | inr h ↦ elim (Bool-cases (is_incomplete body)) [
            | inl m ↦ inl (ground arith)
            | inr m ↦ inr (u, h, ground arith)
          ]
        ]
      ]

  poll-ok :
      (id code : String) (e : Db) (a : Answer)
      → poll c id code d ≡ (e, ok a)
      → (ar : AuthRequest) × (find_first (λ r. r.uuid == id) d.auth_requests ≡ some ar)
        × (is_expired c ar ≡ false)
        × ((ar.access_code == code) ≡ true)
        × (e ≡ d)
        × (a ≡ auth_request_json c true ar)
  unfolding poll
  poll-ok id code e a h = elim (Option-cases (find_first (λ r. r.uuid == id) d.auth_requests)) [
    | inl f ↦ absurd (ground (arith, f, rw (f, poll) at h))
    | inr (ar, f) ↦
        let g = rw (f, poll) at h in (ar, f, ground arith, ground arith, ground arith, ground arith)
  ]

  shows :
      (ar : AuthRequest) (a : Answer)
      → IsSealed ar
      → a ≡ auth_request_json c true ar
      → (a.key ≢ none) ⊎ (a.master_password_hash ≢ none)
      → ar.approved ≡ some true
  unfolding auth_request_json
  shows ar a sealed e o = elim (approved-cases ar.approved) [
    | inl y ↦ y
    | inr f ↦
        let (k, m) = sealed f in
        elim o [
          | inl x ↦ absurd (x (ap (λ (t : Answer). t.key) e ∙ k))
          | inr x ↦ absurd (x (ap (λ (t : Answer). t.master_password_hash) e ∙ m))
        ]
  ]

  -- The answer to a poll is a live request under its access code, and shows a secret only of an
  -- approved one.
  pub poll_discloses :
      (id code : String) (e : Db) (a : Answer)
      → Sealed d.auth_requests
      → poll c id code d ≡ (e, ok a)
      → (e ≡ d)
        × ((ar : AuthRequest) × Memᴰ ar d.auth_requests
            × (ar.uuid ≡ id)
            × (ar.access_code ≡ code)
            × (c.now < ar.creation_date + ttl)
            × (a ≡ auth_request_json c true ar)
            × (((a.key ≢ none) ⊎ (a.master_password_hash ≢ none)) → ar.approved ≡ some true))
  unfolding is_expired
  poll_discloses id code e a sealed h =
      let (ar, f, x, k, s, j) = poll-ok id code e a h in
      let m = find_first-mem _ d.auth_requests f in
      (
        s,
        (
          ar,
          m,
          (eq_iff ar.uuid id).0 (find_first-holds _ d.auth_requests f),
          (eq_iff ar.access_code code).0 k,
          ground arith,
          j,
          shows ar a (sealed ar m) j,
        ),
      )
