-- ===== src/AuthRequests/Once.antt =====
-- Whole histories of auth requests.
use vaultur.Prelude.{
  ◌+◌, ◌<◌, true, String, ◌≡◌, ◌≢◌, sym, subst, ◌⊎◌, inl, inr, Option, none, some, List, [], ◌∷◌,
  Memᴰ, or_else, false,
}
use vaultur.Shared.DeviceType
use vaultur.Web.{ok}
use vaultur.Db.{AuthRequest, Db}
use vaultur.Db.Keys.{update_where-UniqueBy, cons-UniqueBy, has_key}
use vaultur.Context.{Context}
use vaultur.AuthRequests.Handlers.{AnswerBody, Answer, answered, new_request, poll, ttl}
use vaultur.AuthRequests.Sealed.{Sealed, Writes, answer-Writes, create-writes, poll_discloses}
use vaultur.AuthRequests.Final.{
  Request, create, list, show, answer, handle, run, Unique, poll-keeps, show-keeps, list-keeps,
  new_request-uuid, answered-uuid, handle-Fate, run-Sealed,
}

module _ (c : Context) (d : Db) (unique : Unique d.auth_requests) where
  written :
      (body : AnswerBody) (o : Option AuthRequest) (after : List AuthRequest)
      → Writes c body o d after
      → Unique after
  written body none after w = subst Unique (sym w) unique
  written body (some ar) after (inl w) = subst Unique (sym w) unique
  written body (some ar) after (inr (_, _, w)) =
      subst Unique (sym w)
        (update_where-UniqueBy _ _ (answered c body) d.auth_requests (answered-uuid c body) unique)

  handle-Unique : (r : Request) → Unique (handle c r d).auth_requests
  unfolding handle
  handle-Unique (create fresh event_uuid header body) =
      elim (create-writes c d fresh event_uuid header body) [
        | inl w ↦ subst Unique (sym w) unique
        | inr (u, h, w) ↦
            let t = or_else header DeviceType.unknown_browser in
            subst Unique (sym w) (
              cons-UniqueBy _ (new_request c fresh t body u) d.auth_requests
                (subst (λ k. has_key (λ (r : AuthRequest). r.uuid) k d.auth_requests ≡ false)
                  (sym (new_request-uuid c d fresh t body u)) h)
                unique)
      ]
  handle-Unique (Request.poll id code) = subst Unique (sym (poll-keeps c d id code)) unique
  handle-Unique list = subst Unique (sym (list-keeps c d)) unique
  handle-Unique (show id) = subst Unique (sym (show-keeps c d id)) unique
  handle-Unique (answer id body) = written body _ _ (answer-Writes c d id body)

-- An answer is final: whatever is requested afterwards, from a table with one row to a uuid, a request
-- that was approved or denied stays in the table as it was answered.
pub answered_is_final :
    (h : List (Context × Request)) (d : Db) (y : AuthRequest)
    → Unique d.auth_requests
    → y.approved ≢ none
    → Memᴰ y d.auth_requests
    → Memᴰ y (run h d).auth_requests
unfolding run
answered_is_final [] d y u a m = m
answered_is_final ((c, r) ∷ h) d y u a m = elim (handle-Fate c d r u y m) [
  | inl n ↦ answered_is_final h (handle c r d) y (handle-Unique c d u r) a n
  | inr (_, _, _, open_still, _, _) ↦ absurd (a open_still)
]

-- After any history of requests, from a table whose rows hold secrets only if they are approved, a
-- poll that succeeds and shows a key or a password hash shows them of a row that was approved, under
-- its access code and within its 15 minutes.
pub secrets_need_approval :
    (h : List (Context × Request)) (d e : Db) (c : Context) (id code : String) (a : Answer)
    → Sealed d.auth_requests
    → poll c id code (run h d) ≡ (e, ok a)
    → ((a.key ≢ none) ⊎ (a.master_password_hash ≢ none))
    → (ar : AuthRequest) × Memᴰ ar (run h d).auth_requests
      × (ar.uuid ≡ id)
      × (ar.access_code ≡ code)
      × (c.now < ar.creation_date + ttl)
      × (ar.approved ≡ some true)
secrets_need_approval h d e c id code a s p shown =
    let (_, found) = poll_discloses c (run h d) id code e a (run-Sealed h d s) p in
    let (ar, m, named, coded, live, _, approved) = found in
    (ar, m, named, coded, live, approved shown)
