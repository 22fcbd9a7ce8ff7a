-- ===== src/Sends/New.antt =====
-- What a Send is that its owner has just created.
use vaultur.Prelude.{
  ℕ, ◌+◌, ◌≤◌, String, true, false, ◌≡◌, refl, ◌⊎◌, inl, inr, ◌==◌, string_instance, nat_instance,
  Option, none, some, arith, truthy, or_else, Bool-cases, eq_iff,
}
use vaultur.Web.{ok, Result-cases}
use vaultur.Db.{Send, SendContent}
use vaultur.Context.{Context}
use vaultur.Sends.Common.{
  SendData, DateText, missing, malformed, instant, check_deletion, read_expiration, max_lifetime,
  with_password, hash_send_password, check_send_password, new_send_from_data, is_missing,
}

-- What every new Send has, before its content is set.
pub record IsNewSend (c : Context) (parsed : SendData) (s : Send) : Type 0 where
  pub own : s.user_uuid ≡ some c.user.uuid
  pub lifetime : s.deletion_date ≤ c.now + max_lifetime
  pub unused : s.access_count ≡ 0
  pub limit : s.max_access_count ≡ parsed.max_access_count
  pub locked :
      ((truthy parsed.password ≡ false) × (s.password_hash ≡ none))
      ⊎ (check_send_password c s (or_else parsed.password "") ≡ true)

check_deletion-le :
    (c : Context) (t : DateText) (n : ℕ) → check_deletion c t ≡ ok n → n ≤ c.now + max_lifetime
unfolding check_deletion
check_deletion-le c missing n h = ground arith
check_deletion-le c malformed n h = ground arith
check_deletion-le c (instant t) n h = ground arith

-- The row of `newSendFromData` before the password.
abbrev base_of : Context → String → SendData → ℕ → Option ℕ → Send
base_of c fresh parsed deletion expiration = record {
  uuid = fresh;
  user_uuid = some c.user.uuid;
  name = parsed.name;
  notes = parsed.notes;
  atype = parsed.atype;
  content = SendContent.empty;
  akey = parsed.key;
  password_hash = none;
  password_salt = none;
  password_iter = none;
  max_access_count = parsed.max_access_count;
  access_count = 0;
  creation_date = c.now;
  revision_date = c.now;
  expiration_date = expiration;
  deletion_date = deletion;
  disabled = parsed.disabled;
  hide_email = parsed.hide_email;
}

module _ (c : Context) (salt : String)
    (digests : (p s : String) (n : ℕ) → (c.platform.pbkdf2 p s n == "") ≡ false)
    (salted : (salt == "") ≡ false) where
  -- The password that was set is the one that the check accepts.
  check-with_password :
      (password : Option String) (s : Send)
      → truthy password ≡ true
      → check_send_password c (with_password c salt password s) (or_else password "") ≡ true
  unfolding check_send_password with_password hash_send_password
  check-with_password password s h = rw (h, digests, salted) ((eq_iff _ _).1 refl)

  -- The Send that the payload makes, before its password is set.
  made :
      (fresh : String) (parsed : SendData) (s : Send)
      → new_send_from_data c fresh salt parsed ≡ ok s
      → (base : Send) × (s ≡ with_password c salt parsed.password base)
        × (base.user_uuid ≡ some c.user.uuid)
        × (check_deletion c parsed.deletion_date ≡ ok base.deletion_date)
        × (base.access_count ≡ 0)
        × (base.max_access_count ≡ parsed.max_access_count)
        × (base.password_hash ≡ none)
  unfolding new_send_from_data
  made fresh parsed s h = elim (Result-cases (check_deletion c parsed.deletion_date)) [
    | inl (n, t, e) ↦ let u = rw e at h in ground arith
    | inr (t, e) ↦ elim (Result-cases (read_expiration parsed.expiration_date)) [
      | inl (n, m, f) ↦ let u = rw (e, f) at h in ground arith
      | inr (o, f) ↦ elim (Bool-cases (parsed.key == "")) [
        | inl k ↦ ground arith
        | inr k ↦ elim (Bool-cases (is_missing parsed.deletion_date)) [
          | inl m ↦ let u = rw (k, m) at h in ground arith
          | inr m ↦
              let u = rw (k, m, e, f) at h in
              (base_of c fresh parsed t o, ground arith, refl, e, refl, refl, refl)
        ]
      ]
    ]
  ]

  locked-with_password :
      (password : Option String) (base : Send) (content : SendContent)
      → base.password_hash ≡ none
      → ((truthy password ≡ false)
          × ((record (with_password c salt password base) { content = content }).password_hash
              ≡ none))
        ⊎ (check_send_password c
              (record (with_password c salt password base) { content = content })
              (or_else password "")
            ≡ true)
  unfolding check_send_password with_password
  locked-with_password password base content h = elim (Bool-cases (truthy password)) [
    | inl t ↦ inr (check-with_password password base t)
    | inr t ↦ inl (t, rw t h)
  ]

  -- A Send that is made of a payload, whatever its content will be: it is the user's, unused, under
  -- the limit that was asked for, and gone within 31 days; it has no password if none was given, and
  -- else the password that was given is accepted. This holds where digests and salts are not empty.
  pub new_send_from_data-IsNewSend :
      (fresh : String) (parsed : SendData) (s : Send)
      → new_send_from_data c fresh salt parsed ≡ ok s
      → (content : SendContent) → IsNewSend c parsed (record s { content = content })
  unfolding with_password
  new_send_from_data-IsNewSend fresh parsed s h content =
      let (base, e, own, kept, unused, limit, no_hash) = made fresh parsed s h in
      rw e (record {
        own = ground arith;
        lifetime = ground (arith, check_deletion-le c parsed.deletion_date base.deletion_date kept);
        unused = ground arith;
        limit = ground arith;
        locked = locked-with_password parsed.password base content no_hash;
      })
