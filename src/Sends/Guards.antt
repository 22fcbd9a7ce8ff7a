-- ===== src/Sends/Guards.antt =====
-- The guards of the public endpoints.
use vaultur.Prelude.{
  ℕ, ◌<◌, String, true, false, ◌≡◌, ◌⊎◌, inl, inr, nat_instance, string_instance, Option,
  Bool-cases, arith, leb, truthy, or_else,
}
use vaultur.Web.{Result, ok, err}
use vaultur.Db.{Db, Send}
use vaultur.Context.{Context}
use vaultur.Sends.Common.{check_send_password}
use vaultur.Sends.Access.{check_accessible, check_password, is_used_up, is_expired, inaccessible}

-- A guard that passes leaves the state as it is, and one that refuses too.
abbrev pub Guards : Db × Result (Unit {0}) → Db → Type 0 → Type 0
Guards r d P = ((n : ℕ) × (t : String) × (r ≡ (d, err n t))) ⊎ ((r ≡ (d, ok tt)) × P)

-- What `checkAccessible` lets through.
abbrev pub IsAccessible : Context → Send → Type 0
IsAccessible c s =
    (is_used_up s ≡ false)
    × (is_expired c.now s.expiration_date ≡ false)
    × (c.now < s.deletion_date)
    × (s.disabled ≡ false)

pub check_accessible-Guards :
    (c : Context) (s : Send) (d : Db) → Guards (check_accessible c s d) d (IsAccessible c s)
unfolding check_accessible
check_accessible-Guards c s d = elim (Bool-cases (is_used_up s)) [
  | inl u ↦ inl (404, inaccessible, rw u)
  | inr u ↦ elim (Bool-cases (is_expired c.now s.expiration_date)) [
    | inl e ↦ inl (404, inaccessible, rw (u, e))
    | inr e ↦ elim (Bool-cases (leb s.deletion_date c.now)) [
      | inl l ↦ inl (404, inaccessible, rw (u, e, l))
      | inr l ↦ elim (Bool-cases s.disabled) [
        | inl b ↦ inl (404, inaccessible, ground arith)
        | inr b ↦ inr (ground arith, (u, e, ground arith, b))
      ]
    ]
  ]
]

-- What `check_password` lets through: a Send without a password, or the password that hashes to it.
abbrev pub HasPassword : Context → Send → Option String → Type 0
HasPassword c s password =
    (truthy s.password_hash ≡ false)
    ⊎ ((truthy password ≡ true) × (check_send_password c s (or_else password "") ≡ true))

pub check_password-Guards :
    (c : Context) (s : Send) (password : Option String) (message : String) (d : Db)
    → Guards (check_password c s password message d) d (HasPassword c s password)
unfolding check_password
check_password-Guards c s password message d = elim (Bool-cases (truthy s.password_hash)) [
  | inr h ↦ inr (rw h, inl h)
  | inl h ↦ elim (Bool-cases (truthy password)) [
    | inr p ↦ inl (401, "Password not provided", rw (h, p))
    | inl p ↦ elim (Bool-cases (check_send_password c s (or_else password ""))) [
      | inr k ↦ inl (400, message, rw (h, p, k))
      | inl k ↦ inr (rw (h, p, k), inr (p, k))
    ]
  ]
]
