-- ===== src/Vault/Visible.antt =====
-- The query of `findCiphersVisibleToUser` against the access that it filters by, and what that
-- access comes from in the tables.
use vaultur.Prelude.{
  String, true, some, ◌≡◌, refl, ◌↔◌, ◌==◌, string_instance, holds, is_some, arith, [], ◌∷◌, map,
  Memᴰ, Bool-cases, Option-cases, inl, inr,
}
use vaultur.Prelude.Table.{any, mem-find_many, find_many-mem, find_many}
use vaultur.Prelude.Dict.{Dict, lookup}
use vaultur.Db.{Db, Cipher, Membership}
use vaultur.Vault.Sync.{CipherSyncData, includes}
use vaultur.Vault.Access.{
  get_access_restrictions, find_ciphers_visible_to_user, is_selected, is_shown,
}

lookup-includes :
    (o : String) (m : Dict Membership) {x : Membership}
    → lookup o m ≡ some x
    → includes (map (λ e. e.0) m) o ≡ true
unfolding lookup any
lookup-includes o [] h = ground arith
lookup-includes o ((j, w) ∷ m) h = elim (Bool-cases (j == o)) [
  | inl e ↦ rw e refl
  | inr e ↦ rw e (lookup-includes o m (rw e at h))
]

-- Whoever has access to a cipher passes the condition of the query.
shown-selected :
    (user_uuid : String) (sync : CipherSyncData) (c : Cipher)
    → is_some (get_access_restrictions c user_uuid sync) ≡ true
    → is_selected user_uuid sync c ≡ true
unfolding get_access_restrictions
shown-selected user_uuid sync c h = elim (Bool-cases (holds c.user_uuid user_uuid)) [
  | inl own ↦ rw own refl
  | inr other ↦ elim (Option-cases c.organization_uuid) [
    | inl e ↦ ground arith
    | inr (o, e) ↦ elim (Option-cases (lookup o sync.members)) [
      | inl f ↦ ground arith
      | inr (m, f) ↦ rw (other, e) (lookup-includes o sync.members f)
    ]
  ]
]

is_shown-access :
    (user_uuid : String) (sync : CipherSyncData) (c : Cipher)
    → is_shown user_uuid sync c ≡ is_some (get_access_restrictions c user_uuid sync)
unfolding get_access_restrictions
is_shown-access user_uuid sync c = ground arith

-- The query shows exactly the ciphers that the user has some access to: its condition, which is
-- cheaper than the access, loses none of them.
pub visible_iff :
    (d : Db) (user_uuid : String) (sync : CipherSyncData) (c : Cipher)
    → Memᴰ c (find_ciphers_visible_to_user d user_uuid sync)
      ↔ (Memᴰ c d.ciphers × (is_some (get_access_restrictions c user_uuid sync) ≡ true))
unfolding find_ciphers_visible_to_user
visible_iff d user_uuid sync c = (
  λ m.
      let (n, s) =
        mem-find_many (is_shown user_uuid sync) (find_many (is_selected user_uuid sync) d.ciphers)
          m in
      let (k, t) = mem-find_many (is_selected user_uuid sync) d.ciphers n in
      (k, rw (is_shown-access user_uuid sync c) at s),
  λ (m, s).
      find_many-mem (is_shown user_uuid sync) (find_many (is_selected user_uuid sync) d.ciphers)
        (find_many-mem (is_selected user_uuid sync) d.ciphers m (shown-selected user_uuid sync c s))
        (rw (is_shown-access user_uuid sync c) s),
)
