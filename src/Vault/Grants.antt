-- ===== src/Vault/Grants.antt =====
-- What the loops of services/vault.ts come to: a member has, on a cipher, the most permissive access
-- of all the grants on the collections that hold it, and the group rows merge the same way.
use vaultur.Prelude.{
  String, Bool, true, false, not, Option, none, some, ◌≡◌, refl, ◌↔◌, ◌==◌, string_instance, ◌&&◌,
  ◌||◌, if◌then◌else◌, holds, is_some, or_else, arith, List, [], ◌∷◌, Memᴰ, Bool-cases, inl, inr,
  ◌⊎◌,
}
use vaultur.Prelude.Table.{any, any-mem, mem-any}
use vaultur.Prelude.Dict.{lookup}
use vaultur.Db.{Cipher, Membership}
use vaultur.Memberships.{has_full_access}
use vaultur.Vault.Sync.{Grant, CipherSyncData}
use vaultur.Vault.Access.{Found, add_source, add_sources, collected, get_access_restrictions}

abbrev grants : (Grant → Bool) → Option Grant → Bool
grants p none = false
grants p (some g) = p g

-- A direct or a group grant on the collection meets the condition.
abbrev granted : CipherSyncData → (Grant → Bool) → String → Bool
granted sync p id =
    grants p (lookup id sync.user_collections) || grants p (lookup id sync.user_collections_groups)

abbrev pub anything : Grant → Bool
anything g = true

abbrev pub writes : Grant → Bool
writes g = not g.read_only

abbrev pub shows : Grant → Bool
shows g = not g.hide_passwords

abbrev pub manages : Grant → Bool
manages g = g.manage

abbrev widened : CipherSyncData → List String → Found → Found
widened sync ids f = record {
  found = f.found || any (granted sync anything) ids;
  agg = record {
    read_only = f.agg.read_only && not (any (granted sync writes) ids);
    hide_passwords = f.agg.hide_passwords && not (any (granted sync shows) ids);
    manage = f.agg.manage || any (granted sync manages) ids;
  };
}

add_both :
    (u g : Option Grant) (f : Found)
    → add_source g (add_source u f) ≡ record {
      found = f.found || (grants anything u || grants anything g);
      agg = record {
        read_only = f.agg.read_only && not (grants writes u || grants writes g);
        hide_passwords = f.agg.hide_passwords && not (grants shows u || grants shows g);
        manage = f.agg.manage || (grants manages u || grants manages g);
      };
    }
unfolding add_source
add_both none none f = ground arith
add_both none (some g) f = ground arith
add_both (some u) none f = ground arith
add_both (some u) (some g) f = ground arith

add_sources-widened :
    (sync : CipherSyncData) (ids : List String) (f : Found)
    → add_sources sync ids f ≡ widened sync ids f
unfolding add_sources any
add_sources-widened sync [] f = ground arith
add_sources-widened sync (id ∷ ids) f = rw (add_both, add_sources-widened sync ids _) (ground arith)

-- The grant is one of the user's on the collection: a direct one, or one through groups.
abbrev pub OnCollection : CipherSyncData → String → Grant → Type 0
OnCollection sync id g =
    (lookup id sync.user_collections ≡ some g) ⊎ (lookup id sync.user_collections_groups ≡ some g)

-- Some grant that meets the condition is on one of the collections.
abbrev pub Granted : CipherSyncData → (Grant → Bool) → List String → Type 0
Granted sync p ids =
    (id : String) × (g : Grant) × Memᴰ id ids × OnCollection sync id g × (p g ≡ true)

grants-some :
    (p : Grant → Bool) (o : Option Grant)
    → grants p o ≡ true
    → (g : Grant) × (o ≡ some g) × (p g ≡ true)
grants-some p none h = ground arith
grants-some p (some g) h = (g, refl, h)

any-Granted :
    (sync : CipherSyncData) (p : Grant → Bool) (ids : List String)
    → (any (granted sync p) ids ≡ true) ↔ Granted sync p ids
any-Granted sync p ids = (to, from)
  where
    to : any (granted sync p) ids ≡ true → Granted sync p ids
    to h =
        let (id, m, t) = any-mem (granted sync p) ids h in
        elim (Bool-cases (grants p (lookup id sync.user_collections))) [
          | inl e ↦
              let (g, l, q) = grants-some p (lookup id sync.user_collections) e in
              (id, g, m, inl l, q)
          | inr e ↦
              let (g, l, q) = grants-some p (lookup id sync.user_collections_groups) (rw e at t) in
              (id, g, m, inr l, q)
        ]

    from : Granted sync p ids → any (granted sync p) ids ≡ true
    from (id, g, m, inl l, q) = mem-any (granted sync p) ids m (rw (l, q) (ground arith))
    from (id, g, m, inr l, q) = mem-any (granted sync p) ids m (rw (l, q) (ground arith))

-- A member of the cipher's organization who does not own the cipher and has no full access.
pub record IsPlainMember (cipher : Cipher) (user_uuid : String) (sync : CipherSyncData)
    : Type 0 where
  pub org : String
  pub member : Membership
  pub not_own : holds cipher.user_uuid user_uuid ≡ false
  pub in_org : cipher.organization_uuid ≡ some org
  pub org_given : (org == "") ≡ false
  pub is_member : lookup org sync.members ≡ some member
  pub not_full : has_full_access member ≡ false

abbrev pub ids_of : CipherSyncData → Cipher → List String
ids_of sync cipher = or_else (lookup cipher.uuid sync.cipher_collections) []

abbrev best : CipherSyncData → List String → Grant
best sync ids = record {
  read_only = not (any (granted sync writes) ids);
  hide_passwords = not (any (granted sync shows) ids);
  manage = any (granted sync manages) ids;
}

access-best :
    (cipher : Cipher) (user_uuid : String) (sync : CipherSyncData)
    → IsPlainMember cipher user_uuid sync
    → get_access_restrictions cipher user_uuid sync ≡ (
        if any (granted sync anything) (ids_of sync cipher)
        then some (best sync (ids_of sync cipher))
        else none)
unfolding get_access_restrictions collected
access-best cipher user_uuid sync p =
    rw (p.not_own, p.in_org, p.org_given, p.is_member, p.not_full, add_sources-widened)
      (ground arith)

iff_trans : {A B C : Type 0} → A ↔ B → B ↔ C → A ↔ C
iff_trans (f, g) (h, k) = (λ a. h (f a), λ c. g (k c))

some-if : (b : Bool) (g : Grant) → (is_some (if b then some g else none) ≡ true) ↔ (b ≡ true)
some-if b g = ground arith

from_if : (b : Bool) {g h : Grant} → (if b then some g else none) ≡ some h → h ≡ g
from_if b e = ground arith

not-false : (b : Bool) → (not b ≡ false) ↔ (b ≡ true)
not-false b = ground arith

-- A member without full access has some access to a cipher that is not their own exactly when one of
-- the cipher's collections carries a grant of theirs, direct or through groups.
pub access_iff_Granted :
    (cipher : Cipher) (user_uuid : String) (sync : CipherSyncData)
    → IsPlainMember cipher user_uuid sync
    → (is_some (get_access_restrictions cipher user_uuid sync) ≡ true)
      ↔ Granted sync anything (ids_of sync cipher)
access_iff_Granted cipher user_uuid sync p =
    let ids = ids_of sync cipher in
    rw (access-best cipher user_uuid sync p) (
      iff_trans (some-if (any (granted sync anything) ids) (best sync ids))
        (any-Granted sync anything ids))

-- Each of the three restrictions on a cipher that a member without full access has access to, and
-- that is not their own, is lifted exactly when some grant on the cipher's collections lifts it.
pub most_permissive :
    (cipher : Cipher) (user_uuid : String) (sync : CipherSyncData) (g : Grant)
    → IsPlainMember cipher user_uuid sync
    → get_access_restrictions cipher user_uuid sync ≡ some g
    → ((g.read_only ≡ false) ↔ Granted sync writes (ids_of sync cipher))
      × ((g.hide_passwords ≡ false) ↔ Granted sync shows (ids_of sync cipher))
      × ((g.manage ≡ true) ↔ Granted sync manages (ids_of sync cipher))
most_permissive cipher user_uuid sync g p e =
    let ids = ids_of sync cipher in
    let f =
      from_if (any (granted sync anything) ids) (rw (access-best cipher user_uuid sync p) at e) in
    rw f (
      iff_trans (not-false (any (granted sync writes) ids)) (any-Granted sync writes ids),
      iff_trans (not-false (any (granted sync shows) ids)) (any-Granted sync shows ids),
      any-Granted sync manages ids,
    )
