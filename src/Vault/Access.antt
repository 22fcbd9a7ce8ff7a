-- ===== src/Vault/Access.antt =====
-- services/vault.ts: what a user may do with a cipher, and which ciphers and collections are visible.
use vaultur.Prelude.{
  String, Bool, true, false, not, Option, none, some, ◌==◌, nat_instance, string_instance, ◌&&◌,
  ◌||◌, if◌then◌else◌, holds, is_some, or_else, List, [], ◌∷◌, map,
}
use vaultur.Prelude.Table.{find_many}
use vaultur.Prelude.Dict.{lookup}
use vaultur.Shared.MembershipType
use vaultur.Db.{Db, Cipher, Collection, Membership}
use vaultur.Memberships.{has_full_access, is_at_least}
use vaultur.Vault.Sync.{Grant, CipherSyncData, includes}

abbrev pub full : Grant
full = record { read_only = false; hide_passwords = false; manage = true }

-- The two variables of the loop of `getAccessRestrictions`.
pub record Found : Type 0 where
  pub found : Bool
  pub agg : Grant

abbrev pub nothing : Found
nothing = record {
  found = false;
  agg = record { read_only = true; hide_passwords = true; manage = false };
}

-- The body of the inner loop, over one source.
unfoldable pub add_source : Option Grant → Found → Found
add_source none f = f
add_source (some g) f = record {
  found = true;
  agg = record {
    read_only = f.agg.read_only && g.read_only;
    hide_passwords = f.agg.hide_passwords && g.hide_passwords;
    manage = f.agg.manage || g.manage;
  };
}

-- The outer loop, over the collections of the cipher.
unfoldable pub add_sources : CipherSyncData → List String → Found → Found
add_sources sync [] f = f
add_sources sync (id ∷ ids) f = add_sources sync ids (
    add_source (lookup id sync.user_collections_groups)
      (add_source (lookup id sync.user_collections) f))

-- The access of a member without full access.
unfoldable pub collected : CipherSyncData → String → Option Grant
collected sync cipher_uuid =
    let f = add_sources sync (or_else (lookup cipher_uuid sync.cipher_collections) []) nothing in
    if f.found then some f.agg else none

abbrev member_access : CipherSyncData → String → Option Membership → Option Grant
member_access sync cipher_uuid none = none
member_access sync cipher_uuid (some m) =
    if has_full_access m then some full else collected sync cipher_uuid

-- `getAccessRestrictions`
unfoldable pub get_access_restrictions : Cipher → String → CipherSyncData → Option Grant
get_access_restrictions cipher user_uuid sync =
    if holds cipher.user_uuid user_uuid then some full else elim cipher.organization_uuid [
      | none ↦ none
      | some org ↦
          if org == "" then none else member_access sync cipher.uuid (lookup org sync.members)
    ]

abbrev is_writable : Option Grant → Bool
is_writable none = false
is_writable (some g) = not g.read_only

-- `isWriteAccessible`
unfoldable pub is_write_accessible : Cipher → String → CipherSyncData → Bool
is_write_accessible cipher user_uuid sync =
    is_writable (get_access_restrictions cipher user_uuid sync)

-- `[...sync.members.keys()]`
abbrev pub org_ids : CipherSyncData → List String
org_ids sync = map (λ e. e.0) sync.members

-- The condition of the query of `findCiphersVisibleToUser`.
abbrev pub is_selected : String → CipherSyncData → Cipher → Bool
is_selected user_uuid sync cipher =
    holds cipher.user_uuid user_uuid
    || elim cipher.organization_uuid [ none ↦ false | some o ↦ includes (org_ids sync) o ]

abbrev pub is_shown : String → CipherSyncData → Cipher → Bool
is_shown user_uuid sync cipher =
    if holds cipher.user_uuid user_uuid
    then true
    else is_some (get_access_restrictions cipher user_uuid sync)

-- `findCiphersVisibleToUser`
unfoldable pub find_ciphers_visible_to_user : Db → String → CipherSyncData → List Cipher
find_ciphers_visible_to_user d user_uuid sync =
    find_many (is_shown user_uuid sync) (find_many (is_selected user_uuid sync) d.ciphers)

abbrev collection_shown : CipherSyncData → Collection → Bool
collection_shown sync col = elim (lookup col.org_uuid sync.members) [
  | none ↦ false
  | some m ↦
      has_full_access m
      || is_some (lookup col.uuid sync.user_collections)
      || is_some (lookup col.uuid sync.user_collections_groups)
]

-- `findCollectionsForUser`
unfoldable pub find_collections_for_user : Db → CipherSyncData → List Collection
find_collections_for_user d sync =
    find_many (collection_shown sync)
      (find_many (λ col. includes (org_ids sync) col.org_uuid) d.collections)

abbrev first_of_two : Option Grant → Option Grant → Option Grant
first_of_two none g = g
first_of_two (some f) g = some f

abbrev source_details : Membership → Option Grant → Grant
source_details m none = record { read_only = false; hide_passwords = false; manage = false }
source_details m (some g) = record {
  read_only = g.read_only;
  hide_passwords = g.hide_passwords;
  manage =
      m.atype == MembershipType.manager && (g.manage || (not g.read_only && not g.hide_passwords));
}

-- The three flags of `collectionToJsonDetails`.
unfoldable pub collection_details : Collection → CipherSyncData → Grant
collection_details col sync = elim (lookup col.org_uuid sync.members) [
  | none ↦ record { read_only = true; hide_passwords = true; manage = false }
  | some m ↦
      if has_full_access m
      then record {
        read_only = false;
        hide_passwords = false;
        manage = is_at_least m.atype MembershipType.manager;
      }
      else source_details m (
          first_of_two (lookup col.uuid sync.user_collections)
            (lookup col.uuid sync.user_collections_groups))
]
