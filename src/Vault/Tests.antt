-- ===== src/Vault/Tests.antt =====
-- A login of an organization, in one collection that Bob's group may write and that Bob's own row
-- shows without passwords.
use vaultur.Prelude.{true, false, none, some, ◌≡◌, ◌↔◌, refl, [], ◌∷◌, Memᴰ, is_some}
use vaultur.Prelude.Table.{find_many, inner_join, matches, any}
use vaultur.Prelude.Dict.{lookup, insert, index_by, group_by, push}
use vaultur.Shared.MembershipStatus
use vaultur.Db.{Db, empty_db, Cipher, Membership}
use vaultur.Memberships.{has_full_access, find_confirmed_memberships}
use vaultur.Fixtures.{alice, bob}
use vaultur.Vault.Sync.{
  Grant, SyncType, CipherSyncData, load_cipher_sync_data, merge_groups, merge_grant,
}
use vaultur.Vault.Access.{
  get_access_restrictions, is_write_accessible, find_ciphers_visible_to_user, collected, add_source,
  add_sources,
}
use vaultur.Vault.Grants.{
  Granted, ids_of, anything, writes, shows, manages, IsPlainMember, access_iff_Granted,
  most_permissive,
}
use vaultur.Vault.Visible.{visible_iff}
use vaultur.Vault.Writers.{MayWrite, write_needs_right}

abbrev login : Cipher
login = record {
  uuid = "c";
  updated_at = 0;
  user_uuid = none;
  organization_uuid = some "o";
  atype = 1;
  name = "login";
  deleted_at = none;
}

abbrev bobs_membership : Membership
bobs_membership = record {
  uuid = "m";
  user_uuid = "b";
  org_uuid = "o";
  access_all = false;
  akey = "key";
  status = MembershipStatus.confirmed;
  atype = 2;
  invited_by_email = none;
  reset_password_key = none;
  external_id = none;
}

abbrev db : Db
db = record empty_db {
  users = alice ∷ bob ∷ [];
  ciphers = login ∷ [];
  users_organizations = bobs_membership ∷ [];
  collections =
      record { uuid = "col"; org_uuid = "o"; name = "collection"; external_id = none } ∷ [];
  ciphers_collections = record { cipher_uuid = "c"; collection_uuid = "col" } ∷ [];
  users_collections =
      record {
        user_uuid = "b";
        collection_uuid = "col";
        read_only = true;
        hide_passwords = false;
        manage = false;
      }
      ∷ [];
  collections_groups =
      record {
        collections_uuid = "col";
        groups_uuid = "g";
        read_only = false;
        hide_passwords = true;
        manage = false;
      }
      ∷ [];
  groups_users = record { groups_uuid = "g"; users_organizations_uuid = "m" } ∷ [];
}

abbrev sync : CipherSyncData
sync = load_cipher_sync_data db "b" SyncType.user none

abbrev merged : Grant
merged = record { read_only = false; hide_passwords = false; manage = false }

bob_access : get_access_restrictions login "b" sync ≡ some merged
unfolding get_access_restrictions load_cipher_sync_data collected add_source add_sources
    merge_groups merge_grant find_many inner_join matches any lookup insert index_by group_by push
    has_full_access find_confirmed_memberships
bob_access = refl

bob_writes : is_write_accessible login "b" sync ≡ true
unfolding is_write_accessible
bob_writes = rw bob_access refl

bob-IsPlainMember : IsPlainMember login "b" sync
unfolding load_cipher_sync_data find_many inner_join matches any lookup insert index_by
    has_full_access find_confirmed_memberships
bob-IsPlainMember = record {
  org = "o";
  member = bobs_membership;
  not_own = refl;
  in_org = refl;
  org_given = refl;
  is_member = refl;
  not_full = refl;
}

write_needs_right_example : MayWrite db "b" login
write_needs_right_example = write_needs_right db "b" SyncType.user none login bob_writes

most_permissive_example :
    ((merged.read_only ≡ false) ↔ Granted sync writes (ids_of sync login))
    × ((merged.hide_passwords ≡ false) ↔ Granted sync shows (ids_of sync login))
    × ((merged.manage ≡ true) ↔ Granted sync manages (ids_of sync login))
most_permissive_example = most_permissive login "b" sync merged bob-IsPlainMember bob_access

access_iff_Granted_example :
    (is_some (get_access_restrictions login "b" sync) ≡ true)
    ↔ Granted sync anything (ids_of sync login)
access_iff_Granted_example = access_iff_Granted login "b" sync bob-IsPlainMember

visible_iff_example :
    Memᴰ login (find_ciphers_visible_to_user db "b" sync)
    ↔ (Memᴰ login db.ciphers × (is_some (get_access_restrictions login "b" sync) ≡ true))
visible_iff_example = visible_iff db "b" sync login
