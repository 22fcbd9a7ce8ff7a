-- ===== src/Vault/Sync.antt =====
-- services/vault.ts: the data that a sync reads once, `CipherSyncData` and `loadCipherSyncData`.
use vaultur.Prelude.{
  ℕ, String, Bool, true, false, Option, none, some, ◌==◌, string_instance, ◌&&◌, ◌||◌,
  if◌then◌else◌, holds, List, [], ◌∷◌, map,
}
use vaultur.Prelude.Table.{find_many, inner_join, any}
use vaultur.Prelude.Dict.{Dict, lookup, insert, index_by, group_by}
use vaultur.Db.{
  Db, Cipher, Folder, FolderCipher, Attachment, Membership, Collection, CipherCollection,
  UserCollection, CollectionGroup, GroupUser,
}
use vaultur.Memberships.{find_confirmed_memberships}

pub record Grant : Type 0 where
  pub read_only : Bool
  pub hide_passwords : Bool
  pub manage : Bool

pub record CipherSyncData : Type 0 where
  pub cipher_folders : Dict String
  pub cipher_favorites : List String
  pub cipher_archives : Dict ℕ
  pub cipher_attachments : Dict (List Attachment)
  pub cipher_collections : Dict (List String)
  pub members : Dict Membership
  pub user_collections : Dict Grant
  pub user_collections_groups : Dict Grant

pub data SyncType : Type 0 where
  user org : SyncType

abbrev pub is_user_sync : SyncType → Bool
is_user_sync user = true
is_user_sync org = false

abbrev pub includes : List String → String → Bool
includes ids id = any (λ k. k == id) ids

abbrev in_orgs : List String → Cipher → Bool
in_orgs orgs cipher = elim cipher.organization_uuid [ none ↦ false | some o ↦ includes orgs o ]

module _ (d : Db) (user_uuid : String) where
  -- The rows of the three tables that only a user's sync reads.
  abbrev pub folder_rows : List (FolderCipher × Folder)
  folder_rows =
      find_many (λ r. r.1.user_uuid == user_uuid)
        (inner_join (λ fc f. fc.folder_uuid == f.uuid) d.folders_ciphers d.folders)

  abbrev own_attachments : List (Attachment × Cipher)
  own_attachments =
      find_many (λ r. holds r.1.user_uuid user_uuid)
        (inner_join (λ a cipher. a.cipher_uuid == cipher.uuid) d.attachments d.ciphers)

  abbrev org_attachments : List String → List (Attachment × Cipher)
  org_attachments orgs =
      find_many (λ r. in_orgs orgs r.1)
        (inner_join (λ a cipher. a.cipher_uuid == cipher.uuid) d.attachments d.ciphers)

  abbrev pub collection_rows : List String → List (CipherCollection × Collection)
  collection_rows orgs =
      find_many (λ r. includes orgs r.1.org_uuid)
        (inner_join (λ cc col. cc.collection_uuid == col.uuid) d.ciphers_collections d.collections)

  abbrev pub user_rows : List UserCollection
  user_rows = find_many (λ r. r.user_uuid == user_uuid) d.users_collections

abbrev pub group_rows : Db → List String → List (CollectionGroup × GroupUser)
group_rows d members =
    find_many (λ r. includes members r.1.users_organizations_uuid)
      (inner_join (λ cg gu. cg.groups_uuid == gu.groups_uuid) d.collections_groups d.groups_users)

-- One more group row on a collection: the most permissive access of the two.
unfoldable pub merge_grant : Option Grant → CollectionGroup → Grant
merge_grant none r = record {
  read_only = r.read_only;
  hide_passwords = r.hide_passwords;
  manage = r.manage;
}
merge_grant (some g) r = record {
  read_only = g.read_only && r.read_only;
  hide_passwords = g.hide_passwords && r.hide_passwords;
  manage = g.manage || r.manage;
}

-- The loop over the group rows.
unfoldable pub merge_groups : List CollectionGroup → Dict Grant → Dict Grant
merge_groups [] m = m
merge_groups (r ∷ rows) m =
    merge_groups rows (insert r.collections_uuid (merge_grant (lookup r.collections_uuid m) r) m)

abbrev pub grant_of : UserCollection → Grant
grant_of r = record {
  read_only = r.read_only;
  hide_passwords = r.hide_passwords;
  manage = r.manage;
}

abbrev pub when_any {ℓ} : {A : Type ℓ} → List String → A → A → A
when_any [] x d = d
when_any (_ ∷ _) x d = x

-- `loadCipherSyncData`
unfoldable pub load_cipher_sync_data : Db → String → SyncType → Option String → CipherSyncData
load_cipher_sync_data d user_uuid sync_type org_uuid =
    let for_user = is_user_sync sync_type in
    let memberships = find_confirmed_memberships user_uuid d in
    let all = map (λ m. m.org_uuid) memberships in
    let orgs : List String = elim org_uuid [
      | none ↦ all
      | some o ↦ if o == "" then all else o ∷ []
    ] in
    let own : Dict (List Attachment) =
      if for_user
      then group_by (λ r. r.0.cipher_uuid) (λ r. r.0) (own_attachments d user_uuid) []
      else [] in
    record {
      cipher_folders =
          (if for_user
            then index_by (λ r. r.0.cipher_uuid) (λ r. r.0.folder_uuid) (folder_rows d user_uuid) []
            else []);
      cipher_favorites =
          (if for_user
            then map (λ f. f.cipher_uuid) (find_many (λ f. f.user_uuid == user_uuid) d.favorites)
            else []);
      cipher_archives =
          (if for_user
            then index_by (λ a. a.cipher_uuid) (λ a. a.archived_at)
                (find_many (λ a. a.user_uuid == user_uuid) d.archives) []
            else []);
      cipher_attachments =
          when_any orgs
            (group_by (λ r. r.0.cipher_uuid) (λ r. r.0) (org_attachments d user_uuid orgs) own) own;
      cipher_collections =
          when_any orgs
            (group_by (λ r. r.0.cipher_uuid) (λ r. r.0.collection_uuid)
              (collection_rows d user_uuid orgs) [])
            [];
      members = index_by (λ m. m.org_uuid) (λ m. m) memberships [];
      user_collections =
          when_any orgs (index_by (λ r. r.collection_uuid) grant_of (user_rows d user_uuid) []) [];
      user_collections_groups =
          when_any orgs
            (merge_groups (map (λ r. r.0) (group_rows d (map (λ m. m.uuid) memberships))) []) [];
    }
