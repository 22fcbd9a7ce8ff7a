-- ===== src/Vault/Writers.antt =====
-- Whoever may write a cipher has a row of the tables that says so, through `loadCipherSyncData`.
use vaultur.Prelude.{
  String, Bool, true, false, Option, none, some, ◌≡◌, refl, ap, ◌∙◌, ◌==◌, string_instance, ◌&&◌,
  holds, or_else, arith, List, [], ◌∷◌, map, Memᴰ, Bool-cases, Option-cases, inl, inr, ◌⊎◌,
  and-true,
}
use vaultur.Prelude.Table.{any-mem, mem-find_many, inner_join}
use vaultur.Prelude.Dict.{Dict, lookup, index_by, group_by}
use vaultur.Prelude.Int.{int_instance}
use vaultur.Shared.MembershipStatus
use vaultur.Db.{
  Db, Cipher, Collection, Membership, CollectionGroup, UserCollection, GroupUser, CipherCollection,
}
use vaultur.Memberships.{has_full_access, find_confirmed_memberships}
use vaultur.Vault.Sync.{
  Grant, SyncType, CipherSyncData, includes, merge_groups, load_cipher_sync_data, when_any,
  user_rows, group_rows, grant_of, collection_rows,
}
use vaultur.Vault.Access.{get_access_restrictions, is_write_accessible}
use vaultur.Vault.Grants.{IsPlainMember, Granted, most_permissive, ids_of, writes}
use vaultur.Vault.Tables.{
  to_path, lookup-index_by, lookup-group_by, mem-inner_join, mem-map, merged-writes,
}

-- A confirmed membership of the user.
pub record IsMember (d : Db) (user_uuid : String) (m : Membership) : Type 0 where
  pub stored : Memᴰ m d.users_organizations
  pub own : m.user_uuid ≡ user_uuid
  pub confirmed : m.status ≡ MembershipStatus.confirmed

-- The user's own row on the collection, not read-only.
pub record UserWrites (d : Db) (user_uuid : String) (collection : String) : Type 0 where
  pub row : UserCollection
  pub stored : Memᴰ row d.users_collections
  pub own : row.user_uuid ≡ user_uuid
  pub on : row.collection_uuid ≡ collection
  pub may_write : row.read_only ≡ false

-- A row on the collection, not read-only, of a group that one of the user's memberships is in.
pub record GroupWrites (d : Db) (user_uuid : String) (collection : String) : Type 0 where
  pub row : CollectionGroup
  pub entry : GroupUser
  pub member : Membership
  pub stored : Memᴰ row d.collections_groups
  pub entered : Memᴰ entry d.groups_users
  pub is_member : IsMember d user_uuid member
  pub of_member : member.uuid ≡ entry.users_organizations_uuid
  pub of_group : row.groups_uuid ≡ entry.groups_uuid
  pub on : row.collections_uuid ≡ collection
  pub may_write : row.read_only ≡ false

-- The cipher is in the collection.
pub record InCollection (d : Db) (cipher : Cipher) (collection : String) : Type 0 where
  pub row : CipherCollection
  pub stored : Memᴰ row d.ciphers_collections
  pub of_cipher : row.cipher_uuid ≡ cipher.uuid
  pub on : row.collection_uuid ≡ collection

lookup-when_any :
    {V : Type 0} (orgs : List String) (m : Dict V) (k : String) {v : V}
    → lookup k (when_any orgs m []) ≡ some v
    → lookup k m ≡ some v
unfolding lookup
lookup-when_any [] m k h = ground arith
lookup-when_any (o ∷ orgs) m k h = h

mem-when_any :
    {V : Type 0} (orgs : List String) (m : Dict (List V)) (k : String) {v : V}
    → Memᴰ v (or_else (lookup k (when_any orgs m [])) [])
    → Memᴰ v (or_else (lookup k m) [])
unfolding lookup
mem-when_any [] m k h = elim h [ ]
mem-when_any (o ∷ orgs) m k h = h

module _ (d : Db) (user_uuid : String) where
  confirmed-IsMember :
      (m : Membership) → Memᴰ m (find_confirmed_memberships user_uuid d) → IsMember d user_uuid m
  unfolding find_confirmed_memberships
  confirmed-IsMember m h =
      let (n, e) =
        mem-find_many (λ m. m.user_uuid == user_uuid && m.status == MembershipStatus.confirmed)
          d.users_organizations h in
      let (a, b) = and-true (m.user_uuid == user_uuid) (m.status == MembershipStatus.confirmed) e in
      record {
        stored = n;
        own = to_path m.user_uuid user_uuid a;
        confirmed = (int_instance.equal_iff m.status MembershipStatus.confirmed).0 b;
      }

  user_collections-row :
      (col : String) (g : Grant)
      → lookup col (index_by (λ r. r.collection_uuid) grant_of (user_rows d user_uuid) []) ≡ some g
      → g.read_only ≡ false
      → UserWrites d user_uuid col
  unfolding lookup
  user_collections-row col g h w =
      elim (lookup-index_by (λ (r : UserCollection). r.collection_uuid) grant_of
        (user_rows d user_uuid) [] col h) [
          | inr e ↦ ground arith
          | inl (r, m, k, v) ↦
              let (n, e) =
                mem-find_many (λ (r : UserCollection). r.user_uuid == user_uuid) d.users_collections
                  m in
              record {
                row = r;
                stored = n;
                own = to_path r.user_uuid user_uuid e;
                on = k;
                may_write = ap (λ (g : Grant). g.read_only) v ∙ w;
              }
        ]

  groups-row :
      (col : String) (g : Grant)
      → lookup col (
          merge_groups
            (map
              (λ r. r.0)
              (group_rows d (map (λ m. m.uuid) (find_confirmed_memberships user_uuid d))))
            [])
        ≡ some g
      → g.read_only ≡ false
      → GroupWrites d user_uuid col
  unfolding lookup
  groups-row col g h w = elim (merged-writes (map (λ r. r.0) rows) [] col h w) [
    | inr (j, e, v) ↦ ground arith
    | inl (r, m, on, v) ↦
        let (p, n, e) = mem-map (λ (x : CollectionGroup × GroupUser). x.0) rows m in
        let (k, q) = mem-find_many of_members joined n in
        let (a, b, t) = mem-inner_join same_group d.collections_groups d.groups_users k in
        let (u, x, y) = any-mem (λ z. z == p.1.users_organizations_uuid) uuids q in
        let (z, o, f) =
          mem-map (λ (z : Membership). z.uuid) (find_confirmed_memberships user_uuid d) x in
        record {
          row = p.0;
          entry = p.1;
          member = z;
          stored = a;
          entered = b;
          is_member = confirmed-IsMember z o;
          of_member = f ∙ to_path u p.1.users_organizations_uuid y;
          of_group = to_path p.0.groups_uuid p.1.groups_uuid t;
          on = ap (λ (g : CollectionGroup). g.collections_uuid) e ∙ on;
          may_write = ap (λ (g : CollectionGroup). g.read_only) e ∙ v;
        }
  ]
    where
      uuids : List String
      uuids = map (λ m. m.uuid) (find_confirmed_memberships user_uuid d)

      rows : List (CollectionGroup × GroupUser)
      rows = group_rows d uuids

      same_group : CollectionGroup → GroupUser → Bool
      same_group cg gu = cg.groups_uuid == gu.groups_uuid

      joined : List (CollectionGroup × GroupUser)
      joined = inner_join same_group d.collections_groups d.groups_users

      of_members : CollectionGroup × GroupUser → Bool
      of_members r = includes uuids r.1.users_organizations_uuid

  collections-row :
      (orgs : List String) (cipher : Cipher) (col : String)
      → Memᴰ col (
          or_else
            (lookup cipher.uuid (
              group_by
                (λ r. r.0.cipher_uuid)
                (λ r. r.0.collection_uuid)
                (collection_rows d user_uuid orgs)
                []))
            [])
      → InCollection d cipher col
  unfolding lookup
  collections-row orgs cipher col h =
      elim (lookup-group_by (λ (r : CipherCollection × Collection). r.0.cipher_uuid)
        (λ r. r.0.collection_uuid) (collection_rows d user_uuid orgs) [] cipher.uuid h) [
          | inr m ↦ elim m [ ]
          | inl (r, m, k, v) ↦
              let (n, e) =
                mem-find_many (λ (r : CipherCollection × Collection). includes orgs r.1.org_uuid)
                  (inner_join (λ cc col. cc.collection_uuid == col.uuid) d.ciphers_collections
                    d.collections)
                  m in
              let (a, b, t) =
                mem-inner_join
                  (λ (cc : CipherCollection) (col : Collection). cc.collection_uuid == col.uuid)
                  d.ciphers_collections d.collections n in
              record { row = r.0; stored = a; of_cipher = k; on = v }
        ]

  members-row :
      (org : String) (m : Membership)
      → lookup org (index_by (λ m. m.org_uuid) (λ m. m) (find_confirmed_memberships user_uuid d) [])
        ≡ some m
      → IsMember d user_uuid m × (m.org_uuid ≡ org)
  unfolding lookup
  members-row org m h =
      elim (lookup-index_by (λ (m : Membership). m.org_uuid) (λ m. m)
        (find_confirmed_memberships user_uuid d) [] org h) [
          | inr e ↦ ground arith
          | inl (r, n, k, v) ↦ rw (← v) (confirmed-IsMember r n, k)
        ]

-- What gives a user the right to write a cipher: they own it; or they are a confirmed member of its
-- organization with full access, or with a row, their own or a group's, that may write one of the
-- collections the cipher is in.
pub data MayWrite (d : Db) (user_uuid : String) (cipher : Cipher) : Type 0 where
  owner : cipher.user_uuid ≡ some user_uuid → MayWrite d user_uuid cipher
  full_member :
      (m : Membership)
      → IsMember d user_uuid m
      → cipher.organization_uuid ≡ some m.org_uuid
      → has_full_access m ≡ true
      → MayWrite d user_uuid cipher
  through :
      (m : Membership) (collection : String)
      → IsMember d user_uuid m
      → cipher.organization_uuid ≡ some m.org_uuid
      → InCollection d cipher collection
      → UserWrites d user_uuid collection ⊎ GroupWrites d user_uuid collection
      → MayWrite d user_uuid cipher

write-access :
    (cipher : Cipher) (user_uuid : String) (sync : CipherSyncData)
    → is_write_accessible cipher user_uuid sync ≡ true
    → (g : Grant) × (get_access_restrictions cipher user_uuid sync ≡ some g) × (g.read_only ≡ false)
unfolding is_write_accessible
write-access cipher user_uuid sync h =
    elim (Option-cases (get_access_restrictions cipher user_uuid sync)) [
      | inl e ↦ ground arith
      | inr (g, e) ↦ (g, e, let t = rw e at h in ground arith)
    ]

-- Someone with access who does not own the cipher is a member of its organization.
access-member :
    (cipher : Cipher) (user_uuid : String) (sync : CipherSyncData) (g : Grant)
    → holds cipher.user_uuid user_uuid ≡ false
    → get_access_restrictions cipher user_uuid sync ≡ some g
    → (org : String) × (m : Membership) × (cipher.organization_uuid ≡ some org)
      × ((org == "") ≡ false)
      × (lookup org sync.members ≡ some m)
unfolding get_access_restrictions
access-member cipher user_uuid sync g other h = elim (Option-cases cipher.organization_uuid) [
  | inl e ↦ ground arith
  | inr (org, e) ↦ elim (Bool-cases (org == "")) [
    | inl b ↦ ground arith
    | inr b ↦ elim (Option-cases (lookup org sync.members)) [
      | inl f ↦ ground arith
      | inr (m, f) ↦ (org, m, e, b, f)
    ]
  ]
]

holds-some : (o : Option String) (s : String) → holds o s ≡ true → o ≡ some s
holds-some none s h = ground arith
holds-some (some t) s h = ap some (to_path t s h)

module _ (d : Db) (user_uuid : String) (kind : SyncType) (org_uuid : Option String)
    (cipher : Cipher) where
  abbrev loaded : CipherSyncData
  loaded = load_cipher_sync_data d user_uuid kind org_uuid

  granted-MayWrite :
      (m : Membership)
      → IsMember d user_uuid m
      → cipher.organization_uuid ≡ some m.org_uuid
      → Granted loaded writes (ids_of loaded cipher)
      → MayWrite d user_uuid cipher
  unfolding load_cipher_sync_data
  granted-MayWrite m is_m o (col, g, n, on, w) =
      let in_col = collections-row d user_uuid _ cipher col (mem-when_any _ _ cipher.uuid n) in
      MayWrite.through m col is_m o in_col (elim on [
        | inl e ↦
            inl (user_collections-row d user_uuid col g (lookup-when_any _ _ col e) (read_only g w))
        | inr e ↦ inr (groups-row d user_uuid col g (lookup-when_any _ _ col e) (read_only g w))
      ])
    where
      read_only : (g : Grant) → writes g ≡ true → g.read_only ≡ false
      read_only g w = ground arith

  member-MayWrite :
      (org : String) (m : Membership) (g : Grant)
      → holds cipher.user_uuid user_uuid ≡ false
      → cipher.organization_uuid ≡ some org
      → (org == "") ≡ false
      → lookup org loaded.members ≡ some m
      → get_access_restrictions cipher user_uuid loaded ≡ some g
      → g.read_only ≡ false
      → MayWrite d user_uuid cipher
  unfolding load_cipher_sync_data
  member-MayWrite org m g other o given f e w =
      let (is_m, eq) = members-row d user_uuid org m f in
      elim (Bool-cases (has_full_access m)) [
        | inl full ↦ MayWrite.full_member m is_m (rw (eq, o) refl) full
        | inr plain ↦
            let p : IsPlainMember cipher user_uuid loaded = record {
              org = org;
              member = m;
              not_own = other;
              in_org = o;
              org_given = given;
              is_member = f;
              not_full = plain;
            } in
            granted-MayWrite m is_m (rw (eq, o) refl)
              ((most_permissive cipher user_uuid loaded g p e).0.0 w)
      ]

-- With the data of `loadCipherSyncData`, of either kind of sync and for one organization or all: a
-- user may write a cipher only if the tables give them that right.
pub write_needs_right :
    (d : Db) (user_uuid : String) (kind : SyncType) (org_uuid : Option String) (cipher : Cipher)
    → is_write_accessible cipher user_uuid (load_cipher_sync_data d user_uuid kind org_uuid) ≡ true
    → MayWrite d user_uuid cipher
write_needs_right d user_uuid kind org_uuid cipher h =
    let (g, e, w) =
      write-access cipher user_uuid (load_cipher_sync_data d user_uuid kind org_uuid) h in
    elim (Bool-cases (holds cipher.user_uuid user_uuid)) [
      | inl own ↦ MayWrite.owner (holds-some cipher.user_uuid user_uuid own)
      | inr other ↦
          let (org, m, o, given, f) =
            access-member cipher user_uuid (load_cipher_sync_data d user_uuid kind org_uuid) g other
              e in
          member-MayWrite d user_uuid kind org_uuid cipher org m g other o given f e w
    ]
