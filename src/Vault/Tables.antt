-- ===== src/Vault/Tables.antt =====
-- What the access of a member comes from in the tables, through `loadCipherSyncData`.
use vaultur.Prelude.{
  String, ap, Bool, true, false, Option, none, some, ◌≡◌, refl, sym, ◌==◌, string_instance, ◌&&◌,
  or_else, arith, List, [], ◌∷◌, ◌++◌, map, Memᴰ, Bool-cases, inl, inr, ◌⊎◌, eq_iff,
}
use vaultur.Prelude.Table.{inner_join, matches}
use vaultur.Prelude.Dict.{Dict, lookup, insert, lookup-insert, index_by, group_by, push}
use vaultur.Db.{CollectionGroup}
use vaultur.Vault.Sync.{Grant, merge_groups, merge_grant}

pub to_path : (a b : String) → (a == b) ≡ true → a ≡ b
to_path a b t = (eq_iff a b).0 t

-- A value that `map.set` left under a key is a row's, or was there.
pub lookup-index_by {ℓ κ} :
    {A : Type κ} {V : Type ℓ} (key : A → String) (value : A → V) (rows : List A) (m : Dict V)
    (k : String) {v : V}
    → lookup k (index_by key value rows m) ≡ some v
    → ((r : A) × Memᴰ r rows × (key r ≡ k) × (value r ≡ v)) ⊎ (lookup k m ≡ some v)
unfolding index_by
lookup-index_by key value [] m k h = inr h
lookup-index_by key value (r ∷ rows) m k {v} h =
    elim (lookup-index_by key value rows (insert (key r) (value r) m) k h) [
      | inl (s, n, e, q) ↦ inl (s, Memᴰ.tail n, e, q)
      | inr e ↦ elim (Bool-cases (key r == k)) [
        | inl t ↦
            inl (r, Memᴰ.head refl, to_path (key r) k t, ground (arith, rw (lookup-insert, t) at e))
        | inr t ↦ inr (rw (lookup-insert, t) at e)
      ]
    ]

mem-append {ℓ} : {A : Type ℓ} (xs ys : List A) {x : A} → Memᴰ x (xs ++ ys) → Memᴰ x xs ⊎ Memᴰ x ys
mem-append [] ys m = inr m
mem-append (x ∷ xs) ys (Memᴰ.head e) = inl (Memᴰ.head e)
mem-append (x ∷ xs) ys (Memᴰ.tail m) = elim (mem-append xs ys m) [
  | inl n ↦ inl (Memᴰ.tail n)
  | inr n ↦ inr n
]

-- An element of a list that the loop collected under a key is a row's, or was there.
pub lookup-group_by {ℓ κ} :
    {A : Type κ} {V : Type ℓ} (key : A → String) (value : A → V) (rows : List A) (m : Dict (List V))
    (k : String) {v : V}
    → Memᴰ v (or_else (lookup k (group_by key value rows m)) [])
    → ((r : A) × Memᴰ r rows × (key r ≡ k) × (value r ≡ v)) ⊎ Memᴰ v (or_else (lookup k m) [])
unfolding group_by push
lookup-group_by key value [] m k h = inr h
lookup-group_by {A} {V} key value (r ∷ rows) m k {v} h =
    elim (lookup-group_by key value rows (push (key r) (value r) m) k h) [
      | inl (s, n, e, q) ↦ inl (s, Memᴰ.tail n, e, q)
      | inr e ↦ elim (Bool-cases (key r == k)) [
        | inl t ↦ pushed t (rw (lookup-insert, t) at e)
        | inr t ↦ inr (rw (lookup-insert, t) at e)
      ]
    ]
  where
    pushed :
        (key r == k) ≡ true
        → Memᴰ v (or_else (lookup (key r) m) [] ++ value r ∷ [])
        → ((s : A) × Memᴰ s (r ∷ rows) × (key s ≡ k) × (value s ≡ v))
          ⊎ Memᴰ v (or_else (lookup k m) [])
    pushed t n = elim (mem-append (or_else (lookup (key r) m) []) (value r ∷ []) n) [
      | inl o ↦ inr (rw (to_path (key r) k t) at o)
      | inr (Memᴰ.head e) ↦ inl (r, Memᴰ.head refl, to_path (key r) k t, sym e)
      | inr (Memᴰ.tail o) ↦ elim o [ ]
    ]

-- A row of the join is a row of each table, and they meet the condition.
mem-matches {ℓ κ} :
    {A : Type ℓ} {B : Type κ} (on : A → B → Bool) (x : A) (ys : List B) {r : A × B}
    → Memᴰ r (matches on x ys)
    → (r.0 ≡ x) × Memᴰ (r.1) ys × (on x (r.1) ≡ true)
unfolding matches
mem-matches on x [] m = elim m [ ]
mem-matches on x (y ∷ ys) {r} m = elim (Bool-cases (on x y)) [
  | inl t ↦ joined t (mem-matches on x ys) (rw t at m)
  | inr t ↦ let (e, n, q) = mem-matches on x ys (rw t at m) in (e, Memᴰ.tail n, q)
]
  where
    joined :
        on x y ≡ true
        → (Memᴰ r (matches on x ys) → (r.0 ≡ x) × Memᴰ (r.1) ys × (on x (r.1) ≡ true))
        → Memᴰ r ((x, y) ∷ matches on x ys)
        → (r.0 ≡ x) × Memᴰ (r.1) (y ∷ ys) × (on x (r.1) ≡ true)
    joined t ih (Memᴰ.head e) = (ap (λ p. p.0) e, Memᴰ.head (ap (λ p. p.1) e), rw e t)
    joined t ih (Memᴰ.tail n) = let (e, k, q) = ih n in (e, Memᴰ.tail k, q)

pub mem-inner_join {ℓ κ} :
    {A : Type ℓ} {B : Type κ} (on : A → B → Bool) (xs : List A) (ys : List B) {r : A × B}
    → Memᴰ r (inner_join on xs ys)
    → Memᴰ (r.0) xs × Memᴰ (r.1) ys × (on (r.0) (r.1) ≡ true)
unfolding inner_join
mem-inner_join on [] ys m = elim m [ ]
mem-inner_join on (x ∷ xs) ys {r} m = elim (mem-append (matches on x ys) (inner_join on xs ys) m) [
  | inl n ↦ let (e, k, q) = mem-matches on x ys n in (Memᴰ.head e, k, rw e q)
  | inr n ↦ let (e, k, q) = mem-inner_join on xs ys n in (Memᴰ.tail e, k, q)
]

pub mem-map {ℓ κ} :
    {A : Type ℓ} {B : Type κ} (f : A → B) (xs : List A) {y : B}
    → Memᴰ y (map f xs)
    → (x : A) × Memᴰ x xs × (f x ≡ y)
mem-map f [] m = elim m [ ]
mem-map f (x ∷ xs) (Memᴰ.head e) = (x, Memᴰ.head refl, sym e)
mem-map f (x ∷ xs) (Memᴰ.tail m) = let (z, n, e) = mem-map f xs m in (z, Memᴰ.tail n, e)

merge-writes :
    (o : Option Grant) (r : CollectionGroup)
    → (merge_grant o r).read_only ≡ false
    → (r.read_only ≡ false) ⊎ ((h : Grant) × (o ≡ some h) × (h.read_only ≡ false))
unfolding merge_grant
merge-writes none r w = inl w
merge-writes (some g) r w = elim (Bool-cases r.read_only) [
  | inl e ↦ inr (g, refl, (let t : (g.read_only && r.read_only) ≡ false = w in ground arith))
  | inr e ↦ inl e
]

-- A merged grant that may write has a row that may.
pub merged-writes :
    (rows : List CollectionGroup) (m : Dict Grant) (k : String) {g : Grant}
    → lookup k (merge_groups rows m) ≡ some g
    → g.read_only ≡ false
    → ((r : CollectionGroup) × Memᴰ r rows × (r.collections_uuid ≡ k) × (r.read_only ≡ false))
      ⊎ ((h : Grant) × (lookup k m ≡ some h) × (h.read_only ≡ false))
unfolding merge_groups
merged-writes [] m k {g} l w = inr (g, l, w)
merged-writes (r ∷ rows) m k {g} l w =
    elim (merged-writes rows
      (insert r.collections_uuid (merge_grant (lookup r.collections_uuid m) r) m) k l w) [
        | inl (s, n, e, q) ↦ inl (s, Memᴰ.tail n, e, q)
        | inr (h, e, v) ↦ elim (Bool-cases (r.collections_uuid == k)) [
          | inl t ↦
              let u : merge_grant (lookup r.collections_uuid m) r ≡ h =
                ground (arith, rw (lookup-insert, t) at e) in
              elim (merge-writes (lookup r.collections_uuid m) r (rw u v)) [
                | inl q ↦ inl (r, Memᴰ.head refl, to_path r.collections_uuid k t, q)
                | inr (j, q, z) ↦ inr (j, rw (to_path r.collections_uuid k t) at q, z)
              ]
          | inr t ↦ inr (h, rw (lookup-insert, t) at e, v)
        ]
      ]
