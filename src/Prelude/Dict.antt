-- ===== src/Prelude/Dict.antt =====
-- A JavaScript `Map` from texts, as an association list: `set` replaces the value of a key in place.
use Prim.Native.String.{String}
use mathlib.Core.Path.{◌≡◌, refl}
use mathlib.Core.Option.{Option, none, some}
use mathlib.Core.List.{List, [], ◌∷◌, ◌++◌}
use native.Mathlib.Omega.{arith}
use text.Mathlib.TextEquality.{eq_iff}
use vaultur.Prelude.Tests.{◌==◌, string_instance, if◌then◌else◌, or_else}

abbrev pub Dict {ℓ} : Type ℓ → Type ℓ
Dict V = List (String × V)

module _ {ℓ} {V : Type ℓ} where
  -- `map.get(key)`
  unfoldable pub lookup : String → Dict V → Option V
  lookup key [] = none
  lookup key (entry ∷ rest) = if entry.0 == key then some entry.1 else lookup key rest

  -- `map.set(key, value)`
  unfoldable pub insert : String → V → Dict V → Dict V
  insert key value [] = (key, value) ∷ []
  insert key value (entry ∷ rest) =
      let set_later = insert key value rest in
      if entry.0 == key then (key, value) ∷ rest else entry ∷ set_later

  -- What `get` answers after `set`.
  pub lookup-insert :
      (m : Dict V) (key asked : String) (value : V)
      → lookup asked (insert key value m) ≡ (if key == asked then some value else lookup asked m)
  unfolding lookup insert
  lookup-insert [] key asked value = refl
  lookup-insert (entry ∷ rest) key asked value = ground (
    arith,
    eq_iff key asked,
    eq_iff entry.0 key,
    eq_iff entry.0 asked,
    lookup-insert rest key asked value,
  )

  -- `for (const r of rows) map.set(key(r), value(r))`
  unfoldable pub index_by {κ} : {A : Type κ} → (A → String) → (A → V) → List A → Dict V → Dict V
  index_by key value [] m = m
  index_by key value (r ∷ rows) m = index_by key value rows (insert (key r) (value r) m)

module _ {ℓ} {V : Type ℓ} where
  -- `const list = map.get(k) ?? []; list.push(v); map.set(k, list)`
  unfoldable pub push : String → V → Dict (List V) → Dict (List V)
  push k v m = insert k (or_else (lookup k m) [] ++ v ∷ []) m

  unfoldable pub group_by {κ} :
      {A : Type κ} → (A → String) → (A → V) → List A → Dict (List V) → Dict (List V)
  group_by key value [] m = m
  group_by key value (r ∷ rows) m = group_by key value rows (push (key r) (value r) m)
