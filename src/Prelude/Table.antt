-- ===== src/Prelude/Table.antt =====
-- A database table as the list of its rows, in the order of their insertion, with the queries that
-- the handlers make: the first row or all rows that meet a condition, an update, a deletion.
use mathlib.Core.Path.{◌≡◌, refl}
use mathlib.Core.Logic.{◌⊎◌, inl, inr}
use mathlib.Core.Bool.{Bool, true, false, ◌||◌}
use mathlib.Core.Option.{Option, none, some}
use mathlib.Core.List.{List, [], ◌∷◌, ◌++◌, Memᴰ}
use native.Mathlib.Omega.{arith}
use vaultur.Prelude.Tests.{if◌then◌else◌, Bool-cases}

module _ {ℓ} {A : Type ℓ} where
  unfoldable pub find_first : (A → Bool) → List A → Option A
  find_first p [] = none
  find_first p (x ∷ xs) = if p x then some x else find_first p xs

  unfoldable pub find_many : (A → Bool) → List A → List A
  find_many p [] = []
  find_many p (x ∷ xs) = let rest = find_many p xs in if p x then x ∷ rest else rest

  -- `update … set … where …`
  unfoldable pub update_where : (A → Bool) → (A → A) → List A → List A
  update_where p f [] = []
  update_where p f (x ∷ xs) = (if p x then f x else x) ∷ update_where p f xs

  -- `delete … where …`
  unfoldable pub delete_where : (A → Bool) → List A → List A
  delete_where p [] = []
  delete_where p (x ∷ xs) = let rest = delete_where p xs in if p x then rest else x ∷ rest

  unfoldable pub any : (A → Bool) → List A → Bool
  any p [] = false
  any p (x ∷ xs) = p x || any p xs

  pub find_first-holds :
      (p : A → Bool) (xs : List A) {x : A} → find_first p xs ≡ some x → p x ≡ true
  unfolding find_first
  find_first-holds p [] h = ground arith
  find_first-holds p (y ∷ xs) {x} h = elim (Bool-cases (p y)) [
    | inl e ↦ let s : some y ≡ some x = ground arith in ground (arith, s)
    | inr e ↦ find_first-holds p xs (ground arith)
  ]

  pub find_first-mem : (p : A → Bool) (xs : List A) {x : A} → find_first p xs ≡ some x → Memᴰ x xs
  unfolding find_first
  find_first-mem p [] h = ground arith
  find_first-mem p (y ∷ xs) {x} h = elim (Bool-cases (p y)) [
    | inl e ↦ Memᴰ.head (ground arith)
    | inr e ↦ Memᴰ.tail (find_first-mem p xs (ground arith))
  ]

  -- A row after an update is an untouched row, or an updated one.
  pub mem-update_where :
      (p : A → Bool) (f : A → A) (xs : List A) {y : A}
      → Memᴰ y (update_where p f xs)
      → (x : A) × Memᴰ x xs × (((p x ≡ false) × (y ≡ x)) ⊎ ((p x ≡ true) × (y ≡ f x)))
  unfolding update_where
  mem-update_where p f [] m = elim m [ ]
  mem-update_where p f (x ∷ xs) {y} (Memᴰ.head e) = elim (Bool-cases (p x)) [
    | inl t ↦ (x, Memᴰ.head refl, inr (t, ground arith))
    | inr t ↦ (x, Memᴰ.head refl, inl (t, ground arith))
  ]
  mem-update_where p f (x ∷ xs) (Memᴰ.tail m) =
      let (z, zm, h) = mem-update_where p f xs m in (z, Memᴰ.tail zm, h)

  pub mem-delete_where :
      (p : A → Bool) (xs : List A) {y : A} → Memᴰ y (delete_where p xs) → Memᴰ y xs × (p y ≡ false)
  unfolding delete_where
  mem-delete_where p [] m = elim m [ ]
  mem-delete_where p (x ∷ xs) {y} m = elim (Bool-cases (p x)) [
    | inl t ↦ let (n, e) = mem-delete_where p xs (rw t at m) in (Memᴰ.tail n, e)
    | inr t ↦ kept t (mem-delete_where p xs) (rw t at m)
  ]
    where
      kept :
          p x ≡ false
          → (Memᴰ y (delete_where p xs) → Memᴰ y xs × (p y ≡ false))
          → Memᴰ y (x ∷ delete_where p xs)
          → Memᴰ y (x ∷ xs) × (p y ≡ false)
      kept t ih (Memᴰ.head e) = (Memᴰ.head e, rw e t)
      kept t ih (Memᴰ.tail n) = let (k, e) = ih n in (Memᴰ.tail k, e)

  pub any-mem : (p : A → Bool) (xs : List A) → any p xs ≡ true → (x : A) × Memᴰ x xs × (p x ≡ true)
  unfolding any
  any-mem p [] h = ground arith
  any-mem p (x ∷ xs) h = elim (Bool-cases (p x)) [
    | inl e ↦ (x, Memᴰ.head refl, e)
    | inr e ↦ let (y, m, t) = any-mem p xs (rw e at h) in (y, Memᴰ.tail m, t)
  ]

  pub mem-any : (p : A → Bool) (xs : List A) {x : A} → Memᴰ x xs → p x ≡ true → any p xs ≡ true
  unfolding any
  mem-any p [] m t = elim m [ ]
  mem-any p (y ∷ xs) (Memᴰ.head e) t = rw (← e, t) refl
  mem-any p (y ∷ xs) (Memᴰ.tail m) t = rw (mem-any p xs m t) (ground arith)

  pub mem-find_many :
      (p : A → Bool) (xs : List A) {x : A} → Memᴰ x (find_many p xs) → Memᴰ x xs × (p x ≡ true)
  unfolding find_many
  mem-find_many p [] m = elim m [ ]
  mem-find_many p (y ∷ xs) {x} m = elim (Bool-cases (p y)) [
    | inl t ↦ found t (mem-find_many p xs) (rw t at m)
    | inr t ↦ let (n, e) = mem-find_many p xs (rw t at m) in (Memᴰ.tail n, e)
  ]
    where
      found :
          p y ≡ true
          → (Memᴰ x (find_many p xs) → Memᴰ x xs × (p x ≡ true))
          → Memᴰ x (y ∷ find_many p xs)
          → Memᴰ x (y ∷ xs) × (p x ≡ true)
      found t ih (Memᴰ.head e) = (Memᴰ.head e, rw e t)
      found t ih (Memᴰ.tail n) = let (k, e) = ih n in (Memᴰ.tail k, e)

  pub find_many-mem :
      (p : A → Bool) (xs : List A) {x : A} → Memᴰ x xs → p x ≡ true → Memᴰ x (find_many p xs)
  unfolding find_many
  find_many-mem p [] m t = elim m [ ]
  find_many-mem p (y ∷ xs) (Memᴰ.head e) t = rw (← e, t) (Memᴰ.head refl)
  find_many-mem p (y ∷ xs) {x} (Memᴰ.tail m) t = elim (Bool-cases (p y)) [
    | inl u ↦ rw u (Memᴰ.tail (find_many-mem p xs m t))
    | inr u ↦ rw u (find_many-mem p xs m t)
  ]

-- `innerJoin(…, on)`: the pairs of rows that meet the condition.
module _ {ℓ κ} {A : Type ℓ} {B : Type κ} (on : A → B → Bool) where
  unfoldable pub matches : A → List B → List (A × B)
  matches x [] = []
  matches x (y ∷ ys) = let rest = matches x ys in if on x y then (x, y) ∷ rest else rest

  unfoldable pub inner_join : List A → List B → List (A × B)
  inner_join [] ys = []
  inner_join (x ∷ xs) ys = matches x ys ++ inner_join xs ys

-- The first row of a condition after an update of just these rows.
pub find_first-update_where {ℓ} :
    {A : Type ℓ} (p : A → Bool) (f : A → A) (xs : List A) {x : A}
    → ((y : A) → p y ≡ true → p (f y) ≡ true)
    → find_first p xs ≡ some x
    → find_first p (update_where p f xs) ≡ some (f x)
unfolding find_first update_where
find_first-update_where p f [] h e = ground arith
find_first-update_where p f (y ∷ xs) {x} h e = elim (Bool-cases (p y)) [
  | inl t ↦ rw (t, h y t) (let s : some y ≡ some x = ground arith in ground (arith, s))
  | inr t ↦ rw (t, t) (find_first-update_where p f xs h (ground arith))
]

-- An update, under a wider condition, that keeps the condition of the query.
pub find_first-update_where_wide {ℓ} :
    {A : Type ℓ} (p q : A → Bool) (f : A → A) (xs : List A) {x : A}
    → ((y : A) → p y ≡ true → q y ≡ true)
    → ((y : A) → p (f y) ≡ p y)
    → find_first p xs ≡ some x
    → find_first p (update_where q f xs) ≡ some (f x)
unfolding find_first update_where
find_first-update_where_wide p q f [] h k e = ground arith
find_first-update_where_wide p q f (y ∷ xs) {x} h k e = elim (Bool-cases (p y)) [
  | inl t ↦ rw (h y t, k y, t) (let s : some y ≡ some x = ground arith in ground (arith, s))
  | inr t ↦ elim (Bool-cases (q y)) [
    | inl u ↦ rw (u, k y, t) (find_first-update_where_wide p q f xs h k (ground arith))
    | inr u ↦ rw (u, t) (find_first-update_where_wide p q f xs h k (ground arith))
  ]
]

-- An update of other rows.
pub find_first-update_where_ne {ℓ} :
    {A : Type ℓ} (p q : A → Bool) (f : A → A) (xs : List A)
    → ((y : A) → q y ≡ true → p y ≡ false)
    → ((y : A) → q y ≡ true → p (f y) ≡ false)
    → find_first p (update_where q f xs) ≡ find_first p xs
unfolding find_first update_where
find_first-update_where_ne p q f [] h k = refl
find_first-update_where_ne p q f (y ∷ xs) h k = elim (Bool-cases (q y)) [
  | inl t ↦ rw (t, h y t, k y t) (find_first-update_where_ne p q f xs h k)
  | inr t ↦ rw t (ground (arith, find_first-update_where_ne p q f xs h k))
]

-- Rows that the condition does not hold of stay.
pub mem-update_where_kept {ℓ} :
    {A : Type ℓ} (p : A → Bool) (f : A → A) (xs : List A) {y : A}
    → p y ≡ false
    → Memᴰ y xs
    → Memᴰ y (update_where p f xs)
unfolding update_where
mem-update_where_kept p f [] h m = elim m [ ]
mem-update_where_kept p f (x ∷ xs) {y} h (Memᴰ.head e) = Memᴰ.head (rw (← e, h))
mem-update_where_kept p f (x ∷ xs) h (Memᴰ.tail m) = Memᴰ.tail (mem-update_where_kept p f xs h m)

pub mem-delete_where_kept {ℓ} :
    {A : Type ℓ} (p : A → Bool) (xs : List A) {y : A}
    → p y ≡ false
    → Memᴰ y xs
    → Memᴰ y (delete_where p xs)
unfolding delete_where
mem-delete_where_kept p [] h m = elim m [ ]
mem-delete_where_kept p (x ∷ xs) {y} h (Memᴰ.head e) = rw (← e, h) (Memᴰ.head refl)
mem-delete_where_kept p (x ∷ xs) h (Memᴰ.tail m) = elim (Bool-cases (p x)) [
  | inl t ↦ rw t (mem-delete_where_kept p xs h m)
  | inr t ↦ rw t (Memᴰ.tail (mem-delete_where_kept p xs h m))
]

-- The updated rows.
pub mem-update_where_hit {ℓ} :
    {A : Type ℓ} (p : A → Bool) (f : A → A) (xs : List A) {y : A}
    → p y ≡ true
    → Memᴰ y xs
    → Memᴰ (f y) (update_where p f xs)
unfolding update_where
mem-update_where_hit p f [] h m = elim m [ ]
mem-update_where_hit p f (x ∷ xs) {y} h (Memᴰ.head e) = rw (← e, h) (Memᴰ.head refl)
mem-update_where_hit p f (x ∷ xs) h (Memᴰ.tail m) = Memᴰ.tail (mem-update_where_hit p f xs h m)

-- Every row of a table has a property.
module _ {A : Type 0} (P : A → Type 0) where
  abbrev pub All : List A → Type 0
  All [] = Unit {0}
  All (x ∷ xs) = P x × All xs

  pub All-of_mem : (xs : List A) → ((y : A) → Memᴰ y xs → P y) → All xs
  All-of_mem [] h = tt
  All-of_mem (x ∷ xs) h = (h x (Memᴰ.head refl), All-of_mem xs (λ y m. h y (Memᴰ.tail m)))
