-- ===== src/Db/Keys.antt =====
-- The primary key of a table: an insertion of a key that is taken fails (SQLite's UNIQUE constraint,
-- which the database reports as an exception), and so no two rows ever share a key.
use vaultur.Prelude.{
  String, Bool, true, false, ◌≡◌, sym, ap, ◌∙◌, ◌≢◌, ◌⊎◌, inl, inr, List, [], ◌∷◌, Memᴰ, arith,
  ◌==◌, string_instance, if◌then◌else◌, Bool-cases, eq_iff,
}
use vaultur.Prelude.Table.{update_where, delete_where, mem-update_where, mem-delete_where}

module _ {A : Type 0} (key : A → String) where
  unfoldable pub has_key : String → List A → Bool
  has_key k [] = false
  has_key k (x ∷ xs) = if key x == k then true else has_key k xs

  abbrev pub UniqueBy : List A → Type 0
  UniqueBy [] = Unit {0}
  UniqueBy (x ∷ xs) = ((y : A) → Memᴰ y xs → key y ≢ key x) × UniqueBy xs

  -- The key leads to one row.
  pub same_of_key :
      (xs : List A) {x y : A} → UniqueBy xs → Memᴰ x xs → Memᴰ y xs → key x ≡ key y → x ≡ y
  same_of_key [] u m n e = elim m [ ]
  same_of_key (z ∷ xs) u (Memᴰ.head p) (Memᴰ.head q) e = p ∙ sym q
  same_of_key (z ∷ xs) u (Memᴰ.head p) (Memᴰ.tail n) e = absurd (u.0 _ n (sym e ∙ ap key p))
  same_of_key (z ∷ xs) u (Memᴰ.tail m) (Memᴰ.head q) e = absurd (u.0 _ m (e ∙ ap key q))
  same_of_key (z ∷ xs) u (Memᴰ.tail m) (Memᴰ.tail n) e = same_of_key xs u.1 m n e

  pub update_where-UniqueBy :
      (p : A → Bool) (f : A → A) (xs : List A)
      → ((x : A) → key (f x) ≡ key x)
      → UniqueBy xs
      → UniqueBy (update_where p f xs)
  unfolding update_where
  update_where-UniqueBy p f [] h u = tt
  update_where-UniqueBy p f (x ∷ xs) h u = (fresh, update_where-UniqueBy p f xs h u.1)
    where
      keeps : (z : A) → key (if p z then f z else z) ≡ key z
      keeps z = ground (arith, h z)

      kept : {y z : A} → ((p z ≡ false) × (y ≡ z)) ⊎ ((p z ≡ true) × (y ≡ f z)) → key y ≡ key z
      kept (inl (_, e)) = ap key e
      kept {z} (inr (_, e)) = ap key e ∙ h z

      fresh : (y : A) → Memᴰ y (update_where p f xs) → key y ≢ key (if p x then f x else x)
      fresh y m e =
          let (z, n, o) = mem-update_where p f xs m in u.0 z n (sym (kept o) ∙ e ∙ keeps x)

  pub delete_where-UniqueBy :
      (p : A → Bool) (xs : List A) → UniqueBy xs → UniqueBy (delete_where p xs)
  unfolding delete_where
  delete_where-UniqueBy p [] u = tt
  delete_where-UniqueBy p (x ∷ xs) u = elim (Bool-cases (p x)) [
    | inl t ↦ rw t (delete_where-UniqueBy p xs u.1)
    | inr t ↦ rw t ((λ y m. u.0 y (mem-delete_where p xs m).0), delete_where-UniqueBy p xs u.1)
  ]

  pub not-has_key :
      (k : String) (xs : List A) → has_key k xs ≡ false → (y : A) → Memᴰ y xs → key y ≢ k
  unfolding has_key
  not-has_key k [] h y m = elim m [ ]
  not-has_key k (x ∷ xs) h y (Memᴰ.head p) =
      λ e. absurd (ground (arith, eq_iff (key x) k, ap key p))
  not-has_key k (x ∷ xs) h y (Memᴰ.tail m) = not-has_key k xs (ground arith) y m

  -- A new row in front of the table: the order of a table is not observable by its key.
  pub cons-UniqueBy :
      (x : A) (xs : List A) → has_key (key x) xs ≡ false → UniqueBy xs → UniqueBy (x ∷ xs)
  cons-UniqueBy x xs h u = (not-has_key (key x) xs h, u)
