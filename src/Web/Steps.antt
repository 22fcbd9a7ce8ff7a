-- ===== src/Web/Steps.antt =====
-- What every part of a handler does to the state, a handler does: a relation of the states that is
-- reflexive and transitive.
use vaultur.Prelude.{String, Bool, true, false, List, [], ◌∷◌, Memᴰ, ◌≡◌, refl, sym, subst, ap}
use vaultur.Web.Defs.{Result, ok, err, M, continue, when, err_if, ◌>>=◌, for_each, attempt, caught}

module _ {S : Type 0} (R : S → S → Type 0) (reflexive : (s : S) → R s s)
    (transitive : (s t u : S) → R s t → R t u → R s u) where
  abbrev pub Steps : {A : Type 0} → M S A → Type 0
  Steps m = (s : S) → R s (m s).0

  continue-Steps :
      {A B : Type 0} (s : S) (r : S × Result A) (f : A → M S B)
      → R s r.0
      → ((a : A) → Steps (f a))
      → R s (continue r f).0
  continue-Steps s (t, ok a) f h k = transitive s t (continue (t, ok a) f).0 h (k a t)
  continue-Steps s (t, err n x) f h k = h

  pub bind-Steps :
      {A B : Type 0} (m : M S A) (f : A → M S B)
      → Steps m
      → ((a : A) → Steps (f a))
      → Steps (m >>= f)
  bind-Steps m f h k s = continue-Steps s (m s) f (h s) k

  pub when-Steps : (b : Bool) (m : M S (Unit {0})) → Steps m → Steps (when b m)
  when-Steps true m h = h
  when-Steps false m h = reflexive

  pub for_each-Steps :
      {X : Type 0} (xs : List X) (body : X → M S (Unit {0}))
      → ((x : X) → Steps (body x))
      → Steps (for_each xs body)
  unfolding for_each
  for_each-Steps [] body h s = reflexive s
  for_each-Steps (x ∷ xs) body h s =
      continue-Steps s (body x s) (λ _. for_each xs body) (h x s) (λ _. for_each-Steps xs body h)

  -- The body's step for the elements of the list alone.
  pub for_each-mem-Steps :
      {X : Type 0} (xs : List X) (body : X → M S (Unit {0}))
      → ((x : X) → Memᴰ x xs → Steps (body x))
      → Steps (for_each xs body)
  unfolding for_each
  for_each-mem-Steps [] body h s = reflexive s
  for_each-mem-Steps (x ∷ xs) body h s =
      continue-Steps s (body x s) (λ _. for_each xs body) (h x (Memᴰ.head refl) s)
        (λ _. for_each-mem-Steps xs body (λ y m. h y (Memᴰ.tail m)))

  caught-Steps : (s : S) (r : S × Result (Unit {0})) → R s r.0 → R s (caught r).0
  caught-Steps s (t, ok a) h = h
  caught-Steps s (t, err n x) h = h

  pub attempt-Steps : (m : M S (Unit {0})) → Steps m → Steps (attempt m)
  attempt-Steps m h s = caught-Steps s (m s) (h s)

  pub err_if-Steps : (b : Bool) (message : String) → Steps (err_if b message)
  err_if-Steps true message = reflexive
  err_if-Steps false message = reflexive

-- After a step that only reads, a handler goes on from the same state with the step's result, or ends
-- there.
pub after_read :
    {S A B : Type 0} (P : S → Type 0) (m : M S A) (f : A → M S B) (s : S)
    → (m s).0 ≡ s
    → P s
    → ((a : A) → m s ≡ (s, ok a) → P (f a s).0)
    → P ((m >>= f) s).0
after_read {S} {A} P m f s kept stop go = continued (m s) kept go
  where
    continued :
        (r : S × Result A) → r.0 ≡ s → ((a : A) → r ≡ (s, ok a) → P (f a s).0) → P (continue r f).0
    continued (t, err n x) k g = subst P (sym k) stop
    continued (t, ok a) k g = subst (λ u. P (f a u).0) (sym k) (g a (ap (λ u. (u, ok a)) k))

pub err_if-reads : {S : Type 0} (b : Bool) (message : String) (s : S) → (err_if b message s).0 ≡ s
err_if-reads true message s = refl
err_if-reads false message s = refl

pub err_if-eq-ok :
    {S : Type 0} (b : Bool) (message : String) (s : S) {a : Unit {0}}
    → err_if b message s ≡ (s, ok a)
    → b ≡ false
err_if-eq-ok true message s h = absurd (cc)
err_if-eq-ok false message s h = refl
