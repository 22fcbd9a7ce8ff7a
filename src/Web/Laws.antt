-- ===== src/Web/Laws.antt =====
-- What a handler that returned has done: each step returned, and the next ran on its state.
use vaultur.Prelude.{ℕ, String, ◌≡◌, refl, ◌⊎◌, inl, inr}
use vaultur.Web.Defs.{Result, ok, err, M, continue, ◌>>=◌}

continue-eq-ok :
    {S A B : Type 0} (c r : S × Result A) (f : A → M S B) {t : S} {b : B}
    → c ≡ r
    → continue r f ≡ (t, ok b)
    → (u : S) × (a : A) × (c ≡ (u, ok a)) × (f a u ≡ (t, ok b))
continue-eq-ok c (u, ok a) f e h = (u, a, e, h)
continue-eq-ok c (u, err n x) f e h = absurd (cc)

pub >>=-eq-ok :
    {S A B : Type 0} (m : M S A) (f : A → M S B) (s : S) {t : S} {b : B}
    → (m >>= f) s ≡ (t, ok b)
    → (u : S) × (a : A) × (m s ≡ (u, ok a)) × (f a u ≡ (t, ok b))
>>=-eq-ok m f s h = continue-eq-ok (m s) (m s) f refl h

-- To split on a computed result and keep the equation.
pub Result-cases {ℓ} :
    {A : Type ℓ} (r : Result A) → ((n : ℕ) × (t : String) × (r ≡ err n t)) ⊎ ((a : A) × (r ≡ ok a))
Result-cases (err n t) = inl (n, t, refl)
Result-cases (ok a) = inr (a, refl)
