-- ===== src/Web/Defs.antt =====
-- error.ts: `ApiError` and the functions that throw it, and the sequencing of a handler's steps.
use vaultur.Prelude.{ℕ, String, Bool, true, false, List, [], ◌∷◌}

-- `err status message` is a thrown `ApiError` without a body of its own.
pub data Result {ℓ} (A : Type ℓ) : Type ℓ where
  ok : A → Result A
  err : ℕ → String → Result A

-- A step of a handler over the state `S`.
abbrev pub M : Type 0 → Type 0 → Type 0
M S A = S → S × Result A

abbrev pub pure : {S A : Type 0} → A → M S A
pure a s = (s, ok a)

-- The rest of a handler after a step: an exception skips it.
abbrev pub continue : {S A B : Type 0} → S × Result A → (A → M S B) → S × Result B
continue (s, ok a) f = f a s
continue (s, err n t) f = (s, err n t)

infixl 5 ◌>>=◌ ◌>>◌
abbrev pub ◌>>=◌ : {S A B : Type 0} → M S A → (A → M S B) → M S B
◌>>=◌ m f s = continue (m s) f

abbrev pub ◌>>◌ : {S B : Type 0} → M S (Unit {0}) → M S B → M S B
m >> k = m >>= λ _. k

abbrev pub modify : {S : Type 0} → (S → S) → M S (Unit {0})
modify f s = (f s, ok tt)

abbrev pub get : {S A : Type 0} → (S → A) → M S A
get f s = (s, ok (f s))

-- `errCode(message, status)`
abbrev pub err_code : {S A : Type 0} → String → ℕ → M S A
err_code message status s = (s, err status message)

-- `err(message)`, `notFound(message)` and `unauthorized(message)`
abbrev pub bad_request : {S A : Type 0} → String → M S A
bad_request message = err_code message 400

abbrev pub not_found : {S A : Type 0} → String → M S A
not_found message = err_code message 404

abbrev pub unauthorized : {S A : Type 0} → String → M S A
unauthorized message = err_code message 401

-- `if (test) …`, and `if (test) err(…)`
abbrev pub when : {S : Type 0} → Bool → M S (Unit {0}) → M S (Unit {0})
when true m = m
when false m = pure tt

abbrev pub err_if : {S : Type 0} → Bool → String → M S (Unit {0})
err_if true message = bad_request message
err_if false message = pure tt

abbrev pub from_result : {S A : Type 0} → Result A → M S A
from_result r s = (s, r)

-- `for (const x of xs) …`: an exception ends the loop.
unfoldable pub for_each : {S X : Type 0} → List X → (X → M S (Unit {0})) → M S (Unit {0})
for_each [] body s = (s, ok tt)
for_each (x ∷ xs) body s = continue (body x s) (λ _. for_each xs body)

abbrev pub caught : {S : Type 0} → S × Result (Unit {0}) → S × Result String
caught (s, ok a) = (s, ok "")
caught (s, err n t) = (s, ok t)

-- `try { … } catch (e) { error = e.message }`: what was written stays written.
abbrev pub attempt : {S : Type 0} → M S (Unit {0}) → M S String
attempt m s = caught (m s)
