-- ===== src/Ssrf/Numerals.antt =====
-- The numerals of `inet_aton`, as a grammar, and `parseUint` of services/ssrf.ts against it.
use vaultur.Prelude.{
  ℕ, ◌+◌, ◌*◌, ◌≤◌, ◌<◌, true, false, ◌≡◌, refl, sym, ap, subst, ◌⊎◌, inl, inr, arith, ◌==◌,
  nat_instance, ◌&&◌, ◌||◌, leb, some, Bool-cases, [], ◌∷◌,
}
use vaultur.Ssrf.Text.{Text, digit_value, parse_from, parse_uint}

-- The character `c` is the digit of value `v`: '0' to '9', 'a' to 'f' or 'A' to 'F'.
abbrev pub IsDigit : ℕ → ℕ → Type 0
IsDigit c v =
    ((v < 10) × (c ≡ 48 + v))
    ⊎ ((10 ≤ v) × (v < 16) × (c ≡ 87 + v))
    ⊎ ((10 ≤ v) × (v < 16) × (c ≡ 55 + v))

-- The digits of a text in a base, after the number `acc`, make the number `n`.
abbrev pub Reads : ℕ → ℕ → Text → ℕ → Type 0
Reads base acc [] n = n ≡ acc
Reads base acc (c ∷ s) n = (v : ℕ) × IsDigit c v × (v < base) × Reads base (acc * base + v) s n

-- "0", octal digits after "0", hexadecimal digits after "0x", or decimal digits that begin with none.
pub data Numeral (s : Text) (n : ℕ) : Type 0 where
  zero_alone : s ≡ 48 ∷ [] → n ≡ 0 → Numeral s n
  octal : (c : ℕ) (r : Text) → s ≡ 48 ∷ c ∷ r → Reads 8 0 (c ∷ r) n → Numeral s n
  hexadecimal :
      (x c : ℕ) (r : Text)
      → (x ≡ 120) ⊎ (x ≡ 88)
      → s ≡ 48 ∷ x ∷ c ∷ r
      → Reads 16 0 (c ∷ r) n
      → Numeral s n
  decimal : (c : ℕ) (r : Text) → 49 ≤ c → c ≤ 57 → s ≡ c ∷ r → Reads 10 0 (c ∷ r) n → Numeral s n

digit_value-IsDigit : (c : ℕ) → digit_value c < 16 → IsDigit c (digit_value c)
unfolding digit_value
digit_value-IsDigit c h = ground arith

digit_value-eq : (c v : ℕ) → IsDigit c v → digit_value c ≡ v
unfolding digit_value
digit_value-eq c v (inl (h, e)) = ground arith
digit_value-eq c v (inr (inl (h, k, e))) = ground arith
digit_value-eq c v (inr (inr (h, k, e))) = ground arith

parse_from-Reads :
    (base acc : ℕ) (s : Text) (n : ℕ)
    → base ≤ 16
    → parse_from base acc s ≡ some n
    → Reads base acc s n
unfolding parse_from
parse_from-Reads base acc [] n b h = ground arith
parse_from-Reads base acc (c ∷ s) n b h = elim (Bool-cases (leb base (digit_value c))) [
  | inl k ↦ absurd (let q = rw k at h in cc)
  | inr k ↦ (
    digit_value c,
    digit_value-IsDigit c (ground arith),
    ground arith,
    parse_from-Reads base (acc * base + digit_value c) s n b (let q = rw k at h in q),
  )
]

Reads-parse_from :
    (base acc : ℕ) (s : Text) (n : ℕ) → Reads base acc s n → parse_from base acc s ≡ some n
unfolding parse_from
Reads-parse_from base acc [] n h = ap some (sym h)
Reads-parse_from base acc (c ∷ s) n (v, d, b, h) =
    let value : digit_value c ≡ v = digit_value-eq c v d in
    let small : leb base v ≡ false = ground arith in
    rw (value, small) (Reads-parse_from base (acc * base + v) s n h)

hexadecimal_numeral :
    (x : ℕ) (r : Text) (n : ℕ)
    → (x ≡ 120) ⊎ (x ≡ 88)
    → parse_uint (48 ∷ x ∷ r) ≡ some n
    → Numeral (48 ∷ x ∷ r) n
unfolding parse_uint
hexadecimal_numeral x [] n (inl e) h = absurd (let q = rw e at h in cc)
hexadecimal_numeral x [] n (inr e) h = absurd (let q = rw e at h in cc)
hexadecimal_numeral x (c ∷ r) n (inl e) h =
    Numeral.hexadecimal x c r (inl e) refl
      (parse_from-Reads 16 0 (c ∷ r) n (omega arith) (let q = rw e at h in q))
hexadecimal_numeral x (c ∷ r) n (inr e) h =
    Numeral.hexadecimal x c r (inr e) refl
      (parse_from-Reads 16 0 (c ∷ r) n (omega arith) (let q = rw e at h in q))

after_zero : (s : Text) (n : ℕ) → parse_uint (48 ∷ s) ≡ some n → Numeral (48 ∷ s) n
unfolding parse_uint
after_zero [] n h = Numeral.zero_alone refl (ground arith)
after_zero (x ∷ r) n h = elim (Bool-cases (x == 120 || x == 88)) [
  | inl k ↦ hexadecimal_numeral x r n (ground arith) h
  | inr k ↦
      Numeral.octal x r refl (parse_from-Reads 8 0 (x ∷ r) n (omega arith) (let q = rw k at h in q))
]

-- What `parseUint` reads is what the text is a numeral of.
pub parse_uint-Numeral : (s : Text) (n : ℕ) → parse_uint s ≡ some n → Numeral s n
unfolding parse_uint
parse_uint-Numeral [] n h = absurd (cc)
parse_uint-Numeral (c ∷ s) n h = elim (Bool-cases (c == 48)) [
  | inl z ↦
      let same : c ≡ 48 = ground arith in
      subst (λ k. Numeral (k ∷ s) n) (sym same)
        (after_zero s n (subst (λ k. parse_uint (k ∷ s) ≡ some n) same h))
  | inr z ↦ elim (Bool-cases (leb 49 c && leb c 57)) [
    | inl k ↦
        Numeral.decimal c s (ground arith) (ground arith) refl
          (parse_from-Reads 10 0 (c ∷ s) n (omega arith) (let q = rw (z, k) at h in q))
    | inr k ↦ absurd (let q = rw (z, k) at h in cc)
  ]
]

octal_read : (c : ℕ) (r : Text) (n : ℕ) → Reads 8 0 (c ∷ r) n → parse_uint (48 ∷ c ∷ r) ≡ some n
unfolding parse_uint
octal_read c r n (v, d, b, h) =
    let plain : (c == 120 || c == 88) ≡ false = ground arith in
    rw plain (Reads-parse_from 8 0 (c ∷ r) n (v, d, b, h))

hexadecimal_read :
    (x c : ℕ) (r : Text) (n : ℕ)
    → (x ≡ 120) ⊎ (x ≡ 88)
    → Reads 16 0 (c ∷ r) n
    → parse_uint (48 ∷ x ∷ c ∷ r) ≡ some n
unfolding parse_uint
hexadecimal_read x c r n (inl e) h = rw e (Reads-parse_from 16 0 (c ∷ r) n h)
hexadecimal_read x c r n (inr e) h = rw e (Reads-parse_from 16 0 (c ∷ r) n h)

decimal_read :
    (c : ℕ) (r : Text) (n : ℕ)
    → 49 ≤ c
    → c ≤ 57
    → Reads 10 0 (c ∷ r) n
    → parse_uint (c ∷ r) ≡ some n
unfolding parse_uint
decimal_read c r n a b h =
    let nonzero : (c == 48) ≡ false = ground arith in
    let first : (leb 49 c && leb c 57) ≡ true = ground arith in
    rw (nonzero, first) (Reads-parse_from 10 0 (c ∷ r) n h)

-- And every numeral is read.
pub Numeral-parse_uint : (s : Text) (n : ℕ) → Numeral s n → parse_uint s ≡ some n
unfolding parse_uint
Numeral-parse_uint s n (Numeral.zero_alone e z) = rw (e, z) refl
Numeral-parse_uint s n (Numeral.octal c r e h) = rw e (octal_read c r n h)
Numeral-parse_uint s n (Numeral.hexadecimal x c r o e h) = rw e (hexadecimal_read x c r n o h)
Numeral-parse_uint s n (Numeral.decimal c r a b e h) = rw e (decimal_read c r n a b h)

-- A numeral has no dot.
abbrev pub NoDot : Text → Type 0
NoDot [] = Unit {0}
NoDot (c ∷ s) = ((c == 46) ≡ false) × NoDot s

Reads-NoDot : (base acc : ℕ) (s : Text) (n : ℕ) → Reads base acc s n → NoDot s
Reads-NoDot base acc [] n h = tt
Reads-NoDot base acc (c ∷ s) n (v, d, b, h) = (not_dot d, Reads-NoDot base (acc * base + v) s n h)
  where
    not_dot : IsDigit c v → (c == 46) ≡ false
    not_dot (inl (k, e)) = ground arith
    not_dot (inr (inl (k, l, e))) = ground arith
    not_dot (inr (inr (k, l, e))) = ground arith

pub Numeral-NoDot : (s : Text) (n : ℕ) → Numeral s n → NoDot s
Numeral-NoDot s n (Numeral.zero_alone e z) = rw e (refl, tt)
Numeral-NoDot s n (Numeral.octal c r e h) = rw e (refl, Reads-NoDot 8 0 (c ∷ r) n h)
Numeral-NoDot s n (Numeral.hexadecimal x c r (inl o) e h) =
    rw (e, o) (refl, (refl, Reads-NoDot 16 0 (c ∷ r) n h))
Numeral-NoDot s n (Numeral.hexadecimal x c r (inr o) e h) =
    rw (e, o) (refl, (refl, Reads-NoDot 16 0 (c ∷ r) n h))
Numeral-NoDot s n (Numeral.decimal c r a b e h) = rw e (Reads-NoDot 10 0 (c ∷ r) n h)
