-- ===== src/Ssrf/Octets.antt =====
-- An IPv4 address as four bytes and as a number, and the numbers that it is made of.
use vaultur.Prelude.{
  ℕ, ◌+◌, ◌*◌, ◌/◌, ◌%◌, ◌≤◌, ◌<◌, false, ◌≡◌, refl, subst, ap, ◌∙◌, nat_instance, ◌||◌, ltb, some,
  List, [], ◌∷◌, arith, Bool-cases, inl, inr,
}
use vaultur.Ssrf.Addresses.{Ipv4, octets, of_numbers}

pub record IsBytes (o : Ipv4) : Type 0 where
  pub b0 : o.o0 < 256
  pub b1 : o.o1 < 256
  pub b2 : o.o2 < 256
  pub b3 : o.o3 < 256

-- The 32-bit number of an address.
abbrev pub address : Ipv4 → ℕ
address o = o.o0 * 16777216 + o.o1 * 65536 + o.o2 * 256 + o.o3

pub octets-address : (n : ℕ) → n ≤ 4294967295 → address (octets n) ≡ n
unfolding octets
octets-address n h = omega arith

pub octets-IsBytes : (n : ℕ) → IsBytes (octets n)
unfolding octets
octets-IsBytes n = record { b0 = omega arith; b1 = omega arith; b2 = omega arith; b3 = omega arith }

-- What the forms of two, three and four numbers stand for: the last number fills the bytes that are left.
abbrev pub dotted_value : List ℕ → ℕ
dotted_value (a ∷ b ∷ []) = a * 16777216 + b
dotted_value (a ∷ b ∷ c ∷ []) = a * 16777216 + b * 65536 + c
dotted_value (a ∷ b ∷ c ∷ d ∷ []) = a * 16777216 + b * 65536 + c * 256 + d
dotted_value _ = 0

-- The forms of two, three and four numbers, each with its bounds.
pub data Fits : List ℕ → Type 0 where
  two : {a b : ℕ} → a ≤ 255 → b ≤ 16777215 → Fits (a ∷ b ∷ [])
  three : {a b c : ℕ} → a ≤ 255 → b ≤ 255 → c ≤ 65535 → Fits (a ∷ b ∷ c ∷ [])
  four : {a b c d : ℕ} → a ≤ 255 → b ≤ 255 → c ≤ 255 → d ≤ 255 → Fits (a ∷ b ∷ c ∷ d ∷ [])

-- The address of four bytes whose number is `n`.
abbrev pub Is : ℕ → Ipv4 → Type 0
Is n o = IsBytes o × (address o ≡ n)

some_value : {n : ℕ} {o p : Ipv4} → Is n o → some o ≡ some p → Is n p
some_value {n} {o} {p} h e = subst (Is n) (ground (arith, e)) h

pub address_unique : (n : ℕ) (o p : Ipv4) → Is n o → Is n p → o ≡ p
address_unique n o p (b, e) (c, f) =
    let d0 : o.o0 ≡ p.o0 = omega (arith, e, f, b.b1, b.b2, b.b3, c.b1, c.b2, c.b3) in
    let d1 : o.o1 ≡ p.o1 = omega (arith, e, f, d0, b.b2, b.b3, c.b2, c.b3) in
    let d2 : o.o2 ≡ p.o2 = omega (arith, e, f, d0, d1, b.b3, c.b3) in
    let d3 : o.o3 ≡ p.o3 = omega (arith, e, f, d0, d1, d2) in
    λ i. record { o0 = d0 i; o1 = d1 i; o2 = d2 i; o3 = d3 i }

two_numbers :
    (a b : ℕ) {o : Ipv4}
    → of_numbers (a ∷ b ∷ []) ≡ some o
    → Fits (a ∷ b ∷ []) × Is (a * 16777216 + b) o
unfolding of_numbers
two_numbers a b {o} h = elim (Bool-cases (ltb 255 a || ltb 16777215 b)) [
  | inl k ↦ absurd (let q = rw k at h in cc)
  | inr k ↦
      let w : b ≤ 16777215 = ground arith in
      (
        Fits.two (ground arith) w,
        some_value
            (
              record { b0 = ground arith; b1 = omega arith; b2 = omega arith; b3 = omega arith },
              omega (arith, w),
            )
            (let q = rw k at h in q),
      )
]

three_numbers :
    (a b c : ℕ) {o : Ipv4}
    → of_numbers (a ∷ b ∷ c ∷ []) ≡ some o
    → Fits (a ∷ b ∷ c ∷ []) × Is (a * 16777216 + b * 65536 + c) o
unfolding of_numbers
three_numbers a b c {o} h = elim (Bool-cases (ltb 255 a || ltb 255 b || ltb 65535 c)) [
  | inl k ↦ absurd (let q = rw k at h in cc)
  | inr k ↦
      let w : c ≤ 65535 = ground arith in
      (
        Fits.three (ground arith) (ground arith) w,
        some_value
            (
              record { b0 = ground arith; b1 = ground arith; b2 = omega arith; b3 = omega arith },
              omega (arith, w),
            )
            (let q = rw k at h in q),
      )
]

four_numbers :
    (a b c d : ℕ) {o : Ipv4}
    → of_numbers (a ∷ b ∷ c ∷ d ∷ []) ≡ some o
    → Fits (a ∷ b ∷ c ∷ d ∷ []) × Is (a * 16777216 + b * 65536 + c * 256 + d) o
unfolding of_numbers
four_numbers a b c d {o} h = elim (Bool-cases (ltb 255 a || ltb 255 b || ltb 255 c || ltb 255 d)) [
  | inl k ↦ absurd (let q = rw k at h in cc)
  | inr k ↦ (
    Fits.four (ground arith) (ground arith) (ground arith) (ground arith),
    some_value
        (
          record { b0 = ground arith; b1 = ground arith; b2 = ground arith; b3 = ground arith },
          refl,
        )
        (let q = rw k at h in q),
  )
]

pub of_numbers-Is :
    (ns : List ℕ) {o : Ipv4} → of_numbers ns ≡ some o → Fits ns × Is (dotted_value ns) o
unfolding of_numbers
of_numbers-Is [] h = absurd (cc)
of_numbers-Is (a ∷ []) h = absurd (cc)
of_numbers-Is (a ∷ b ∷ []) h = two_numbers a b h
of_numbers-Is (a ∷ b ∷ c ∷ []) h = three_numbers a b c h
of_numbers-Is (a ∷ b ∷ c ∷ d ∷ []) h = four_numbers a b c d h
of_numbers-Is (a ∷ b ∷ c ∷ d ∷ e ∷ ns) h = absurd (cc)

-- Numbers within their bounds always make an address.
Fits-of_numbers : (ns : List ℕ) → Fits ns → (o : Ipv4) × (of_numbers ns ≡ some o)
unfolding of_numbers
Fits-of_numbers [] x = elim x [ ]
Fits-of_numbers (a ∷ []) x = elim x [ ]
Fits-of_numbers (a ∷ b ∷ c ∷ d ∷ e ∷ ns) x = elim x [ ]
Fits-of_numbers (a ∷ b ∷ []) (Fits.two h k) =
    let t : (ltb 255 a || ltb 16777215 b) ≡ false = ground arith in
    (record { o0 = a; o1 = b / 65536 % 256; o2 = b / 256 % 256; o3 = b % 256 }, rw t refl)
Fits-of_numbers (a ∷ b ∷ c ∷ []) (Fits.three h k l) =
    let t : (ltb 255 a || ltb 255 b || ltb 65535 c) ≡ false = ground arith in
    (record { o0 = a; o1 = b; o2 = c / 256 % 256; o3 = c % 256 }, rw t refl)
Fits-of_numbers (a ∷ b ∷ c ∷ d ∷ []) (Fits.four h k l m) =
    let t : (ltb 255 a || ltb 255 b || ltb 255 c || ltb 255 d) ≡ false = ground arith in
    (record { o0 = a; o1 = b; o2 = c; o3 = d }, rw t refl)

pub of_numbers-eq :
    (ns : List ℕ) (o : Ipv4) → Fits ns → Is (dotted_value ns) o → of_numbers ns ≡ some o
of_numbers-eq ns o f h =
    let (p, e) = Fits-of_numbers ns f in
    let (_, k) = of_numbers-Is ns e in e ∙ ap some (address_unique (dotted_value ns) p o k h)
