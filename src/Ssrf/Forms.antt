-- ===== src/Ssrf/Forms.antt =====
-- services/ssrf.ts: the forms of an IPv4 address, and `parseToIpv4` against them.
use vaultur.Prelude.{
  ℕ, ◌≤◌, ◌≡◌, refl, sym, subst, ap, ◌∙◌, ◌↔◌, nat_instance, ltb, none, some, List, [], ◌∷◌, arith,
  Bool-cases, Option-cases, ◌⊎◌, inl, inr,
}
use vaultur.Ssrf.Text.{Text, split, parse_uint, all_uints}
use vaultur.Ssrf.Addresses.{Ipv4, octets, of_numbers, parse_dotted, of_single, parse_to_ipv4}
use vaultur.Ssrf.Numerals.{Numeral, parse_uint-Numeral, Numeral-parse_uint, Numeral-NoDot}
use vaultur.Ssrf.Dotted.{
  join, Numerals, all_uints-Numerals, Numerals-all_uints, join-split, split-join, split-part,
  NoDot-includes,
}
use vaultur.Ssrf.Octets.{
  IsBytes, Fits, address, dotted_value, address_unique, octets-address, octets-IsBytes,
  of_numbers-Is, of_numbers-eq,
}

-- A text of two to four numerals between dots, and the number that it stands for.
pub record IsDotted (s : Text) (n : ℕ) : Type 0 where
  pub parts : List Text
  pub numbers : List ℕ
  pub joined : s ≡ join parts
  pub numerals : Numerals parts numbers
  pub fits : Fits numbers
  pub value : n ≡ dotted_value numbers

-- What a text stands for, as `inet_aton` of C reads it: one numeral of at most 32 bits, or numerals
-- between dots.
abbrev pub Stands : Text → ℕ → Type 0
Stands s n = (Numeral s n × (n ≤ 4294967295)) ⊎ IsDotted s n

parse_dotted-IsDotted :
    (s : Text) (o : Ipv4) → parse_dotted (split 46 s) ≡ some o → IsBytes o × IsDotted s (address o)
unfolding parse_dotted
parse_dotted-IsDotted s o h = elim (Option-cases (all_uints (split 46 s))) [
  | inl e ↦ absurd (let q = rw (e, parse_dotted) at h in cc)
  | inr (ns, e) ↦
      let (fits, (bytes, value)) = of_numbers-Is ns (let q = rw (e, parse_dotted) at h in q) in
      (
        bytes,
        record {
          parts = split 46 s;
          numbers = ns;
          joined = sym (join-split s);
          numerals = all_uints-Numerals (split 46 s) ns e;
          fits = fits;
          value = value;
        },
      )
]

dotted-parts : (ps : List Text) (ns : List ℕ) → Numerals ps ns → Fits ns → split 46 (join ps) ≡ ps
dotted-parts [] [] h f = elim f [ ]
dotted-parts [] (n ∷ ns) h f = elim h [ ]
dotted-parts (p ∷ ps) ns h f = split-join p ps ns h

IsDotted-parse_dotted :
    (s : Text) (o : Ipv4) → IsBytes o → IsDotted s (address o) → parse_dotted (split 46 s) ≡ some o
unfolding parse_dotted
IsDotted-parse_dotted s o bytes d =
    let same : split 46 s ≡ d.parts =
      ap (split 46) d.joined ∙ dotted-parts d.parts d.numbers d.numerals d.fits in
    let read = Numerals-all_uints d.parts d.numbers d.numerals in
    rw (same, parse_dotted, read) (of_numbers-eq d.numbers o d.fits (bytes, d.value))

-- One numeral is no dotted form.
numeral_alone :
    (s : Text) (n : ℕ) (o : Ipv4)
    → parse_uint s ≡ some n
    → parse_dotted (split 46 s) ≡ some o
    → (n ≤ 4294967295) × (o ≡ octets n)
unfolding parse_dotted all_uints of_numbers
numeral_alone s n o e h =
    let alone = split-part s (Numeral-NoDot s n (parse_uint-Numeral s n e)) in
    absurd (let q = rw (alone, parse_dotted, all_uints, e) at h in cc)

-- A text that is one numeral is read as the address of its number, if that has at most 32 bits.
whole :
    (s : Text) (n : ℕ) (o : Ipv4)
    → parse_uint s ≡ some n
    → (parse_to_ipv4 s ≡ some o) ↔ ((n ≤ 4294967295) × (o ≡ octets n))
unfolding parse_to_ipv4 of_single
whole s n o e =
    let plain = NoDot-includes s (Numeral-NoDot s n (parse_uint-Numeral s n e)) in
    elim (Bool-cases (ltb 4294967295 n)) [
      | inl l ↦ rw (e, of_single, plain, l) (λ h. absurd (cc), λ (h, _). absurd (ground arith))
      | inr l ↦
          rw (e, of_single, plain, l)
            (λ h. (ground arith, ground (arith, h)), λ (h, k). ap some (sym k))
    ]

dotted : (s : Text) → parse_uint s ≡ none → parse_to_ipv4 s ≡ parse_dotted (split 46 s)
unfolding parse_to_ipv4 of_single
dotted s e = rw (e, of_single) refl

-- A text is read as an IPv4 address exactly if the address is four bytes and the text stands for their
-- 32-bit number: as one decimal, octal or hexadecimal numeral of at most 32 bits, or as two to four of
-- them between dots, each within its bounds and the last one filling the bytes that are left.
pub parse_to_ipv4-Stands :
    (s : Text) (o : Ipv4) → (parse_to_ipv4 s ≡ some o) ↔ (IsBytes o × Stands s (address o))
parse_to_ipv4-Stands s o = elim (Option-cases (parse_uint s)) [
  | inl e ↦ (
    (λ h. let (b, d) = parse_dotted-IsDotted s o (sym (dotted s e) ∙ h) in (b, inr d)),
    λ (b, t). elim t [
      | inl (m, _) ↦ absurd (let k = Numeral-parse_uint s (address o) m in cc)
      | inr d ↦ dotted s e ∙ IsDotted-parse_dotted s o b d
    ],
  )
  | inr (n, e) ↦ (
    (λ h.
        let (small, same) = (whole s n o e).0 h in
        subst (λ p. IsBytes p × Stands s (address p)) (sym same)
          (
            octets-IsBytes n,
            inl (
              subst (Numeral s) (sym (octets-address n small)) (parse_uint-Numeral s n e),
              subst (λ k. k ≤ 4294967295) (sym (octets-address n small)) small,
            ),
          )),
    λ (b, t). (whole s n o e).1 (elim t [
      | inr d ↦ numeral_alone s n o e (IsDotted-parse_dotted s o b d)
      | inl (m, small) ↦
          let same : address o ≡ n =
            (let k = sym (Numeral-parse_uint s (address o) m) ∙ e in ground (arith, k)) in
          let below : n ≤ 4294967295 = subst (λ k. k ≤ 4294967295) same small in
          (
            below,
            address_unique n o (octets n) (b, same) (octets-IsBytes n, octets-address n below),
          )
    ]),
  )
]
