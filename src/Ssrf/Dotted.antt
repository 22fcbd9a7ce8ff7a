-- ===== src/Ssrf/Dotted.antt =====
-- Numerals between dots: `s.split(".")` of services/ssrf.ts against the text that the parts make.
use vaultur.Prelude.{
  ℕ, false, ◌≡◌, refl, sym, ap, subst, ◌∙◌, inl, inr, arith, ◌==◌, nat_instance, some, Option-cases,
  Bool-cases, List, [], ◌∷◌, ◌++◌,
}
use vaultur.Prelude.Table.{any}
use vaultur.Ssrf.Text.{Text, includes, split, parse_uint, all_uints}
use vaultur.Ssrf.Numerals.{Numeral, NoDot, parse_uint-Numeral, Numeral-parse_uint, Numeral-NoDot}

-- Parts with a dot between any two.
abbrev pub join : List Text → Text
join [] = []
join (p ∷ []) = p
join (p ∷ q ∷ ps) = p ++ (46 ∷ join (q ∷ ps))

-- Each part is the numeral of its number.
pub data Numerals : List Text → List ℕ → Type 0 where
  end : Numerals [] []
  part :
      {s : Text} {n : ℕ} {ss : List Text} {ns : List ℕ}
      → Numeral s n
      → Numerals ss ns
      → Numerals (s ∷ ss) (n ∷ ns)

pub all_uints-Numerals : (ss : List Text) (ns : List ℕ) → all_uints ss ≡ some ns → Numerals ss ns
unfolding all_uints
all_uints-Numerals [] [] h = Numerals.end
all_uints-Numerals [] (n ∷ ns) h = absurd (cc)
all_uints-Numerals (s ∷ ss) ns h = elim (Option-cases (parse_uint s)) [
  | inl e ↦ absurd (let q = rw (e, all_uints) at h in cc)
  | inr (n, e) ↦ elim (Option-cases (all_uints ss)) [
    | inl f ↦ absurd (let q = rw (e, all_uints, f) at h in cc)
    | inr (ms, f) ↦
        let same : (n ∷ ms) ≡ ns = (let q = rw (e, all_uints, f) at h in ground (arith, q)) in
        subst (Numerals (s ∷ ss)) same
          (Numerals.part (parse_uint-Numeral s n e) (all_uints-Numerals ss ms f))
  ]
]

pub Numerals-all_uints : (ss : List Text) (ns : List ℕ) → Numerals ss ns → all_uints ss ≡ some ns
unfolding all_uints
Numerals-all_uints [] [] Numerals.end = refl
Numerals-all_uints [] (n ∷ ns) x = elim x [ ]
Numerals-all_uints (s ∷ ss) [] x = elim x [ ]
Numerals-all_uints (s ∷ ss) (n ∷ ns) (Numerals.part h hs) =
    rw (Numeral-parse_uint s n h, all_uints, Numerals-all_uints ss ns hs) refl

-- The parts that the code splits a text into make the text again.
join-cons : (c : ℕ) (p : Text) (ps : List Text) → join ((c ∷ p) ∷ ps) ≡ c ∷ join (p ∷ ps)
join-cons c p [] = refl
join-cons c p (q ∷ ps) = refl

split-cases : (s : Text) → (p : Text) × (ps : List Text) × (split 46 s ≡ p ∷ ps)
unfolding split
split-cases [] = ([], [], refl)
split-cases (c ∷ s) = elim (Bool-cases (c == 46)) [
  | inl k ↦ ([], split 46 s, rw k refl)
  | inr k ↦ let (p, ps, e) = split-cases s in (c ∷ p, ps, rw (k, e) refl)
]

pub join-split : (s : Text) → join (split 46 s) ≡ s
unfolding split
join-split [] = refl
join-split (c ∷ s) =
    let (p, ps, e) = split-cases s in
    let back : join (p ∷ ps) ≡ s = ap join (sym e) ∙ join-split s in
    elim (Bool-cases (c == 46)) [
      | inl k ↦
          let dot : c ≡ 46 = ground arith in
          rw (k, e) (ap (λ t. 46 ∷ t) back ∙ ap (λ x. x ∷ s) (sym dot))
      | inr k ↦ rw (k, e) (join-cons c p ps ∙ ap (λ t. c ∷ t) back)
    ]

pub split-part : (p : Text) → NoDot p → split 46 p ≡ p ∷ []
unfolding split
split-part [] h = refl
split-part (c ∷ p) (k, h) = rw (k, split-part p h) refl

split-first : (p t : Text) → NoDot p → split 46 (p ++ (46 ∷ t)) ≡ p ∷ split 46 t
unfolding split
split-first [] t h = refl
split-first (c ∷ p) t (k, h) = rw (k, split-first p t h) refl

-- Numerals between dots are split into themselves.
pub split-join :
    (p : Text) (ps : List Text) (ns : List ℕ)
    → Numerals (p ∷ ps) ns
    → split 46 (join (p ∷ ps)) ≡ p ∷ ps
split-join p [] [] x = elim x [ ]
split-join p [] (n ∷ ns) (Numerals.part h hs) = split-part p (Numeral-NoDot p n h)
split-join p (q ∷ ps) [] x = elim x [ ]
split-join p (q ∷ ps) (n ∷ ns) (Numerals.part h hs) =
    split-first p (join (q ∷ ps)) (Numeral-NoDot p n h) ∙ ap (λ r. p ∷ r) (split-join q ps ns hs)

pub NoDot-includes : (s : Text) → NoDot s → includes 46 s ≡ false
unfolding any
NoDot-includes [] h = refl
NoDot-includes (c ∷ s) (k, h) = rw (k, NoDot-includes s h) refl
