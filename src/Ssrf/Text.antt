-- ===== src/Ssrf/Text.antt =====
-- services/ssrf.ts: the text that a host is parsed from, and `parseUint`.
use vaultur.Prelude.{
  ℕ, ◌+◌, ◌*◌, ◌-◌, Bool, true, false, ◌==◌, nat_instance, ◌&&◌, ◌||◌, if◌then◌else◌, leb, Option,
  none, some, List, [], ◌∷◌,
}
use vaultur.Prelude.Table.{any}

-- A text as its code units.
abbrev pub Text : Type 0
Text = List ℕ

abbrev pub includes : ℕ → Text → Bool
includes c s = any (λ x. x == c) s

unfoldable pub every : {A : Type 0} → (A → Bool) → List A → Bool
every p [] = true
every p (x ∷ xs) = p x && every p xs

unfoldable pub count : {A : Type 0} → List A → ℕ
count [] = 0
count (x ∷ xs) = 1 + count xs

unfoldable pub equals : Text → Text → Bool
equals [] [] = true
equals [] (_ ∷ _) = false
equals (_ ∷ _) [] = false
equals (a ∷ s) (b ∷ t) = a == b && equals s t

unfoldable pub ends_with : Text → Text → Bool
ends_with [] suffix = equals [] suffix
ends_with (c ∷ s) suffix = equals (c ∷ s) suffix || ends_with s suffix

abbrev add_to_first : ℕ → List Text → List Text
add_to_first c [] = (c ∷ []) ∷ []
add_to_first c (s ∷ ss) = (c ∷ s) ∷ ss

-- `s.split(c)`, for one character
unfoldable pub split : ℕ → Text → List Text
split sep [] = [] ∷ []
split sep (c ∷ s) = let rest = split sep s in if c == sep then [] ∷ rest else add_to_first c rest

abbrev is_between : ℕ → ℕ → ℕ → Bool
is_between low high c = leb low c && leb c high

abbrev pub is_digit : ℕ → Bool
is_digit c = is_between 48 57 c

abbrev pub is_lower : ℕ → Bool
is_lower c = is_between 97 122 c

-- The value of a hexadecimal digit; 16 for any other character.
unfoldable pub digit_value : ℕ → ℕ
digit_value c =
    if is_digit c
    then c - 48
    else if is_between 97 102 c
    then c - 87
    else if is_between 65 70 c
    then c - 55
    else 16

-- The digits of the base, and nothing else, after a value that was read already.
unfoldable pub parse_from : ℕ → ℕ → Text → Option ℕ
parse_from base acc [] = some acc
parse_from base acc (c ∷ s) =
    let rest = parse_from base (acc * base + digit_value c) s in
    if leb base (digit_value c) then none else rest

abbrev parse_hex : Text → Option ℕ
parse_hex [] = none
parse_hex (c ∷ s) = parse_from 16 0 (c ∷ s)

-- After a leading zero: `0x…`, `0` alone, or octal digits.
abbrev after_zero : Text → Option ℕ
after_zero [] = some 0
after_zero (c ∷ s) = if c == 120 || c == 88 then parse_hex s else parse_from 8 0 (c ∷ s)

-- `parseUint`. A number above 2^53 is exact here and rounded in the code, on either side above all the
-- bounds that it is compared with.
unfoldable pub parse_uint : Text → Option ℕ
parse_uint [] = none
parse_uint (c ∷ s) =
    if c == 48 then after_zero s else if is_between 49 57 c then parse_from 10 0 (c ∷ s) else none

unfoldable pub all_uints : List Text → Option (List ℕ)
all_uints [] = some []
all_uints (s ∷ ss) = elim (parse_uint s) [
  | none ↦ none
  | some n ↦ elim (all_uints ss) [ none ↦ none | some ns ↦ some (n ∷ ns) ]
]
