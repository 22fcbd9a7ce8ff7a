-- ===== src/Ssrf/Addresses.antt =====
-- services/ssrf.ts: IPv4 and IPv6 addresses.
use vaultur.Prelude.{
  ℕ, ◌+◌, ◌-◌, ◌/◌, Bool, true, false, not, ◌==◌, nat_instance, ◌&&◌, ◌||◌, if◌then◌else◌, leb, ltb,
  Option, none, some, List, [], ◌∷◌, ◌++◌,
}
use Prim.Native.Nat.{zero, suc, ◌%◌}
use vaultur.Ssrf.Text.{Text, includes, every, count, split, parse_uint, all_uints, parse_from}

pub record Ipv4 : Type 0 where
  pub o0 : ℕ
  pub o1 : ℕ
  pub o2 : ℕ
  pub o3 : ℕ

-- The four bytes of a 32-bit number.
unfoldable pub octets : ℕ → Ipv4
octets n = record {
  o0 = n / 16777216 % 256;
  o1 = n / 65536 % 256;
  o2 = n / 256 % 256;
  o3 = n % 256;
}

-- The forms of two, three and four numbers.
unfoldable pub of_numbers : List ℕ → Option Ipv4
of_numbers (a ∷ b ∷ c ∷ d ∷ []) =
    if ltb 255 a || ltb 255 b || ltb 255 c || ltb 255 d
    then none
    else some (record { o0 = a; o1 = b; o2 = c; o3 = d })
of_numbers (a ∷ b ∷ c ∷ []) =
    if ltb 255 a || ltb 255 b || ltb 65535 c
    then none
    else some (record { o0 = a; o1 = b; o2 = c / 256 % 256; o3 = c % 256 })
of_numbers (a ∷ b ∷ []) =
    if ltb 255 a || ltb 16777215 b
    then none
    else some (record { o0 = a; o1 = b / 65536 % 256; o2 = b / 256 % 256; o3 = b % 256 })
of_numbers _ = none

unfoldable pub parse_dotted : List Text → Option Ipv4
parse_dotted parts = elim (all_uints parts) [ none ↦ none | some ns ↦ of_numbers ns ]

unfoldable pub of_single : Option ℕ → Text → Option Ipv4
of_single none s = parse_dotted (split 46 s)
of_single (some n) s =
    if includes 46 s
    then parse_dotted (split 46 s)
    else if ltb 4294967295 n
    then none
    else some (octets n)

-- `parseToIpv4`, of a text that is trimmed
unfoldable pub parse_to_ipv4 : Text → Option Ipv4
parse_to_ipv4 s = of_single (parse_uint s) s

-- `isGlobalIpv4`
unfoldable pub is_global_ipv4 : Ipv4 → Bool
is_global_ipv4 o =
    not (o.o0 == 0)
    && (not (o.o0 == 10)
        && (not (o.o0 == 127)
            && (not (o.o0 == 169 && o.o1 == 254)
                && (not (o.o0 == 172 && (leb 16 o.o1 && leb o.o1 31))
                    && (not (o.o0 == 192 && o.o1 == 168)
                        && (not (o.o0 == 192 && (o.o1 == 0 && o.o2 == 0))
                            && (not (o.o0 == 100 && (leb 64 o.o1 && leb o.o1 127))
                                && (not (o.o0 == 198 && (o.o1 == 18 || o.o1 == 19))
                                    && (not (leb 224 o.o0)
                                        && not (o.o0 == 255 && o.o1 == 255))))))))))

-- The groups of a half, each of one to four hexadecimal digits.
unfoldable pub parse_groups : List Text → Option (List ℕ)
parse_groups [] = some []
parse_groups (s ∷ ss) =
    let rest = parse_groups ss in
    if leb 1 (count s) && leb (count s) 4
    then elim (parse_from 16 0 s) [
      | none ↦ none
      | some n ↦ elim rest [ none ↦ none | some ns ↦ some (n ∷ ns) ]
    ]
    else none

unfoldable pub parse_half : Text → Option (List ℕ)
parse_half [] = some []
parse_half (c ∷ s) = parse_groups (split 58 (c ∷ s))

unfoldable pub zeros : ℕ → List ℕ
zeros zero = []
zeros (suc n) = 0 ∷ zeros n

unfoldable pub exactly_eight : List ℕ → Option (List ℕ)
exactly_eight gs = if count gs == 8 then some gs else none

-- Two halves around `::`, filled up with zeros.
unfoldable pub join_halves : List ℕ → List ℕ → Option (List ℕ)
join_halves head rest =
    if ltb 8 (count head + count rest)
    then none
    else exactly_eight (head ++ (zeros (8 - count head - count rest) ++ rest))

abbrev are_zero : List ℕ → Bool
are_zero gs = every (λ g. g == 0) gs

abbrev pub embedded : ℕ → ℕ → Ipv4
embedded g6 g7 = record { o0 = g6 / 256 % 256; o1 = g6 % 256; o2 = g7 / 256 % 256; o3 = g7 % 256 }

-- `isGlobalIpv6`, of eight groups of 16 bits
unfoldable pub is_global_ipv6 : List ℕ → Bool
is_global_ipv6 (g0 ∷ g1 ∷ g2 ∷ g3 ∷ g4 ∷ g5 ∷ g6 ∷ g7 ∷ []) =
    if are_zero (g0 ∷ g1 ∷ g2 ∷ g3 ∷ g4 ∷ g5 ∷ g6 ∷ []) && leb g7 1
    then false
    else if g0 / 512 == 126
    then false
    else if g0 / 64 == 1018
    then false
    else if are_zero (g0 ∷ g1 ∷ g2 ∷ g3 ∷ g4 ∷ []) && g5 == 65535
    then is_global_ipv4 (embedded g6 g7)
    else true
is_global_ipv6 _ = true
