-- ===== src/Ssrf/Hosts.antt =====
-- services/ssrf.ts: `expandIpv6` and `getSafeHost`. A host is a text of code units that `trim` and
-- `toLowerCase` have gone over; the part behind the last colon of an IPv6 literal is trimmed again.
use Prim.Native.Nat.{◌%◌}
use vaultur.Prelude.{
  ℕ, ◌+◌, ◌*◌, ◌/◌, Bool, true, false, not, ◌==◌, nat_instance, ◌&&◌, ◌||◌, if◌then◌else◌, leb, ltb,
  Option, none, some, List, [], ◌∷◌, ◌++◌,
}
use vaultur.Prelude.Table.{any}
use vaultur.Ssrf.Text.{Text, includes, every, count, equals, ends_with, split, is_digit, is_lower}
use vaultur.Ssrf.Addresses.{
  Ipv4, parse_to_ipv4, is_global_ipv4, parse_half, join_halves, exactly_eight, is_global_ipv6,
}

-- `toString(16)` of a number of 16 bits
abbrev hex_digit : ℕ → ℕ
hex_digit n = if ltb n 10 then 48 + n else 87 + n

abbrev without_zeros : Text → ℕ → Text
without_zeros [] last = last ∷ []
without_zeros (c ∷ s) last =
    let rest = without_zeros s last in if c == 48 then rest else c ∷ (s ++ (last ∷ []))

unfoldable pub to_hex : ℕ → Text
to_hex n =
    without_zeros
      (hex_digit (n / 4096 % 16) ∷ hex_digit (n / 256 % 16) ∷ hex_digit (n / 16 % 16) ∷ [])
      (hex_digit (n % 16))

-- The text through the last colon, and what is behind it.
unfoldable pub cut_last : Text → Option (Text × Text)
cut_last [] = none
cut_last (c ∷ s) = elim (cut_last s) [
  | some (front, tail) ↦ some (c ∷ front, tail)
  | none ↦ if c == 58 then some (c ∷ [], s) else none
]

abbrev with_ipv4 : Text → Option Ipv4 → Option Text
with_ipv4 front none = none
with_ipv4 front (some o) =
    some (front ++ (to_hex (o.o0 * 256 + o.o1) ++ (58 ∷ to_hex (o.o2 * 256 + o.o3))))

abbrev with_tail : (Text → Text) → Text → Option (Text × Text) → Option Text
with_tail trim s none = none
with_tail trim s (some (front, tail)) =
    if includes 46 tail then with_ipv4 front (parse_to_ipv4 (trim tail)) else some s

abbrev onto : Text → List Text → List Text
onto t [] = t ∷ []
onto t (s ∷ ss) = (t ++ s) ∷ ss

-- `s.split("::")`; the flag says that a colon is waiting for a second one.
unfoldable pub split_double : Bool → Text → List Text
split_double false [] = [] ∷ []
split_double true [] = (58 ∷ []) ∷ []
split_double false (c ∷ s) = elim (c == 58) [
  | true ↦ split_double true s
  | false ↦ onto (c ∷ []) (split_double false s)
]
split_double true (c ∷ s) = elim (c == 58) [
  | true ↦ [] ∷ split_double false s
  | false ↦ onto (58 ∷ c ∷ []) (split_double false s)
]

abbrev both : Option (List ℕ) → Option (List ℕ) → Option (List ℕ)
both (some head) (some rest) = join_halves head rest
both (some _) none = none
both none _ = none

abbrev single : Option (List ℕ) → Option (List ℕ)
single none = none
single (some gs) = exactly_eight gs

abbrev of_halves : List Text → Option (List ℕ)
of_halves (a ∷ b ∷ []) = both (parse_half a) (parse_half b)
of_halves (a ∷ []) = single (parse_half a)
of_halves _ = none

abbrev of_text : Option Text → Option (List ℕ)
of_text none = none
of_text (some s) = of_halves (split_double false s)

-- `slice(0, -1)`
unfoldable pub drop_last : Text → Text
drop_last [] = []
drop_last (c ∷ []) = []
drop_last (c ∷ d ∷ s) = c ∷ drop_last (d ∷ s)

abbrev starts_bracket : Text → Bool
starts_bracket [] = false
starts_bracket (c ∷ s) = c == 91

abbrev tail_of : Text → Text
tail_of [] = []
tail_of (c ∷ s) = s

abbrev unbracketed : Text → Text
unbracketed s = if starts_bracket s && ends_with s (93 ∷ []) then drop_last (tail_of s) else s

-- `expandIpv6`, of a text that is trimmed and in lower case
unfoldable pub expand_ipv6 : (Text → Text) → Text → Option (List ℕ)
expand_ipv6 trim host =
    let s = unbracketed host in
    if includes 58 s then of_text (with_tail trim s (cut_last s)) else none

-- `ParsedHost`; the value of an IPv4 address is its bytes, joined by dots.
pub data ParsedHost : Type 0 where
  ipv4 : Ipv4 → ParsedHost
  ipv6 : Text → ParsedHost
  domain : Text → ParsedHost

-- "localhost" and "metadata.google.internal"
abbrev internal_hosts : List Text
internal_hosts =
    (108 ∷ 111 ∷ 99 ∷ 97 ∷ 108 ∷ 104 ∷ 111 ∷ 115 ∷ 116 ∷ [])
    ∷ (109 ∷ 101 ∷ 116 ∷ 97 ∷ 100 ∷ 97 ∷ 116 ∷ 97 ∷ 46 ∷ 103 ∷ 111 ∷ 111 ∷ 103 ∷ 108 ∷ 101 ∷ 46
        ∷ 105 ∷ 110 ∷ 116 ∷ 101 ∷ 114 ∷ 110 ∷ 97 ∷ 108 ∷ [])
    ∷ []

-- ".local", ".internal", ".localhost" and ".home.arpa"
abbrev internal_suffixes : List Text
internal_suffixes =
    (46 ∷ 108 ∷ 111 ∷ 99 ∷ 97 ∷ 108 ∷ [])
    ∷ (46 ∷ 105 ∷ 110 ∷ 116 ∷ 101 ∷ 114 ∷ 110 ∷ 97 ∷ 108 ∷ [])
    ∷ (46 ∷ 108 ∷ 111 ∷ 99 ∷ 97 ∷ 108 ∷ 104 ∷ 111 ∷ 115 ∷ 116 ∷ [])
    ∷ (46 ∷ 104 ∷ 111 ∷ 109 ∷ 101 ∷ 46 ∷ 97 ∷ 114 ∷ 112 ∷ 97 ∷ [])
    ∷ []

abbrev starts_hyphen : Text → Bool
starts_hyphen [] = false
starts_hyphen (c ∷ s) = c == 45

abbrev is_label : Text → Bool
is_label s =
    leb 1 (count s)
    && leb (count s) 63
    && not (starts_hyphen s || ends_with s (45 ∷ []))
    && every (λ c. is_lower c || (is_digit c || c == 45)) s

unfoldable pub last_label : List Text → Text
last_label [] = []
last_label (s ∷ []) = s
last_label (s ∷ t ∷ ss) = last_label (t ∷ ss)

unfoldable pub is_domain : Text → Bool
is_domain host =
    let labels = split 46 host in
    not (any (λ h. equals h host) internal_hosts)
    && (not (any (ends_with host) internal_suffixes)
        && (leb 2 (count labels)
            && (every is_label labels
                && (leb 2 (count (last_label labels)) && every is_lower (last_label labels)))))

-- `replace(/^\[|\]$/g, "")`
abbrev without_brackets : Text → Text
without_brackets s =
    let t = if starts_bracket s then tail_of s else s in
    if ends_with t (93 ∷ []) then drop_last t else t

abbrev pub of_ipv6 : Text → Option (List ℕ) → Option ParsedHost
of_ipv6 host none = none
of_ipv6 host (some gs) = if is_global_ipv6 gs then some (ipv6 (without_brackets host)) else none

abbrev pub of_ipv4 : Text → Option Ipv4 → Option ParsedHost
of_ipv4 host (some o) = if is_global_ipv4 o then some (ipv4 o) else none
of_ipv4 host none = if is_domain host then some (domain host) else none

-- `getSafeHost`, of a text that is trimmed and in lower case
unfoldable pub get_safe_host : (Text → Text) → Text → Option ParsedHost
get_safe_host trim host =
    if count host == 0 || ltb 253 (count host)
    then none
    else if starts_bracket host || (includes 58 host && not (includes 46 host))
    then of_ipv6 host (expand_ipv6 trim host)
    else of_ipv4 host (parse_to_ipv4 host)
