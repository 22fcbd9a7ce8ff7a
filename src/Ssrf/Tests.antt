-- ===== src/Ssrf/Tests.antt =====
-- Addresses in several of their forms.
use vaultur.Prelude.{◌↔◌, ◌+◌, ◌*◌, ◌<◌, false, not, ◌≡◌, refl, none, some, [], ◌∷◌, arith}
use vaultur.Prelude.Table.{any}
use vaultur.Ssrf.Text.{
  Text, split, parse_uint, parse_from, all_uints, digit_value, count, equals, ends_with, every,
}
use vaultur.Ssrf.Addresses.{
  Ipv4, octets, of_single, parse_dotted, of_numbers, parse_to_ipv4, is_global_ipv4, is_global_ipv6,
  parse_half, parse_groups, join_halves, zeros, exactly_eight,
}
use vaultur.Ssrf.Hosts.{
  ipv4, ipv6, get_safe_host, expand_ipv6, cut_last, split_double, drop_last, to_hex,
}
use vaultur.Ssrf.Octets.{IsBytes, address}
use vaultur.Ssrf.Forms.{Stands, parse_to_ipv4-Stands}
use vaultur.Ssrf.Mapped.{get_safe_host-mapped}
use vaultur.Ssrf.Blocks.{is_reserved, is_global_ipv4-is_reserved, get_safe_host-ipv4}

abbrev trim : Text → Text
trim s = s

-- "0x7f.1", a form of 127.0.0.1
abbrev loopback : Text
loopback = 48 ∷ 120 ∷ 55 ∷ 102 ∷ 46 ∷ 49 ∷ []

abbrev local : Ipv4
local = record { o0 = 127; o1 = 0; o2 = 0; o3 = 1 }

loopback_parsed : parse_to_ipv4 loopback ≡ some local
unfolding parse_to_ipv4 of_single parse_uint parse_from digit_value parse_dotted split all_uints
    of_numbers
loopback_parsed = refl

parse_to_ipv4-Stands_example :
    (parse_to_ipv4 loopback ≡ some local) ↔ (IsBytes local × Stands loopback (address local))
parse_to_ipv4-Stands_example = parse_to_ipv4-Stands loopback local

loopback_refused : get_safe_host trim loopback ≡ none
unfolding get_safe_host parse_to_ipv4 of_single parse_uint parse_from digit_value parse_dotted split
    all_uints of_numbers count any is_global_ipv4
loopback_refused = refl

local-IsBytes : IsBytes local
local-IsBytes = record { b0 = omega arith; b1 = omega arith; b2 = omega arith; b3 = omega arith }

is_global_ipv4-is_reserved_example : is_global_ipv4 local ≡ not (is_reserved (address local))
is_global_ipv4-is_reserved_example = is_global_ipv4-is_reserved local local-IsBytes

-- "134744072", the single number of 8.8.8.8
abbrev number : Text
number = 49 ∷ 51 ∷ 52 ∷ 55 ∷ 52 ∷ 52 ∷ 48 ∷ 55 ∷ 50 ∷ []

abbrev resolver : Ipv4
resolver = record { o0 = 8; o1 = 8; o2 = 8; o3 = 8 }

number_safe : get_safe_host trim number ≡ some (ipv4 resolver)
unfolding get_safe_host parse_to_ipv4 of_single parse_uint parse_from digit_value octets count any
    is_global_ipv4
number_safe = refl

get_safe_host-ipv4_example :
    (parse_to_ipv4 number ≡ some resolver)
    × IsBytes resolver
    × (is_reserved (address resolver) ≡ false)
get_safe_host-ipv4_example = get_safe_host-ipv4 trim number resolver number_safe

-- "::ffff:127.0.0.1" in brackets
abbrev mapped : Text
mapped =
    91 ∷ 58 ∷ 58 ∷ 102 ∷ 102 ∷ 102 ∷ 102 ∷ 58 ∷ 49 ∷ 50 ∷ 55 ∷ 46 ∷ 48 ∷ 46 ∷ 48 ∷ 46 ∷ 49 ∷ 93 ∷ []

mapped_expanded : expand_ipv6 trim mapped ≡ some (0 ∷ 0 ∷ 0 ∷ 0 ∷ 0 ∷ 65535 ∷ 32512 ∷ 1 ∷ [])
unfolding expand_ipv6 drop_last ends_with equals any cut_last parse_to_ipv4 of_single parse_uint
    parse_from digit_value parse_dotted split all_uints of_numbers to_hex split_double parse_half
    parse_groups count join_halves zeros exactly_eight
mapped_expanded = refl

mapped_refused : get_safe_host trim mapped ≡ none
unfolding get_safe_host is_global_ipv6 is_global_ipv4 every expand_ipv6 drop_last ends_with equals
    any cut_last parse_to_ipv4 of_single parse_uint parse_from digit_value parse_dotted split
    all_uints of_numbers to_hex split_double parse_half parse_groups count join_halves zeros
    exactly_eight
mapped_refused = refl

-- "::ffff:8.8.8.8" in brackets
abbrev mapped_resolver : Text
mapped_resolver =
    91 ∷ 58 ∷ 58 ∷ 102 ∷ 102 ∷ 102 ∷ 102 ∷ 58 ∷ 56 ∷ 46 ∷ 56 ∷ 46 ∷ 56 ∷ 46 ∷ 56 ∷ 93 ∷ []

abbrev inner : Text
inner = 58 ∷ 58 ∷ 102 ∷ 102 ∷ 102 ∷ 102 ∷ 58 ∷ 56 ∷ 46 ∷ 56 ∷ 46 ∷ 56 ∷ 46 ∷ 56 ∷ []

resolver_expanded :
    expand_ipv6 trim mapped_resolver ≡ some (0 ∷ 0 ∷ 0 ∷ 0 ∷ 0 ∷ 65535 ∷ 2056 ∷ 2056 ∷ [])
unfolding expand_ipv6 drop_last ends_with equals any cut_last parse_to_ipv4 of_single parse_uint
    parse_from digit_value parse_dotted split all_uints of_numbers to_hex split_double parse_half
    parse_groups count join_halves zeros exactly_eight
resolver_expanded = refl

resolver_safe : get_safe_host trim mapped_resolver ≡ some (ipv6 inner)
unfolding get_safe_host is_global_ipv6 is_global_ipv4 every expand_ipv6 drop_last ends_with equals
    any cut_last parse_to_ipv4 of_single parse_uint parse_from digit_value parse_dotted split
    all_uints of_numbers to_hex split_double parse_half parse_groups count join_halves zeros
    exactly_eight
resolver_safe = refl

below : 2056 < 65536
below = omega arith

get_safe_host-mapped_example : is_reserved (2056 * 65536 + 2056) ≡ false
get_safe_host-mapped_example =
    get_safe_host-mapped trim mapped_resolver inner 2056 2056 resolver_safe resolver_expanded below
      below
