-- ===== src/Ssrf/Mapped.antt =====
-- IPv4 addresses that are written as IPv6 literals.
use vaultur.Prelude.{
  ℕ, ◌+◌, ◌*◌, ◌<◌, true, false, ◌≡◌, ◌≢◌, subst, nat_instance, Option, none, some, List, [], ◌∷◌,
  arith, Bool-cases, inl, inr,
}
use vaultur.Ssrf.Text.{Text, every}
use vaultur.Ssrf.Addresses.{Ipv4, is_global_ipv4, is_global_ipv6, embedded}
use vaultur.Ssrf.Hosts.{get_safe_host, expand_ipv6, of_ipv6, of_ipv4, ipv6}
use vaultur.Ssrf.Octets.{address}
use vaultur.Ssrf.Blocks.{is_reserved, is_global_ipv4-is_reserved}

of_ipv6-global :
    (host value : Text) (found : Option (List ℕ)) (groups : List ℕ)
    → of_ipv6 host found ≡ some (ipv6 value)
    → found ≡ some groups
    → is_global_ipv6 groups ≡ true
of_ipv6-global host value none groups h e = absurd (cc)
of_ipv6-global host value (some x) groups h e = elim (Bool-cases (is_global_ipv6 x)) [
  | inr k ↦ absurd (let q = rw k at h in cc)
  | inl k ↦ subst (λ y. is_global_ipv6 y ≡ true) (ground (arith, e)) k
]

of_ipv4-no_ipv6 : (host value : Text) (found : Option Ipv4) → of_ipv4 host found ≢ some (ipv6 value)
of_ipv4-no_ipv6 host value none h = ground arith
of_ipv4-no_ipv6 host value (some o) h = ground arith

embedded-address :
    (g6 g7 : ℕ) → g6 < 65536 → g7 < 65536 → address (embedded g6 g7) ≡ g6 * 65536 + g7
embedded-address g6 g7 h k = omega arith

mapped-global :
    (g6 g7 : ℕ)
    → is_global_ipv6 (0 ∷ 0 ∷ 0 ∷ 0 ∷ 0 ∷ 65535 ∷ g6 ∷ g7 ∷ []) ≡ true
    → is_global_ipv4 (embedded g6 g7) ≡ true
unfolding is_global_ipv6 every
mapped-global g6 g7 h = h

-- A host that is let through as an IPv6 literal, under any trimming, and that expands to the groups of a
-- mapped IPv4 address (five zeros, ffff, and two groups of 16 bits) maps none of the reserved networks.
pub get_safe_host-mapped :
    (trim : Text → Text) (host value : Text) (g6 g7 : ℕ)
    → get_safe_host trim host ≡ some (ipv6 value)
    → expand_ipv6 trim host ≡ some (0 ∷ 0 ∷ 0 ∷ 0 ∷ 0 ∷ 65535 ∷ g6 ∷ g7 ∷ [])
    → g6 < 65536
    → g7 < 65536
    → is_reserved (g6 * 65536 + g7) ≡ false
unfolding get_safe_host
get_safe_host-mapped trim host value g6 g7 h e k6 k7 =
    let as_ipv6 : of_ipv6 host (expand_ipv6 trim host) ≡ some (ipv6 value) = ground arith in
    let global = mapped-global g6 g7 (
      of_ipv6-global host value (expand_ipv6 trim host) (0 ∷ 0 ∷ 0 ∷ 0 ∷ 0 ∷ 65535 ∷ g6 ∷ g7 ∷ [])
        as_ipv6 e) in
    let agree =
      is_global_ipv4-is_reserved (embedded g6 g7)
        (record { b0 = omega arith; b1 = omega arith; b2 = omega arith; b3 = omega arith }) in
    rw (← embedded-address g6 g7 k6 k7) (ground (arith, agree, global))
