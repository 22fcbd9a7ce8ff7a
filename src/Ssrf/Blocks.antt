-- ===== src/Ssrf/Blocks.antt =====
-- The tests of `isGlobalIpv4` on bytes against the reserved networks as blocks of addresses.
use vaultur.Prelude.{
  ℕ, ◌+◌, ◌*◌, ◌<◌, Bool, true, false, not, ◌≡◌, ◌≢◌, subst, ap, ◌==◌, nat_instance, ◌&&◌, ◌||◌,
  leb, ltb, Option, none, some, List, [], ◌∷◌, arith, Bool-cases, inl, inr,
}
use vaultur.Prelude.Table.{any}
use vaultur.Ssrf.Text.{Text}
use vaultur.Ssrf.Addresses.{Ipv4, is_global_ipv4, parse_to_ipv4}
use vaultur.Ssrf.Hosts.{get_safe_host, of_ipv6, of_ipv4, ParsedHost, ipv4}
use vaultur.Ssrf.Octets.{IsBytes, address}
use vaultur.Ssrf.Forms.{parse_to_ipv4-Stands}

-- A network: its first address, and how many it has.
pub record Block : Type 0 where
  pub first : ℕ
  pub size : ℕ

abbrev block : ℕ → ℕ → ℕ → ℕ → Block
block a b c size = record { first = a * 16777216 + b * 65536 + c * 256; size = size }

abbrev pub holds_address : ℕ → Block → Bool
holds_address n b = leb b.first n && ltb n (b.first + b.size)

-- 0.0.0.0/8, 10/8, 127/8, 169.254/16, 172.16/12, 192.168/16, 192.0.0/24, 100.64/10, 198.18/15 and 224/3
abbrev pub reserved_blocks : List Block
reserved_blocks =
    block 0 0 0 16777216
    ∷ block 10 0 0 16777216
    ∷ block 127 0 0 16777216
    ∷ block 169 254 0 65536
    ∷ block 172 16 0 1048576
    ∷ block 192 168 0 65536
    ∷ block 192 0 0 256
    ∷ block 100 64 0 4194304
    ∷ block 198 18 0 131072
    ∷ block 224 0 0 536870912
    ∷ []

abbrev pub is_reserved : ℕ → Bool
is_reserved n = any (holds_address n) reserved_blocks

module _ (o : Ipv4) (h : IsBytes o) where
  eight : (a : ℕ) → holds_address (address o) (block a 0 0 16777216) ≡ (o.o0 == a)
  eight a = let b1 = h.b1 in let b2 = h.b2 in let b3 = h.b3 in ground (arith, b1, b2, b3)

  sixteen :
      (a b : ℕ) → b < 256 → holds_address (address o) (block a b 0 65536) ≡ (o.o0 == a && o.o1 == b)
  sixteen a b k = let b1 = h.b1 in let b2 = h.b2 in let b3 = h.b3 in ground (arith, b1, b2, b3, k)

  private_172 :
      holds_address (address o) (block 172 16 0 1048576)
      ≡ (o.o0 == 172 && (leb 16 o.o1 && leb o.o1 31))
  private_172 = let b1 = h.b1 in let b2 = h.b2 in let b3 = h.b3 in ground (arith, b1, b2, b3)

  protocols :
      holds_address (address o) (block 192 0 0 256) ≡ (o.o0 == 192 && (o.o1 == 0 && o.o2 == 0))
  protocols = let b1 = h.b1 in let b2 = h.b2 in let b3 = h.b3 in ground (arith, b1, b2, b3)

  carrier :
      holds_address (address o) (block 100 64 0 4194304)
      ≡ (o.o0 == 100 && (leb 64 o.o1 && leb o.o1 127))
  carrier = let b1 = h.b1 in let b2 = h.b2 in let b3 = h.b3 in ground (arith, b1, b2, b3)

  benchmarks :
      holds_address (address o) (block 198 18 0 131072)
      ≡ (o.o0 == 198 && (o.o1 == 18 || o.o1 == 19))
  benchmarks = let b1 = h.b1 in let b2 = h.b2 in let b3 = h.b3 in ground (arith, b1, b2, b3)

  multicast : holds_address (address o) (block 224 0 0 536870912) ≡ leb 224 o.o0
  multicast =
      let b0 = h.b0 in
      let b1 = h.b1 in let b2 = h.b2 in let b3 = h.b3 in ground (arith, b0, b1, b2, b3)

tests_agree :
    (a b c d e f g h i j k : Bool)
    → (k ≡ true → j ≡ true)
    → (not a
        && (not b
            && (not c
                && (not d
                    && (not e && (not f && (not g && (not h && (not i && (not j && not k))))))))))
      ≡ not (a || (b || (c || (d || (e || (f || (g || (h || (i || (j || false))))))))))
tests_agree a b c d e f g h i j k w = ground (arith, w)

-- An address of four bytes is taken for globally routable exactly if its number lies in none of the
-- reserved networks.
pub is_global_ipv4-is_reserved :
    (o : Ipv4) → IsBytes o → is_global_ipv4 o ≡ not (is_reserved (address o))
unfolding is_global_ipv4 any
is_global_ipv4-is_reserved o h =
    rw
      (
        eight o h 0,
        eight o h 10,
        eight o h 127,
        sixteen o h 169 254 (omega arith),
        private_172 o h,
        sixteen o h 192 168 (omega arith),
        protocols o h,
        carrier o h,
        benchmarks o h,
        multicast o h,
      )
      (tests_agree (o.o0 == 0) (o.o0 == 10) (o.o0 == 127) (o.o0 == 169 && o.o1 == 254)
        (o.o0 == 172 && (leb 16 o.o1 && leb o.o1 31)) (o.o0 == 192 && o.o1 == 168)
        (o.o0 == 192 && (o.o1 == 0 && o.o2 == 0)) (o.o0 == 100 && (leb 64 o.o1 && leb o.o1 127))
        (o.o0 == 198 && (o.o1 == 18 || o.o1 == 19)) (leb 224 o.o0) (o.o0 == 255 && o.o1 == 255)
        (ground arith))

of_ipv6-no_ipv4 : (host : Text) (gs : Option (List ℕ)) (o : Ipv4) → of_ipv6 host gs ≢ some (ipv4 o)
of_ipv6-no_ipv4 host none o h = ground arith
of_ipv6-no_ipv4 host (some gs) o h = ground arith

abbrev or_this : Ipv4 → Option ParsedHost → Ipv4
or_this p (some (ipv4 o)) = o
or_this p _ = p

of_ipv4-eq :
    (host : Text) (found : Option Ipv4) (o : Ipv4)
    → of_ipv4 host found ≡ some (ipv4 o)
    → (found ≡ some o) × (is_global_ipv4 o ≡ true)
of_ipv4-eq host none o h = absurd (ground arith)
of_ipv4-eq host (some p) o h = elim (Bool-cases (is_global_ipv4 p)) [
  | inr k ↦ absurd (let q = rw k at h in cc)
  | inl k ↦
      let same : p ≡ o = ap (or_this p) (let q = rw k at h in q) in
      (ap some same, subst (λ x. is_global_ipv4 x ≡ true) same k)
]

-- A host that is let through as an IPv4 address, under any trimming, is read as four bytes whose number
-- lies in none of the reserved networks: the text itself reads as that address.
pub get_safe_host-ipv4 :
    (trim : Text → Text) (host : Text) (o : Ipv4)
    → get_safe_host trim host ≡ some (ipv4 o)
    → (parse_to_ipv4 host ≡ some o) × IsBytes o × (is_reserved (address o) ≡ false)
unfolding get_safe_host
get_safe_host-ipv4 trim host o h =
    let (e, g) = of_ipv4-eq host (parse_to_ipv4 host) o (ground arith) in
    let (bytes, _) = (parse_to_ipv4-Stands host o).0 e in
    let agree = is_global_ipv4-is_reserved o bytes in (e, bytes, ground (arith, agree, g))
