-- ===== src/Examples/SafeDial.antt =====
-- The guard at concrete addresses.
use mkqd.Base.{
  ◌≡◌, ◌↔◌, inl, refl, some, Option, Bytes, codes, arith, [], true, false, ◌%◌, ◌^◌, ◌+◌,
}
use mkqd.SafeDial.Address.{Addr, v4, v6, quad}
use mkqd.SafeDial.Public.{is_public_v4_iff, is_public_embedded, is_public_v6_iff}
use mkqd.SafeDial.Ranges.{special_v4, special_v6, Outside}
use mkqd.SafeDial.Zones.{nat64, is_public_zoned_nat64}
use mkqd.SafeDial.{is_public, passes}

abbrev pub metadata : Addr
metadata = v4 (quad 169 254 169 254)

pub metadata_blocked : is_public metadata ≡ false
unfolding is_public passes
metadata_blocked = refl

cloudflare : is_public (v6 0x2606_4700_0000_0000_0000_0000_0000_1111 []) ≡ true
unfolding is_public passes
cloudflare = refl

-- A splitter that knows no port, and a reader that knows one host.
abbrev whole : Bytes → Option Bytes
whole a = some a

abbrev one_host : Bytes → Option Addr
one_host h = some (v4 (quad 1 1 1 1))

is_public_v4_iff_example :
    (is_public (v4 (quad 1 1 1 1)) ≡ true) ↔ Outside special_v4 (quad 1 1 1 1)
is_public_v4_iff_example = is_public_v4_iff (quad 1 1 1 1) (omega arith)

is_public_embedded_example :
    is_public (v6 0xffff_0a00_0001 []) ≡ is_public (v4 (0xffff_0a00_0001 % 2 ^ 32))
is_public_embedded_example = is_public_embedded 0xffff_0a00_0001 (inl (omega arith))

is_public_v6_iff_example :
    (is_public (v6 0x2606_4700_0000_0000_0000_0000_0000_1111 []) ≡ true)
    ↔ Outside special_v6 0x2606_4700_0000_0000_0000_0000_0000_1111
is_public_v6_iff_example =
    is_public_v6_iff 0x2606_4700_0000_0000_0000_0000_0000_1111 (omega arith) (omega arith)

is_public_zoned_nat64_example :
    (is_public (v6 (nat64 + quad 127 0 0 1) (codes "lo")) ≡ true)
    × (is_public (v6 (nat64 + quad 127 0 0 1) []) ≡ is_public (v4 (quad 127 0 0 1)))
is_public_zoned_nat64_example =
    is_public_zoned_nat64 (quad 127 0 0 1) b'l' (codes "o") (omega arith)
