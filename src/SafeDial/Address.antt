-- ===== src/SafeDial/Address.antt =====
-- netip.Addr and netip.Prefix, as safedial.go uses them: an address is its bits as one number, and an
-- IPv6 address may carry a zone. Masks are written as quotients.
use mkqd.Base.{
  ℕ, ◌+◌, ◌*◌, ◌-◌, ◌/◌, ◌%◌, ◌^◌, Bool, false, ◌&&◌, ◌||◌, Bytes, is_empty, ◌==◌, if◌then◌else◌,
}

pub data Addr : Type 0 where
  invalid : Addr
  v4 : ℕ → Addr
  v6 : ℕ → Bytes → Addr

pub data Prefix : Type 0 where
  p4 p6 : ℕ → ℕ → Prefix

abbrev pub quad : ℕ → ℕ → ℕ → ℕ → ℕ
quad a b c d = ((a * 256 + b) * 256 + c) * 256 + d

-- Addr.Unmap: ::ffff:a.b.c.d becomes a.b.c.d, and its zone is dropped.
unfoldable pub unmap : Addr → Addr
unmap (v6 a zone) = if a / 2 ^ 32 == 0xffff then v4 (a % 2 ^ 32) else v6 a zone
unmap ip = ip

-- Prefix.Contains: never across families, and never an address with a zone.
unfoldable pub prefix_contains : Prefix → Addr → Bool
prefix_contains (p4 base bits) (v4 a) = a / 2 ^ (32 - bits) == base / 2 ^ (32 - bits)
prefix_contains (p6 base bits) (v6 a zone) =
    is_empty zone && a / 2 ^ (128 - bits) == base / 2 ^ (128 - bits)
prefix_contains _ _ = false

-- The first 16 bits of an IPv6 address.
abbrev top16 : ℕ → ℕ
top16 a = a / 2 ^ 112

unfoldable pub is_unspecified : Addr → Bool
is_unspecified invalid = false
is_unspecified (v4 a) = a == 0
is_unspecified (v6 a zone) = is_empty zone && a == 0

unfoldable pub is_loopback : Addr → Bool
is_loopback invalid = false
is_loopback (v4 a) = a / 2 ^ 24 == 127
is_loopback (v6 a zone) = a == 1

unfoldable pub is_private : Addr → Bool
is_private invalid = false
is_private (v4 a) = a / 2 ^ 24 == 10 || a / 2 ^ 20 == 172 * 16 + 1 || a / 2 ^ 16 == quad 0 0 192 168
is_private (v6 a zone) = a / 2 ^ 121 == 0x7e

unfoldable pub is_link_local_unicast : Addr → Bool
is_link_local_unicast invalid = false
is_link_local_unicast (v4 a) = a / 2 ^ 16 == quad 0 0 169 254
is_link_local_unicast (v6 a zone) = a / 2 ^ 118 == 0x3fa

unfoldable pub is_link_local_multicast : Addr → Bool
is_link_local_multicast invalid = false
is_link_local_multicast (v4 a) = a / 2 ^ 8 == quad 0 224 0 0
is_link_local_multicast (v6 a zone) = top16 a / 256 == 0xff && top16 a % 16 == 2

unfoldable pub is_interface_local_multicast : Addr → Bool
is_interface_local_multicast (v6 a zone) = top16 a / 256 == 0xff && top16 a % 16 == 1
is_interface_local_multicast _ = false

unfoldable pub is_multicast : Addr → Bool
is_multicast invalid = false
is_multicast (v4 a) = a / 2 ^ 28 == 0xe
is_multicast (v6 a zone) = a / 2 ^ 120 == 0xff
