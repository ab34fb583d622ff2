-- ===== src/SafeDial.antt =====
-- internal/safedial/safedial.go: the guard that refuses to connect anywhere but the public internet.
-- net.SplitHostPort and netip.ParseAddr are parameters, `split_host_port` and `parse_addr`.
pub mod Address
pub mod Ranges
pub mod Public
pub mod Zones
pub mod Guard
use mkqd.Base.{
  ℕ, zero, suc, ◌%◌, ◌^◌, Bool, true, false, ◌&&◌, ◌||◌, not, Option, none, some, List, [], ◌∷◌,
  Bytes, any, if◌then◌else◌,
}
use mkqd.RetryAfter.Errors.{Error, nil, wrap, blocked}
use Address.{
  Addr, invalid, v4, v6, Prefix, p4, p6, quad, prefix_contains, unmap, is_unspecified, is_loopback,
  is_private, is_link_local_unicast, is_link_local_multicast, is_interface_local_multicast,
  is_multicast,
}

abbrev pub v4_embedding_prefixes : List Prefix
v4_embedding_prefixes =
    p6 0x0064_ff9b_0000_0000_0000_0000_0000_0000 96
    ∷ p6 0x0064_ff9b_0001_0000_0000_0000_0000_0000 48
    ∷ p6 0 96
    ∷ []

abbrev pub blocked_prefixes : List Prefix
blocked_prefixes =
    p4 (quad 0 0 0 0) 8
    ∷ p4 (quad 100 64 0 0) 10
    ∷ p4 (quad 192 0 0 0) 24
    ∷ p4 (quad 192 88 99 0) 24
    ∷ p4 (quad 192 0 2 0) 24
    ∷ p4 (quad 198 18 0 0) 15
    ∷ p4 (quad 198 51 100 0) 24
    ∷ p4 (quad 203 0 113 0) 24
    ∷ p4 (quad 240 0 0 0) 4
    ∷ p6 0x0100_0000_0000_0000_0000_0000_0000_0000 64
    ∷ p6 0x2001_0000_0000_0000_0000_0000_0000_0000 32
    ∷ p6 0x2001_0020_0000_0000_0000_0000_0000_0000 28
    ∷ p6 0x2001_0db8_0000_0000_0000_0000_0000_0000 32
    ∷ p6 0x2002_0000_0000_0000_0000_0000_0000_0000 16
    ∷ []

-- The low 32 bits of As16.
unfoldable pub low_v4 : Addr → Addr
low_v4 (v6 a zone) = v4 (a % 2 ^ 32)
low_v4 ip = ip

-- The part of IsPublic behind the loop over v4EmbeddingPrefixes.
unfoldable pub passes : Addr → Bool
unfolding is_unspecified is_loopback is_private is_link_local_unicast is_link_local_multicast
    is_interface_local_multicast is_multicast prefix_contains
passes ip =
    not (
      is_unspecified ip
      || is_loopback ip
      || is_private ip
      || is_link_local_unicast ip
      || is_link_local_multicast ip
      || is_interface_local_multicast ip
      || is_multicast ip)
    && not (any (λ p. prefix_contains p ip) blocked_prefixes)

abbrev is_valid : Addr → Bool
is_valid invalid = false
is_valid _ = true

-- IsPublic calls itself on an embedded IPv4 address, which embeds none: two rounds are enough.
unfoldable pub is_public_rounds : ℕ → Addr → Bool
unfolding unmap low_v4 prefix_contains
is_public_rounds zero ip = false
is_public_rounds (suc n) ip =
    let u = unmap ip in
    let inner = is_public_rounds n (low_v4 u) in
    if not (is_valid ip)
    then false
    else if any (λ p. prefix_contains p u) v4_embedding_prefixes
    then inner
    else passes u

unfoldable pub is_public : Addr → Bool
unfolding is_public_rounds
is_public = is_public_rounds 2

module _ (split_host_port : Bytes → Option Bytes) (parse_addr : Bytes → Option Addr) where
  unfoldable pub check_host : Bytes → Error
  check_host host = elim (parse_addr host) [
    | none ↦ wrap host blocked
    | some ip ↦ if not (is_public ip) then wrap host blocked else nil
  ]

  -- CheckAddr. `nil` is the nil error.
  unfoldable pub check_addr : Bytes → Error
  unfolding check_host
  check_addr address = elim (split_host_port address) [
    | none ↦ wrap address blocked
    | some host ↦ check_host host
  ]

  -- NewDialer: what the dialer's Control says of an address.
  unfoldable pub new_dialer : Bool → Bytes → Error
  new_dialer allow_private address = if not allow_private then check_addr address else nil
