-- ===== src/SafeDial/Public.antt =====
-- What IsPublic accepts, against the special-purpose ranges as intervals.
use mkqd.Base.{ℕ, suc, ◌%◌, ◌^◌, ◌<◌, ◌≡◌, ◌↔◌, refl, true, [], arith}
use mkqd.SafeDial.Address.{Addr, v4, v6, invalid}
use mkqd.SafeDial.Ranges.{special_v4, special_v6, embedding_v6, Outside, Inside}
use mkqd.SafeDial.{is_public, is_public_rounds, passes}

-- The recursion of `IsPublic` on an embedded address ends: two rounds give the result of any larger
-- number of rounds, at every address.
pub is_public_rounds_enough : (n : ℕ) (ip : Addr) → is_public_rounds (suc (suc n)) ip ≡ is_public ip
unfolding is_public
is_public_rounds_enough n invalid = refl
is_public_rounds_enough n (v4 a) = ground arith
is_public_rounds_enough n (v6 a z) = ground arith

passes_v4 : (a : ℕ) → a < 2 ^ 32 → (passes (v4 a) ≡ true) ↔ Outside special_v4 a
unfolding passes
passes_v4 a h = (λ p. ground arith, λ o. ground arith)

-- An IPv4 address is public exactly if it lies outside fourteen ranges given by their first and
-- last address: the unspecified, private, shared, loopback, link-local, protocol, documentation,
-- relay and benchmark ranges, multicast and the reserved end.
pub is_public_v4_iff : (a : ℕ) → a < 2 ^ 32 → (is_public (v4 a) ≡ true) ↔ Outside special_v4 a
unfolding is_public
is_public_v4_iff a h = passes_v4 a h

-- An IPv6 address without a zone in one of the ranges that embed an IPv4 address (IPv4-mapped, both
-- NAT64 ranges, IPv4-compatible) is public exactly if the embedded address is.
pub is_public_embedded :
    (a : ℕ) → Inside embedding_v6 a → is_public (v6 a []) ≡ is_public (v4 (a % 2 ^ 32))
unfolding is_public
is_public_embedded a h = ground arith

passes_v6 :
    (a : ℕ)
    → a < 2 ^ 128
    → Outside embedding_v6 a
    → (passes (v6 a []) ≡ true) ↔ Outside special_v6 a
unfolding passes
passes_v6 a h o = (λ p. ground arith, λ s. ground arith)

is_public_v6 : (a : ℕ) → Outside embedding_v6 a → is_public (v6 a []) ≡ passes (v6 a [])
unfolding is_public
is_public_v6 a o = ground arith

-- An IPv6 address without a zone that embeds no IPv4 address is public exactly if it lies outside
-- eight ranges given by their first and last address.
pub is_public_v6_iff :
    (a : ℕ)
    → a < 2 ^ 128
    → Outside embedding_v6 a
    → (is_public (v6 a []) ≡ true) ↔ Outside special_v6 a
is_public_v6_iff a h o = rw (is_public_v6 a o) (passes_v6 a h o)
