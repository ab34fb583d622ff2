-- ===== src/SafeDial/Zones.antt =====
-- Addresses with an IPv6 zone, which no prefix contains.
use mkqd.Base.{ℕ, ◌+◌, ◌%◌, ◌^◌, ◌<◌, ◌≡◌, true, [], ◌∷◌, ap, ◌∙◌, Bytes, arith}
use mkqd.SafeDial.Address.{v4, v6}
use mkqd.SafeDial.Public.{is_public_embedded}
use mkqd.SafeDial.{is_public, passes}

abbrev pub nat64 : ℕ
nat64 = 0x0064_ff9b_0000_0000_0000_0000_0000_0000

wraps : (x : ℕ) → x < 2 ^ 32 → (nat64 + x) % 2 ^ 32 ≡ x
wraps x h = omega arith

-- A zone switches the prefix tests off: an address of the first NAT64 range with a zone is public
-- whatever IPv4 address it embeds, while without a zone the embedded address decides.
pub is_public_zoned_nat64 :
    (x c : ℕ) (zone : Bytes)
    → x < 2 ^ 32
    → (is_public (v6 (nat64 + x) (c ∷ zone)) ≡ true)
      × (is_public (v6 (nat64 + x) []) ≡ is_public (v4 x))
unfolding is_public passes
is_public_zoned_nat64 x c zone h = (
  ground arith,
  is_public_embedded (nat64 + x) (ground arith) ∙ ap (λ (y : ℕ). is_public (v4 y)) (wraps x h),
)
