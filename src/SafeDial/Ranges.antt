-- ===== src/SafeDial/Ranges.antt =====
-- The special-purpose ranges as intervals of addresses, independent of masks.
use mkqd.Base.{ℕ, ◌≤◌, ◌<◌, ◌⊎◌, List, [], ◌∷◌, All, Any}
use mkqd.SafeDial.Address.{quad}

-- First and last address of a range.
pub record Range : Type 0 where
  pub first : ℕ
  pub last : ℕ

abbrev range : ℕ → ℕ → Range
range a b = record { first = a; last = b }

abbrev pub special_v4 : List Range
special_v4 =
    range (quad 0 0 0 0) (quad 0 255 255 255)
    ∷ range (quad 10 0 0 0) (quad 10 255 255 255)
    ∷ range (quad 100 64 0 0) (quad 100 127 255 255)
    ∷ range (quad 127 0 0 0) (quad 127 255 255 255)
    ∷ range (quad 169 254 0 0) (quad 169 254 255 255)
    ∷ range (quad 172 16 0 0) (quad 172 31 255 255)
    ∷ range (quad 192 0 0 0) (quad 192 0 0 255)
    ∷ range (quad 192 0 2 0) (quad 192 0 2 255)
    ∷ range (quad 192 88 99 0) (quad 192 88 99 255)
    ∷ range (quad 192 168 0 0) (quad 192 168 255 255)
    ∷ range (quad 198 18 0 0) (quad 198 19 255 255)
    ∷ range (quad 198 51 100 0) (quad 198 51 100 255)
    ∷ range (quad 203 0 113 0) (quad 203 0 113 255)
    ∷ range (quad 224 0 0 0) (quad 255 255 255 255)
    ∷ []

abbrev pub Outside : List Range → ℕ → Type 0
Outside rs a = All (λ r. (a < r.first) ⊎ (r.last < a)) rs

-- The IPv6 ranges whose low 32 bits are an IPv4 address to be judged in its place: IPv4-mapped, the
-- two NAT64 ranges and IPv4-compatible.
abbrev pub embedding_v6 : List Range
embedding_v6 =
    range 0xffff_0000_0000 0xffff_ffff_ffff
    ∷ range 0x0064_ff9b_0000_0000_0000_0000_0000_0000 0x0064_ff9b_0000_0000_0000_0000_ffff_ffff
    ∷ range 0x0064_ff9b_0001_0000_0000_0000_0000_0000 0x0064_ff9b_0001_ffff_ffff_ffff_ffff_ffff
    ∷ range 0 0xffff_ffff
    ∷ []

abbrev pub special_v6 : List Range
special_v6 =
    range 0x0100_0000_0000_0000_0000_0000_0000_0000 0x0100_0000_0000_0000_ffff_ffff_ffff_ffff
    ∷ range 0x2001_0000_0000_0000_0000_0000_0000_0000 0x2001_0000_ffff_ffff_ffff_ffff_ffff_ffff
    ∷ range 0x2001_0020_0000_0000_0000_0000_0000_0000 0x2001_002f_ffff_ffff_ffff_ffff_ffff_ffff
    ∷ range 0x2001_0db8_0000_0000_0000_0000_0000_0000 0x2001_0db8_ffff_ffff_ffff_ffff_ffff_ffff
    ∷ range 0x2002_0000_0000_0000_0000_0000_0000_0000 0x2002_ffff_ffff_ffff_ffff_ffff_ffff_ffff
    ∷ range 0xfc00_0000_0000_0000_0000_0000_0000_0000 0xfdff_ffff_ffff_ffff_ffff_ffff_ffff_ffff
    ∷ range 0xfe80_0000_0000_0000_0000_0000_0000_0000 0xfebf_ffff_ffff_ffff_ffff_ffff_ffff_ffff
    ∷ range 0xff00_0000_0000_0000_0000_0000_0000_0000 0xffff_ffff_ffff_ffff_ffff_ffff_ffff_ffff
    ∷ []

abbrev pub Inside : List Range → ℕ → Type 0
Inside rs a = Any (λ r. (r.first ≤ a) × (a ≤ r.last)) rs
