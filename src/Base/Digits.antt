-- ===== src/Base/Digits.antt =====
-- Decimal digits and the number that they spell.
use Prim.Native.Nat.{ℕ, ◌+◌, ◌-◌, ◌*◌, ◌≤◌}
use mathlib.Core.List.{[], ◌∷◌}
use native.Mathlib.Omega.{arith}
use mkqd.Base.Strings.{Bytes}

abbrev pub IsDigit : ℕ → Type 0
IsDigit b = (b ≤ b'9') × (b'0' ≤ b)

-- One more digit behind a number.
abbrev pub shift_in : ℕ → ℕ → ℕ
shift_in so_far b = so_far * 10 + (b - b'0')

-- What a text of digits adds to a number in front of it; no bound.
abbrev pub value : ℕ → Bytes → ℕ
value so_far [] = so_far
value so_far (b ∷ more) = value (shift_in so_far b) more

pub value_grows : (so_far : ℕ) (text : Bytes) → so_far ≤ value so_far text
value_grows so_far [] = omega arith
value_grows so_far (b ∷ more) = omega (arith, value_grows (shift_in so_far b) more)
