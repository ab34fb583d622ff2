-- ===== src/RetryAfter/Number.antt =====
-- strconv.ParseInt(v, 10, 64), as ParseRetryAfter calls it in retry_after.go. The digits are read from
-- the left, so a number that is out of range is reported before what stands behind it is looked at.
use mkqd.Base.{
  ℕ, ◌+◌, ◌-◌, ◌*◌, Bool, true, false, ◌&&◌, [], ◌∷◌, Bytes, ltb, leb, ◌==◌, if◌then◌else◌,
}
use mkqd.Base.Int.{ℤ, pos, negsuc, max_int64}

abbrev pub max_uint64 : ℕ
max_uint64 = 18446744073709551615

pub data UintResult : Type 0 where
  uint : ℕ → UintResult
  out_of_range bad_syntax : UintResult

pub data IntResult : Type 0 where
  int : ℤ → IntResult
  out_of_range bad_syntax : IntResult

abbrev pub is_digit : ℕ → Bool
is_digit c = leb b'0' c && leb c b'9'

-- The loop of ParseUint: `n >= cutoff` and `n1 > maxVal` are one test on the exact value.
unfoldable pub scan_uint : Bytes → ℕ → UintResult
scan_uint [] n = UintResult.uint n
scan_uint (c ∷ s) n =
    let n1 : ℕ = n * 10 + (c - b'0') in
    let rest = scan_uint s n1 in
    if is_digit c
    then (if ltb max_uint64 n1 then UintResult.out_of_range else rest)
    else UintResult.bad_syntax

unfoldable pub parse_uint : Bytes → UintResult
unfolding scan_uint
parse_uint [] = UintResult.bad_syntax
parse_uint (c ∷ s) = scan_uint (c ∷ s) 0

-- The sign put back, within int64.
unfoldable pub signed : Bool → UintResult → IntResult
signed neg (UintResult.bad_syntax) = IntResult.bad_syntax
signed neg (UintResult.out_of_range) = IntResult.out_of_range
signed false (UintResult.uint n) =
    if ltb max_int64 n then IntResult.out_of_range else IntResult.int (pos n)
signed true (UintResult.uint n) =
    if ltb (max_int64 + 1) n
    then IntResult.out_of_range
    else IntResult.int (if n == 0 then pos 0 else negsuc (n - 1))

unfoldable pub parse_int : Bytes → IntResult
unfolding parse_uint signed
parse_int [] = IntResult.bad_syntax
parse_int (c ∷ s) =
    if c == b'+'
    then signed false (parse_uint s)
    else if c == b'-'
    then signed true (parse_uint s)
    else signed false (parse_uint (c ∷ s))
