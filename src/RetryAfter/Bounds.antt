-- ===== src/RetryAfter/Bounds.antt =====
-- Every delay that is read from a header is an int64 that is not negative.
use mkqd.Base.{◌≡◌, Option, some, [], ◌∷◌, Bytes, arith}
use mkqd.Base.Int.{ℤ, pos, ◌≤ℤ◌, max_int64}
use mkqd.RetryAfter.{parse_retry_after}

-- A delay that is read from a header is not negative and fits int64.
pub parse_retry_after_bounds :
    (parse_time : Bytes → Option ℤ) (now : ℤ) (v : Bytes) (d : ℤ)
    → parse_retry_after parse_time v now ≡ some d
    → (pos 0 ≤ℤ d) × (d ≤ℤ pos max_int64)
unfolding parse_retry_after
parse_retry_after_bounds parse_time now [] d h = ground arith
parse_retry_after_bounds parse_time now (c ∷ v) d h = ground arith
