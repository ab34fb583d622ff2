-- ===== src/RetryAfter/Delay.antt =====
-- What a delay does on its way from an executor to mkq.
use mkqd.Base.{◌≡◌, none, some, arith, if◌then◌else◌}
use mkqd.Base.Int.{ℤ, pos, ltb_ℤ, ◌≤ℤ◌}
use mkqd.RetryAfter.Errors.{Error, as_retry_after, is_error}
use mkqd.RetryAfter.{with_retry_after, retry_delay, max_retry_after}

-- A delay that the runtime hands to mkq is not negative and at most one hour.
pub retry_delay_bounds :
    (err : Error) (d : ℤ) → (retry_delay err).0 ≡ some d → (pos 0 ≤ℤ d) × (d ≤ℤ pos max_retry_after)
unfolding retry_delay
retry_delay_bounds err d h = ground arith

abbrev capped : ℤ → ℤ
capped d = if ltb_ℤ (pos max_retry_after) d then pos max_retry_after else d

pub retry_delay-with_retry_after :
    (d : ℤ) (err : Error)
    → as_retry_after err ≡ none
    → (retry_delay (with_retry_after d err)).0 ≡ (if ltb_ℤ (pos 0) d then some (capped d) else none)
unfolding retry_delay with_retry_after as_retry_after
retry_delay-with_retry_after d err h = ground arith

pub is_error-with_retry_after :
    (target : Error) (d : ℤ) (err : Error)
    → is_error target (with_retry_after d err) ≡ is_error target err
unfolding with_retry_after is_error
is_error-with_retry_after target d err = ground arith
