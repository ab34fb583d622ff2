-- ===== src/RetryAfter.antt =====
-- retry_after.go: the error that carries a server's delay, the Retry-After reader, and the hook that
-- the runtime registers with mkq. Durations and times are int64 nanoseconds, as integers.
pub mod Number
pub mod Errors
pub mod Delay
pub mod Digits
pub mod Bounds
use mkqd.Base.{
  ℕ, suc, ◌-◌, ◌*◌, ◌+◌, Bool, true, false, not, Option, none, some, List, [], ◌∷◌, Bytes, ltb, leb,
  ◌==◌, if◌then◌else◌,
}
use mkqd.Base.Int.{ℤ, pos, negsuc, ◌-ℤ◌, ltb_ℤ, max_int64, wrap64}
use Number.{IntResult, parse_int}
use Errors.{Error, retry_after, as_retry_after}

abbrev pub second : ℕ
second = 1_000_000_000

-- maxRetryAfter, one hour.
abbrev pub max_retry_after : ℕ
max_retry_after = 3_600_000_000_000

-- maxDeltaSeconds.
abbrev pub max_delta_seconds : ℕ
max_delta_seconds = 9_223_372_036

-- RetryAfter(d, err).
unfoldable pub with_retry_after : ℤ → Error → Error
with_retry_after d err = if not (ltb_ℤ (pos 0) d) then err else retry_after d err

-- time.Duration(secs) * time.Second, in int64.
unfoldable pub seconds : ℤ → ℤ
unfolding wrap64
seconds (pos n) = wrap64 (pos (n * second))
seconds (negsuc n) = wrap64 (negsuc (n * second + (second - 1)))

-- Time.Sub saturates at the limits of int64.
unfoldable pub sub_time : ℤ → ℤ → ℤ
unfolding ◌-ℤ◌
sub_time t now =
    let d = t -ℤ now in
    if ltb_ℤ (pos max_int64) d
    then pos max_int64
    else if ltb_ℤ d (negsuc max_int64)
    then negsuc max_int64
    else d

-- `parse_time` is http.ParseTime, which reads an HTTP-date as a time.
module _ (parse_time : Bytes → Option ℤ) where
  unfoldable pub http_date : Bytes → ℤ → Option ℤ
  unfolding sub_time
  http_date v now = elim (parse_time v) [
    | none ↦ none
    | some t ↦ let d = sub_time t now in if not (ltb_ℤ (pos 0) d) then none else some d
  ]

  -- ParseRetryAfter. `none` is ok == false.
  unfoldable pub parse_retry_after : Bytes → ℤ → Option ℤ
  unfolding seconds http_date
  parse_retry_after [] now = none
  parse_retry_after (c ∷ v) now = elim (parse_int (c ∷ v)) [
    | IntResult.int secs ↦
        if ltb_ℤ secs (pos 0)
        then none
        else if not (ltb_ℤ (pos max_delta_seconds) secs)
        then some (seconds secs)
        else some (pos max_int64)
    | IntResult.out_of_range ↦
        if not (c == b'-') then some (pos max_int64) else http_date (c ∷ v) now
    | IntResult.bad_syntax ↦ http_date (c ∷ v) now
  ]

-- What the hook logs.
pub data Logged : Type 0 where
  silent ignored_negative honoured honoured_capped : Logged

-- (*Runtime).retryDelay. `none` leaves the delay to the configured backoff.
unfoldable pub retry_delay : Error → Option ℤ × Logged
retry_delay err = elim (as_retry_after err) [
  | none ↦ (none, silent)
  | some after ↦
      if ltb_ℤ after (pos 0)
      then (none, ignored_negative)
      else if ltb_ℤ (pos max_retry_after) after
      then (some (pos max_retry_after), honoured_capped)
      else (some after, honoured)
]
