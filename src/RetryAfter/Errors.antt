-- ===== src/RetryAfter/Errors.antt =====
-- Go errors as far as errors.Is and errors.As see them: chains of wrapped errors, with the two kinds
-- that decide a retry, mkq.ErrUnrecoverable and RetryAfterError of retry_after.go.
use mkqd.Base.{Bool, true, false, ◌||◌, Option, none, some, Bytes}
use mkqd.Base.Int.{ℤ}

-- `nil` is the nil error, which RetryAfterError.Err may hold. `wrap` is fmt.Errorf with one %w, and
-- `join` is fmt.Errorf with two, or errors.Join.
pub data Error : Type 0 where
  nil unrecoverable unknown_key blocked : Error
  message : Bytes → Error
  wrap : Bytes → Error → Error
  join : Error → Error → Error
  retry_after : ℤ → Error → Error

abbrev or_else {ℓ} : {A : Type ℓ} → Option A → Option A → Option A
or_else none b = b
or_else (some a) b = some a

-- errors.As(err, &ra): the first RetryAfterError of the chain, depth first.
unfoldable pub as_retry_after : Error → Option ℤ
as_retry_after (retry_after d e) = some d
as_retry_after (wrap m e) = as_retry_after e
as_retry_after (join e f) = or_else (as_retry_after e) (as_retry_after f)
as_retry_after _ = none

abbrev same_sentinel : Error → Error → Bool
same_sentinel unrecoverable unrecoverable = true
same_sentinel unknown_key unknown_key = true
same_sentinel blocked blocked = true
same_sentinel _ _ = false

-- errors.Is(err, target) for a sentinel `target`. RetryAfterError.Unwrap gives its Err.
unfoldable pub is_error : Error → Error → Bool
is_error target (retry_after d e) = is_error target e
is_error target (wrap m e) = is_error target e
is_error target (join e f) = is_error target e || is_error target f
is_error target nil = false
is_error target (message m) = false
is_error target e = same_sentinel target e
