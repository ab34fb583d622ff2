-- ===== src/Examples/RetryAfter.antt =====
-- Runs of the delay model at concrete headers, and the theorems at inputs that meet their premises.
use mkqd.Base.{◌≡◌, refl, none, some, Option, Bytes, codes, arith}
use mkqd.Base.Int.{ℤ, pos, max_int64}
use mkqd.RetryAfter.Number.{parse_int}
use mkqd.RetryAfter.Digits.{parse_retry_after_digits}
use mkqd.RetryAfter.{parse_retry_after}

-- A reader for which every text is one date, and one for which none is.
abbrev one_date : Bytes → Option ℤ
one_date v = some (pos 5_000)

abbrev no_date : Bytes → Option ℤ
no_date v = none

two_minutes : parse_retry_after no_date (codes "120") (pos 0) ≡ some (pos 120_000_000_000)
unfolding parse_retry_after parse_int
two_minutes = refl

in_the_past : parse_retry_after one_date (codes "Wed, 21 Oct 2026 07:28:00 GMT") (pos 6_000) ≡ none
unfolding parse_retry_after parse_int
in_the_past = refl

negative : parse_retry_after no_date (codes "-5") (pos 0) ≡ none
unfolding parse_retry_after parse_int
negative = refl

parse_retry_after_digits_example :
    parse_retry_after no_date (codes "9223372037") (pos 0) ≡ some (pos max_int64)
parse_retry_after_digits_example =
    parse_retry_after_digits no_date (pos 0) (codes "9223372037") (cc) (omega arith)
