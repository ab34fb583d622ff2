-- ===== src/RetryAfter/Digits.antt =====
-- Delta-seconds of any length.
use mkqd.Base.{
  ℕ, ◌+◌, ◌-◌, ◌*◌, ◌≤◌, ◌<◌, ◌≡◌, ◌≢◌, refl, Option, some, [], ◌∷◌, ◌++◌, Bytes, arith, All, leb,
  if◌then◌else◌, ltb,
}
use mkqd.Base.Digits.{IsDigit, value, value_grows}
use mkqd.Base.Int.{ℤ, pos, max_int64}
use mkqd.RetryAfter.Number.{UintResult, max_uint64, scan_uint, parse_int}
use mkqd.RetryAfter.{parse_retry_after, second, max_delta_seconds}

scan_uint-value :
    (s : Bytes) (n : ℕ)
    → All IsDigit s
    → n ≤ max_uint64
    → scan_uint s n ≡ (
        if ltb max_uint64 (value n s) then UintResult.out_of_range else UintResult.uint (value n s))
unfolding scan_uint
scan_uint-value [] n h b = ground arith
scan_uint-value (c ∷ s) n (hc, hs) b =
    let m : ℕ = n * 10 + (c - b'0') in ground (arith, scan_uint-value s m hs, value_grows m s)

-- Once the digits are out of range, what follows them is not read.
scan_uint_overflow :
    (s t : Bytes) (n : ℕ)
    → All IsDigit s
    → n ≤ max_uint64
    → max_uint64 < value n s
    → scan_uint (s ++ t) n ≡ UintResult.out_of_range
unfolding scan_uint
scan_uint_overflow [] t n h b v = absurd (omega arith)
scan_uint_overflow (c ∷ s) t n (hc, hs) b v =
    let m : ℕ = n * 10 + (c - b'0') in ground (arith, scan_uint_overflow s t m hs)

-- A Retry-After of digits alone, however many, is that number of seconds, and the largest duration
-- where the number is above maxDeltaSeconds.
pub parse_retry_after_digits :
    (parse_time : Bytes → Option ℤ) (now : ℤ) (s : Bytes)
    → s ≢ []
    → All IsDigit s
    → parse_retry_after parse_time s now
      ≡ some (pos (if leb (value 0 s) max_delta_seconds then value 0 s * second else max_int64))
unfolding parse_retry_after parse_int
parse_retry_after_digits parse_time now [] ne h = absurd (ne refl)
parse_retry_after_digits parse_time now (c ∷ s) ne h = ground (arith, scan_uint-value (c ∷ s) 0 h)

-- Digits whose number is above the largest uint64 give the largest duration whatever follows them.
parse_retry_after_overflow :
    (parse_time : Bytes → Option ℤ) (now : ℤ) (s t : Bytes)
    → All IsDigit s
    → max_uint64 < value 0 s
    → parse_retry_after parse_time (s ++ t) now ≡ some (pos max_int64)
unfolding parse_retry_after parse_int
parse_retry_after_overflow parse_time now [] t h v = absurd (omega arith)
parse_retry_after_overflow parse_time now (c ∷ s) t h v =
    ground (arith, scan_uint_overflow (c ∷ s) t 0 h)
