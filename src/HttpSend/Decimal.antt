-- ===== src/HttpSend/Decimal.antt =====
-- strconv.FormatInt(n, 10), as httpsend.go and httpexec.go call it.
use mkqd.Base.{
  ℕ, zero, suc, ◌+◌, ◌-◌, ◌*◌, ◌/◌, ◌%◌, ◌<◌, ◌≡◌, ap, [], ◌∷◌, Bytes, arith, All, ◌==◌,
  if◌then◌else◌,
}
use mkqd.Base.Digits.{IsDigit, value}
use mkqd.Base.Int.{ℤ, pos, negsuc}

-- The digits of `n` in front of `out`; more rounds than `n` are enough.
unfoldable pub digits : ℕ → ℕ → Bytes → Bytes
digits zero n out = out
digits (suc f) n out =
    let rest = digits f (n / 10) ((b'0' + n % 10) ∷ out) in
    if n / 10 == 0 then (b'0' + n % 10) ∷ out else rest

unfoldable pub format_nat : ℕ → Bytes
unfolding digits
format_nat n = digits (suc n) n []

unfoldable pub format_int : ℤ → Bytes
unfolding format_nat
format_int (pos n) = format_nat n
format_int (negsuc n) = b'-' ∷ format_nat (suc n)

value-digits : (f n : ℕ) (out : Bytes) → n < f → value 0 (digits f n out) ≡ value n out
unfolding digits
value-digits zero n out h = absurd (omega arith)
value-digits (suc f) n out h =
    ground
      (arith, value-digits f (n / 10) ((b'0' + n % 10) ∷ out), ap (λ (k : ℕ). value k out) (last n))
  where
    last : (m : ℕ) → (m / 10) * 10 + (b'0' + m % 10 - b'0') ≡ m
    last m = omega arith

digits-IsDigit : (f n : ℕ) (out : Bytes) → All IsDigit out → All IsDigit (digits f n out)
unfolding digits
digits-IsDigit zero n out h = h
digits-IsDigit (suc f) n out h = ground (arith, digits-IsDigit f (n / 10) ((b'0' + n % 10) ∷ out))

pub value-format_nat : (n : ℕ) → value 0 (format_nat n) ≡ n
unfolding format_nat
value-format_nat n = value-digits (suc n) n [] (omega arith)

pub format_nat-IsDigit : (n : ℕ) → All IsDigit (format_nat n)
unfolding format_nat
format_nat-IsDigit n = digits-IsDigit (suc n) n [] tt
