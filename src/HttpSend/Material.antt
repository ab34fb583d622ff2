-- ===== src/HttpSend/Material.antt =====
-- The signed material determines the timestamp and the body.
use mkqd.Base.{ℕ, suc, ◌≡◌, ◌≢◌, refl, sym, ap, ◌∙◌, [], ◌∷◌, ◌++◌, Bytes, arith, All}
use mkqd.Base.Int.{ℤ, pos, negsuc}
use mkqd.Base.Digits.{IsDigit, value}
use mkqd.HttpSend.Decimal.{format_int, format_nat, value-format_nat, format_nat-IsDigit}
use mkqd.HttpSend.{sign_hmac, signed_material}

-- Digits in front of a colon end where the colon stands.
digits_colon :
    (s t x y : Bytes)
    → All IsDigit s
    → All IsDigit t
    → s ++ (b':' ∷ x) ≡ t ++ (b':' ∷ y)
    → (s ≡ t) × (x ≡ y)
digits_colon [] [] x y hs ht e = (refl, cc)
digits_colon [] (d ∷ t) x y hs ht e = ground arith
digits_colon (c ∷ s) [] x y hs ht e = ground arith
digits_colon (c ∷ s) (d ∷ t) x y hs ht e = ground (arith, digits_colon s t x y hs.1 ht.1)

format_nat_inj : (m n : ℕ) → format_nat m ≡ format_nat n → m ≡ n
format_nat_inj m n e = sym (value-format_nat m) ∙ ap (value 0) e ∙ value-format_nat n

nats :
    (m n : ℕ) (x y : Bytes)
    → format_nat m ++ (b':' ∷ x) ≡ format_nat n ++ (b':' ∷ y)
    → (m ≡ n) × (x ≡ y)
nats m n x y e =
    let (p, q) =
      digits_colon (format_nat m) (format_nat n) x y (format_nat-IsDigit m) (format_nat-IsDigit n)
        e in
    (format_nat_inj m n p, q)

minus_digits : (s x y : Bytes) → All IsDigit s → s ++ (b':' ∷ x) ≢ b'-' ∷ y
minus_digits [] x y h e = ground arith
minus_digits (c ∷ s) x y h e = ground arith

-- Two requests have the same signed material only if they have the same timestamp and body.
signed_material_inj :
    (m n : ℤ) (x y : Bytes) → signed_material m x ≡ signed_material n y → (m ≡ n) × (x ≡ y)
unfolding signed_material format_int
signed_material_inj (pos m) (pos n) x y e = ground (arith, nats m n x y)
signed_material_inj (negsuc m) (negsuc n) x y e = ground (arith, nats (suc m) (suc n) x y)
signed_material_inj (pos m) (negsuc n) x y e =
    ground (
      arith,
      minus_digits (format_nat m) x (format_nat (suc n) ++ (b':' ∷ y)) (format_nat-IsDigit m),
    )
signed_material_inj (negsuc m) (pos n) x y e =
    ground (
      arith,
      minus_digits (format_nat n) y (format_nat (suc m) ++ (b':' ∷ x)) (format_nat-IsDigit n),
    )

module _ (hmac : Bytes → Bytes → Bytes) (secret : Bytes) where
  -- Of messages that do not collide under HMAC.
  pub sign_hmac_inj :
      (ts us : ℤ) (x y : Bytes)
      → (hmac secret (signed_material ts x) ≡ hmac secret (signed_material us y)
          → signed_material ts x ≡ signed_material us y)
      → sign_hmac hmac secret ts x ≡ sign_hmac hmac secret us y
      → (ts ≡ us) × (x ≡ y)
  unfolding sign_hmac
  sign_hmac_inj ts us x y distinct same = signed_material_inj ts us x y (distinct (cc (same)))
