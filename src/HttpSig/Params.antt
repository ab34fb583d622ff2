-- ===== src/HttpSig/Params.antt =====
-- Quoted parameters of the Signature header: splitParams keeps them whole, and trimming takes the
-- quotes off.
use mathlib.Core.List.{
  reverse, append_assoc, append-nil, reverse-append, reverse-reverse, reverse-cons,
}
use mkqd.Base.{
  ℕ, ◌≡◌, ◌≢◌, refl, sym, ap, ◌∙◌, Bool, true, false, List, [], ◌∷◌, ◌++◌, Bytes, All, arith, trim,
  trim_left, is_space, ◌==◌,
}
use mkqd.HttpSig.Header.{quoted, param, split_from, unquote}

abbrev pub NoQuote : Bytes → Type 0
NoQuote = All (λ b. b ≢ b'"')

abbrev pub IsPlain : Bytes → Type 0
IsPlain = All (λ b. (b ≢ b'"') × (b ≢ b','))

split_quoted :
    (t cur rest : Bytes)
    → NoQuote t
    → split_from true cur (t ++ rest) ≡ split_from true (cur ++ t) rest
unfolding split_from
split_quoted [] cur rest h = rw append-nil
split_quoted (c ∷ t) cur rest h =
    let step : split_from true cur (c ∷ (t ++ rest))
        ≡ split_from true (cur ++ (c ∷ [])) (t ++ rest) =
      ground arith in
    step
    ∙ split_quoted t (cur ++ (c ∷ [])) rest h.1
    ∙ ap (λ (s : Bytes). split_from true s rest) (append_assoc cur (c ∷ []) t)

split_plain :
    (t cur rest : Bytes)
    → IsPlain t
    → split_from false cur (t ++ rest) ≡ split_from false (cur ++ t) rest
unfolding split_from
split_plain [] cur rest h = rw append-nil
split_plain (c ∷ t) cur rest h =
    let step : split_from false cur (c ∷ (t ++ rest))
        ≡ split_from false (cur ++ (c ∷ [])) (t ++ rest) =
      ground arith in
    step
    ∙ split_plain t (cur ++ (c ∷ [])) rest h.1
    ∙ ap (λ (s : Bytes). split_from false s rest) (append_assoc cur (c ∷ []) t)

split_close :
    (cur rest : Bytes)
    → split_from true cur (b'"' ∷ rest) ≡ split_from false (cur ++ (b'"' ∷ [])) rest
unfolding split_from
split_close cur rest = refl

split_open :
    (cur rest : Bytes)
    → split_from false cur (b'=' ∷ b'"' ∷ rest)
      ≡ split_from true ((cur ++ (b'=' ∷ [])) ++ (b'"' ∷ [])) rest
unfolding split_from
split_open cur rest = refl

-- A parameter is read whole, whatever stands in its quotes.
pub split_param :
    (name v rest : Bytes)
    → IsPlain name
    → NoQuote v
    → split_from false [] (param name v ++ rest) ≡ split_from false (param name v) rest
split_param name v rest n q =
    ap (split_from false []) (append_assoc name (b'=' ∷ quoted v) rest)
    ∙ split_plain name [] _ n
    ∙ split_open name _
    ∙ ap (split_from true _) (append_assoc v (b'"' ∷ []) rest)
    ∙ split_quoted v _ (b'"' ∷ rest) q
    ∙ split_close _ rest
    ∙ ap (λ (s : Bytes). split_from false s rest) (regroup name v)
  where
    regroup : (a b : Bytes) → (((a ++ (b'=' ∷ [])) ++ (b'"' ∷ [])) ++ b) ++ (b'"' ∷ []) ≡ param a b
    regroup a b = simp append_assoc

pub split_comma :
    (cur rest : Bytes) → split_from false cur (b',' ∷ rest) ≡ cur ∷ split_from false [] rest
unfolding split_from
split_comma cur rest = refl

All-append {ℓ} :
    {A : Type 0} (P : A → Type ℓ) (xs ys : List A) → All P xs → All P ys → All P (xs ++ ys)
All-append P [] ys hx hy = hy
All-append P (x ∷ xs) ys hx hy = (hx.0, All-append P xs ys hx.1 hy)

NoQuote-reverse : (v : Bytes) → NoQuote v → NoQuote (reverse v)
NoQuote-reverse [] h = tt
NoQuote-reverse (c ∷ v) h =
    rw (reverse-cons c v)
      (All-append (λ b. b ≢ b'"') (reverse v) (c ∷ []) (NoQuote-reverse v h.1) (h.0, tt))

module _ (p : ℕ → Bool) where
  trim_left_stop : (c : ℕ) (s : Bytes) → p c ≡ false → trim_left p (c ∷ s) ≡ c ∷ s
  unfolding trim_left
  trim_left_stop c s h = rw h

  trim_left_drop : (c : ℕ) (s : Bytes) → p c ≡ true → trim_left p (c ∷ s) ≡ trim_left p s
  unfolding trim_left
  trim_left_drop c s h = rw h

  trim_left_clean : (s : Bytes) → All (λ b. p b ≡ false) s → trim_left p s ≡ s
  unfolding trim_left
  trim_left_clean [] h = refl
  trim_left_clean (c ∷ s) h = rw h.0

reverse-quoted : (v : Bytes) → reverse (quoted v) ≡ quoted (reverse v)
reverse-quoted v =
    reverse-cons b'"' (v ++ (b'"' ∷ []))
    ∙ ap (λ (s : Bytes). s ++ (b'"' ∷ [])) (reverse-append v (b'"' ∷ []))

-- Between quotes no space is trimmed.
trim_space-quoted : (v : Bytes) → trim is_space (quoted v) ≡ quoted v
unfolding trim
trim_space-quoted v =
    ap (λ (s : Bytes). reverse (trim_left is_space (reverse s)))
      (trim_left_stop is_space b'"' _ quote_no_space)
    ∙ ap (λ (s : Bytes). reverse (trim_left is_space s)) (reverse-quoted v)
    ∙ ap reverse (trim_left_stop is_space b'"' _ quote_no_space)
    ∙ ap reverse (sym (reverse-quoted v))
    ∙ reverse-reverse (quoted v)
  where
    quote_no_space : is_space b'"' ≡ false
    quote_no_space = unfold is_space in refl

clean : (v : Bytes) → NoQuote v → All (λ b. (b == b'"') ≡ false) v
clean [] h = tt
clean (c ∷ v) h = (ground arith, clean v h.1)

trim_behind : (v : Bytes) → NoQuote v → trim (λ c. c == b'"') (quoted v) ≡ v
unfolding trim trim_left
trim_behind [] h = refl
trim_behind (c ∷ v) h =
    let p = λ (c : ℕ). c == b'"' in
    let start : trim_left p (quoted (c ∷ v)) ≡ (c ∷ v) ++ (b'"' ∷ []) =
      trim_left_drop p b'"' ((c ∷ v) ++ (b'"' ∷ [])) refl
      ∙ trim_left_stop p c (v ++ (b'"' ∷ [])) (clean (c ∷ v) h).0 in
    ap (λ (s : Bytes). reverse (trim_left p (reverse s))) start
    ∙ ap (λ (s : Bytes). reverse (trim_left p s)) (reverse-append (c ∷ v) (b'"' ∷ []))
    ∙ ap reverse (trim_left_drop p b'"' (reverse (c ∷ v)) refl)
    ∙ ap reverse (trim_left_clean p (reverse (c ∷ v)) (clean _ (NoQuote-reverse (c ∷ v) h)))
    ∙ reverse-reverse (c ∷ v)

pub unquote-quoted : (v : Bytes) → NoQuote v → unquote (quoted v) ≡ v
unfolding unquote
unquote-quoted v h = ap (trim (λ c. c == b'"')) (trim_space-quoted v) ∙ trim_behind v h
