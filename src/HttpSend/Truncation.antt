-- ===== src/HttpSend/Truncation.antt =====
-- Truncate cuts between runes, as late as it can.
use mathlib.Core.Path.{subst}
use native.Mathlib.Nat.{zero-add}
use mkqd.Base.{
  ℕ, zero, suc, ◌+◌, ◌≤◌, ◌<◌, ◌≡◌, ◌⊎◌, inl, inr, refl, sym, ap, ◌∙◌, true, false, List, [], ◌∷◌,
  ◌++◌, Bytes, arith, All, length, take, length-append, length-take, length-take-le, ◌-◌, ltb,
  ltb→lt, Bool-cases,
}
use mkqd.HttpSend.{is_rune_start, byte_at, back_up, truncate, truncated_mark}

abbrev IsContinuation : ℕ → Type 0
IsContinuation b = is_rune_start b ≡ false

-- The shape of one UTF-8 encoded rune: a starting byte and at most three continuation bytes.
abbrev pub IsRune : Bytes → Type 0
IsRune [] = ⊥
IsRune (b ∷ cs) = (is_rune_start b ≡ true) × All IsContinuation cs × (length cs ≤ 3)

back_up-le : (s : Bytes) (n : ℕ) → back_up s n ≤ n
unfolding back_up
back_up-le s zero = omega arith
back_up-le s (suc n) = ground (arith, back_up-le s n)

back_up_stop :
    (s : Bytes) (n : ℕ) → (back_up s n ≡ 0) ⊎ (is_rune_start (byte_at s (back_up s n)) ≡ true)
unfolding back_up
back_up_stop s zero = inl refl
back_up_stop s (suc n) = ground (arith, back_up_stop s n)

back_up_skips :
    (s : Bytes) (n j : ℕ) → back_up s n < j → j ≤ n → is_rune_start (byte_at s j) ≡ false
unfolding back_up
back_up_skips s zero j a b = absurd (omega arith)
back_up_skips s (suc n) j a b = ground (arith, back_up_skips s n j)

suc-add : (a b : ℕ) → suc a + b ≡ suc (a + b)
suc-add a b = omega arith

byte_at-append : (r s : Bytes) (i : ℕ) → byte_at (r ++ s) (length r + i) ≡ byte_at s i
byte_at-append [] s i = ap (byte_at s) (omega arith)
byte_at-append (b ∷ r) s i = rw (suc-add (length r) i) (byte_at-append r s i)

take-append : (r s : Bytes) (i : ℕ) → take (length r + i) (r ++ s) ≡ r ++ take i s
take-append [] s i = ap (λ (n : ℕ). take n s) (zero-add i)
take-append (b ∷ r) s i = rw (suc-add (length r) i) (ap (◌∷◌ b) (take-append r s i))

byte_at_continuation :
    (cs s : Bytes) (i : ℕ)
    → All IsContinuation cs
    → i < length cs
    → is_rune_start (byte_at (cs ++ s) i) ≡ false
byte_at_continuation [] s i h lt = absurd (omega arith)
byte_at_continuation (c ∷ cs) s zero h lt = h.0
byte_at_continuation (c ∷ cs) s (suc i) h lt = byte_at_continuation cs s i h.1 (omega arith)

-- The text that a list of runes spells.
abbrev pub spelled : List Bytes → Bytes
spelled [] = []
spelled (r ∷ rs) = r ++ spelled rs

first_start :
    (rs : List Bytes)
    → All IsRune rs
    → 0 < length (spelled rs)
    → is_rune_start (byte_at (spelled rs) 0) ≡ true
first_start [] h lt = absurd (omega arith)
first_start ([] ∷ rs) h lt = absurd h.0
first_start ((b ∷ cs) ∷ rs) h lt = h.0.0

-- `cut` is where a loop down from `limit` stops.
record Stops (s : Bytes) (cut limit : ℕ) : Type 0 where
  below : cut ≤ limit
  inside : limit < length s
  stop : (cut ≡ 0) ⊎ (is_rune_start (byte_at s cut) ≡ true)
  skips : (j : ℕ) → cut < j → j ≤ limit → is_rune_start (byte_at s j) ≡ false

-- The first `cut` bytes are whole runes, and less than a rune is lost below `limit`.
abbrev pub CutBetween : List Bytes → ℕ → ℕ → Type 0
CutBetween rs cut limit =
    (ks : List Bytes) × (ms : List Bytes) × (rs ≡ ks ++ ms)
    × (take cut (spelled rs) ≡ spelled ks)
    × (limit < cut + 4)

at_zero :
    (b : ℕ) (cs : Bytes) (rs : List Bytes) (limit : ℕ)
    → All IsRune ((b ∷ cs) ∷ rs)
    → Stops (spelled ((b ∷ cs) ∷ rs)) 0 limit
    → limit < 4
at_zero b cs rs limit h st = elim (Bool-cases (ltb limit 4)) [
  | inl small ↦ ltb→lt limit 4 small
  | inr large ↦
      let fits : 0 < length (spelled rs) =
        ground (arith, h.0.2, st.inside, length-append (b ∷ cs) (spelled rs)) in
      let skipped = st.skips (length (b ∷ cs) + 0) (omega arith) (ground (arith, h.0.2)) in
      cc (skipped, byte_at-append (b ∷ cs) (spelled rs) 0, first_start rs h.1 fits)
]

shifted :
    (r s : Bytes) (cut limit : ℕ)
    → Stops (r ++ s) (length r + cut) limit
    → Stops s cut (limit - length r)
shifted r s cut limit st = record {
  below = omega (arith, st.below);
  inside = omega (arith, st.inside, st.below, length-append r s);
  stop = ground (arith, st.stop, byte_at-append r s cut);
  skips = λ j a b.
      ap is_rune_start (sym (byte_at-append r s j))
      ∙ st.skips (length r + j) (omega arith) (omega (arith, st.below));
}

Stops-CutBetween :
    (rs : List Bytes) (cut limit : ℕ)
    → All IsRune rs
    → Stops (spelled rs) cut limit
    → CutBetween rs cut limit
Stops-CutBetween [] cut limit h st = absurd (omega (arith, st.inside))
Stops-CutBetween ([] ∷ rs) cut limit h st = absurd h.0
Stops-CutBetween ((b ∷ cs) ∷ rs) zero limit h st =
    ([], (b ∷ cs) ∷ rs, refl, refl, omega (arith, at_zero b cs rs limit h st))
Stops-CutBetween ((b ∷ cs) ∷ rs) (suc c) limit h st = elim (Bool-cases (ltb c (length cs))) [
  | inl within ↦ absurd (
      ground (
        arith,
        st.stop,
        byte_at_continuation cs (spelled rs) c h.0.1 (ltb→lt c (length cs) within),
      ))
  | inr past ↦
      let k = c - length cs in
      let e : suc c ≡ length (b ∷ cs) + k = ground arith in
      let st' =
        shifted (b ∷ cs) (spelled rs) k limit
          (subst (λ (n : ℕ). Stops (spelled ((b ∷ cs) ∷ rs)) n limit) e st) in
      let (ks, ms, split, taken, close) = Stops-CutBetween rs k (limit - length (b ∷ cs)) h.1 st' in
      (
        (b ∷ cs) ∷ ks,
        ms,
        ap (◌∷◌ (b ∷ cs)) split,
        ap (λ (n : ℕ). take n (spelled ((b ∷ cs) ∷ rs))) e
            ∙ take-append (b ∷ cs) (spelled rs) k
            ∙ ap (λ (t : Bytes). (b ∷ cs) ++ t) taken,
        omega arith,
      )
]

-- On UTF-8 text longer than the limit the result is the mark behind whole leading runes, which hold
-- at most `limit` bytes, and more than `limit` less four.
pub truncate_runes :
    (rs : List Bytes) (limit : ℕ)
    → All IsRune rs
    → limit < length (spelled rs)
    → (ks : List Bytes) × (ms : List Bytes) × (rs ≡ ks ++ ms)
      × (truncate (spelled rs) limit ≡ spelled ks ++ truncated_mark)
      × (length (spelled ks) ≤ limit)
      × (limit < length (spelled ks) + 4)
unfolding truncate
truncate_runes rs limit h long =
    let cut = back_up (spelled rs) limit in
    let below = back_up-le (spelled rs) limit in
    let (ks, ms, split, taken, close) = Stops-CutBetween rs cut limit h (record {
      below = below;
      inside = long;
      stop = back_up_stop (spelled rs) limit;
      skips = back_up_skips (spelled rs) limit;
    }) in
    let size : length (spelled ks) ≡ cut =
      sym (ap length taken) ∙ length-take cut (spelled rs) (omega arith) in
    (ks, ms, split, ground arith, omega arith, omega arith)

-- Text within the limit is kept.
truncate_short : (s : Bytes) (limit : ℕ) → length s ≤ limit → truncate s limit ≡ s
unfolding truncate
truncate_short s limit h = ground arith

-- At most `limit` bytes stand before the mark, on any bytes.
pub length-truncate :
    (s : Bytes) (limit : ℕ) → length (truncate s limit) ≤ limit + length truncated_mark
unfolding truncate
length-truncate s limit = ground (
  arith,
  length-append (take (back_up s limit) s) truncated_mark,
  length-take-le (back_up s limit) s,
  back_up-le s limit,
)
