-- ===== src/HttpSend/Transfer.antt =====
-- How much of a response is kept and read.
use mkqd.Base.{
  ℕ, ◌+◌, ◌≤◌, ◌≡◌, sym, ap, ◌∙◌, ◌++◌, Bytes, some, arith, length, take, drop, length-append,
  length-take-le, take-append-drop, Bool-cases, inl, inr, ◌&&◌, ltb,
}
use mkqd.Base.Int.{ℤ}
use mkqd.HttpSend.{Body, read_body, read_limit, drain_limit}

split_length : (n : ℕ) (s : Bytes) → length s ≡ length (take n s) + length (drop n s)
split_length n s = sym (ap length (take-append-drop n s)) ∙ length-append (take n s) (drop n s)

read_body_rest :
    (body : Body) (max : ℤ)
    → (read_body body max).1 ≡ drop drain_limit (drop (read_limit max) body.bytes)
unfolding read_body
read_body_rest body max =
    elim (Bool-cases (body.fails && ltb (length body.bytes) (read_limit max))) [
      | inl e ↦ rw e
      | inr e ↦ rw e
    ]

-- The transfer is bounded: no more of the body is read than the limit and the drain limit together.
pub read_body_transfer :
    (body : Body) (max : ℤ)
    → length body.bytes ≤ read_limit max + drain_limit + length (read_body body max).1
read_body_transfer body max =
    let n = read_limit max in
    rw (read_body_rest body max) (
      omega (
        arith,
        split_length n body.bytes,
        split_length drain_limit (drop n body.bytes),
        length-take-le n body.bytes,
        length-take-le drain_limit (drop n body.bytes),
      ))

-- What is kept is the front of the body, no longer than the limit.
pub read_body_kept :
    (body : Body) (max : ℤ) (kept : Bytes)
    → (read_body body max).0 ≡ some kept
    → (length kept ≤ read_limit max) × ((rest : Bytes) × (body.bytes ≡ kept ++ rest))
unfolding read_body
read_body_kept body max kept h =
    let n = read_limit max in
    (
      ground (arith, length-take-le n body.bytes),
      (drop n body.bytes, ground (arith, take-append-drop n body.bytes)),
    )
