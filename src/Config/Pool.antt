-- ===== src/Config/Pool.antt =====
-- The connection pool of config.go holds a connection for every declared worker slot.
use native.Mathlib.Nat.{add_assoc, zero-add}
use mkqd.Base.{ℕ, ◌+◌, ◌≤◌, ◌≡◌, ap, ◌∙◌, List, [], ◌∷◌, All, arith, if◌then◌else◌, ◌==◌}
use mkqd.Base.Int.{pos, pos_part, ◌+ℤ◌, wrap64, wrap64_pos, max_int64}
use mkqd.Config.{
  Config, QueueConfig, queue_concurrency, sum_concurrency, declared_concurrency, auto_pool_size,
  or_int,
}
use mkqd.Config.Validity.{IsValidQueue}

-- The worker slots of one queue, and of all of them, with no bound.
abbrev pub slots : ℕ → QueueConfig → ℕ
slots d q = pos_part (queue_concurrency (pos d) q.concurrency)

abbrev pub total_slots : ℕ → List QueueConfig → ℕ
total_slots d [] = 0
total_slots d (q ∷ qs) = slots d q + total_slots d qs

slots_pos :
    (d : ℕ) (q : QueueConfig)
    → IsValidQueue q
    → queue_concurrency (pos d) q.concurrency ≡ pos (slots d q)
unfolding queue_concurrency
slots_pos d q v = ground (arith, v.concurrency)

add_pos : (a b : ℕ) → a + b ≤ max_int64 → wrap64 (pos a +ℤ pos b) ≡ pos (a + b)
unfolding ◌+ℤ◌
add_pos a b h = ground (arith, wrap64_pos (a + b) h)

pub sum_concurrency_exact :
    (d t : ℕ) (qs : List QueueConfig)
    → All IsValidQueue qs
    → t + total_slots d qs ≤ max_int64
    → sum_concurrency (pos d) (pos t) qs ≡ pos (t + total_slots d qs)
unfolding sum_concurrency
sum_concurrency_exact d t [] v h = ap pos (omega arith)
sum_concurrency_exact d t (q ∷ qs) v h =
    let s = slots d q in
    rw (slots_pos d q v.0, add_pos t s (omega arith))
      (sum_concurrency_exact d (t + s) qs v.1 (omega arith)
        ∙ ap pos (add_assoc t s (total_slots d qs)))

-- With a default concurrency that is not negative, valid queues, and slots within int64, the
-- automatic pool is eight larger than the declared worker slots, or than the default where no queue
-- is declared.
pub auto_pool_size_exact :
    (c : Config) (d : ℕ)
    → c.defaults.concurrency ≡ pos d
    → All IsValidQueue c.queues
    → d + total_slots d c.queues + 8 ≤ max_int64
    → auto_pool_size c
      ≡ pos ((if total_slots d c.queues == 0 then d else total_slots d c.queues) + 8)
unfolding auto_pool_size declared_concurrency
auto_pool_size_exact c d e v h =
    let n = total_slots d c.queues in
    let m : ℕ = if n == 0 then d else n in
    let s : sum_concurrency (pos d) (pos 0) c.queues ≡ pos n =
      sum_concurrency_exact d 0 c.queues v (omega arith) ∙ ap pos (zero-add n) in
    rw (e, s) (step n d (add_pos m 8 (ground arith)))
  where
    step :
        (n d : ℕ)
        → wrap64 (pos (if n == 0 then d else n) +ℤ pos 8) ≡ pos ((if n == 0 then d else n) + 8)
        → wrap64 (or_int (pos n) (pos d) +ℤ pos 8) ≡ pos ((if n == 0 then d else n) + 8)
    step n d p = ground (arith, p)
