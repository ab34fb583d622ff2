-- ===== src/Service/Pool.antt =====
-- The warning of warnPoolSize is silent for a pool that mkqd sizes itself, where every queue comes from
-- the configuration.
use native.Mathlib.Nat.{zero-add}
use mkqd.Base.{
  ℕ, ◌+◌, ◌≤◌, ◌≡◌, refl, ap, ◌∙◌, inl, inr, none, some, Option-cases, List, [], ◌∷◌, ◌==◌, Bytes,
  lookup, All, Any, arith, if◌then◌else◌,
}
use mkqd.Base.Int.{ℤ, pos, ◌+ℤ◌, wrap64, wrap64_pos, max_int64}
use mkqd.Config.{
  Config, QueueConfig, queue_config, queue_concurrency, sum_concurrency, auto_pool_size,
  pool_headroom, or_int,
}
use mkqd.Config.Lookup.{queue_config_found}
use mkqd.Config.Pool.{total_slots, sum_concurrency_exact, auto_pool_size_exact}
use mkqd.Config.Validity.{IsValid, Distinct}
use mkqd.Registry.{Queues, Factory, build_configured_queues, registered_queues}
use mkqd.Registry.Complete.{IsFiled, build_files-All}
use mkqd.Registry.Order.{
  IsConfigured, names_of, build-IsConfigured, fresh-IsConfigured, registered_queues-build,
}
use mkqd.Service.{
  no_queues, registration_of, tuned_concurrency, total_concurrency, pool_warning, warn_pool_size,
}
use mkqd.Tuning.{unset, resolve_tuning}
use mkqd.Tuning.Precedence.{resolve_tuning-layers}

All-weaken :
    (r : QueueConfig) (qs ps : List QueueConfig)
    → All (λ q. Any (λ p. p ≡ q) qs) ps
    → All (λ q. Any (λ p. p ≡ q) (r ∷ qs)) ps
All-weaken r qs [] h = tt
All-weaken r qs (p ∷ ps) h = (inr h.0, All-weaken r qs ps h.1)

pub All-members : (qs : List QueueConfig) → All (λ q. Any (λ p. p ≡ q) qs) qs
All-members [] = tt
All-members (q ∷ qs) = (inl refl, All-weaken q qs qs (All-members qs))

-- A queue that only the configuration knows has its configured concurrency, or the default.
unset_concurrency :
    (c : Config) (q : QueueConfig)
    → queue_config c.queues q.name ≡ some q
    → (resolve_tuning c q.name unset).concurrency
      ≡ queue_concurrency c.defaults.concurrency q.concurrency
unfolding queue_concurrency
unset_concurrency c q h = rw (resolve_tuning-layers c q.name unset, h) (ground arith)

configured_concurrency :
    (c : Config) (s : Queues) (q : QueueConfig)
    → IsConfigured s
    → IsFiled q.name s
    → queue_config c.queues q.name ≡ some q
    → tuned_concurrency c (registration_of s q.name)
      ≡ queue_concurrency c.defaults.concurrency q.concurrency
configured_concurrency c s q v f h = elim (Option-cases (lookup q.name s.registry)) [
  | inl n ↦ ground (arith, f)
  | inr (r, e) ↦ let k = v q.name r e in rw (e, k.0, k.1.0) (unset_concurrency c q h)
]

total-sum :
    (c : Config) (s : Queues) (qs : List QueueConfig) (t : ℤ)
    → All
        (λ q.
          tuned_concurrency c (registration_of s q.name)
          ≡ queue_concurrency c.defaults.concurrency q.concurrency)
        qs
    → total_concurrency c s t (names_of qs) ≡ sum_concurrency c.defaults.concurrency t qs
unfolding total_concurrency sum_concurrency
total-sum c s [] t h = refl
total-sum c s (q ∷ qs) t h =
    total-sum c s qs (wrap64 (t +ℤ tuned_concurrency c (registration_of s q.name))) h.1
    ∙ ap (λ n. sum_concurrency c.defaults.concurrency (wrap64 (t +ℤ n)) qs) h.0

pointwise :
    (c : Config) (s : Queues) (qs : List QueueConfig)
    → IsConfigured s
    → Distinct c.queues
    → All (λ q. IsFiled q.name s) qs
    → All (λ q. Any (λ p. p ≡ q) c.queues) qs
    → All
        (λ q.
          tuned_concurrency c (registration_of s q.name)
          ≡ queue_concurrency c.defaults.concurrency q.concurrency)
        qs
pointwise c s [] v d f m = tt
pointwise c s (q ∷ qs) v d f m = (
  configured_concurrency c s q v f.0 (queue_config_found q c.queues d m.0),
  pointwise c s qs v d f.1 m.1,
)

-- The total of the warning is that of the declared worker slots.
total_exact :
    (fs : List (Bytes × Factory)) (c : Config) (d : ℕ)
    → IsValid c
    → c.defaults.concurrency ≡ pos d
    → total_slots d c.queues ≤ max_int64
    → (build_configured_queues fs no_queues c.queues).1 ≡ none
    → total_concurrency c
        (build_configured_queues fs no_queues c.queues).0
        (pos 0)
        (registered_queues (build_configured_queues fs no_queues c.queues).0)
      ≡ pos (total_slots d c.queues)
total_exact fs c d v e h b =
    let s = (build_configured_queues fs no_queues c.queues).0 in
    ap (total_concurrency c s (pos 0))
      (registered_queues-build fs c.queues no_queues refl refl v.distinct b)
    ∙ total-sum c s c.queues (pos 0) (
        pointwise c s c.queues
          (build-IsConfigured fs c.queues no_queues (fresh-IsConfigured no_queues refl)) v.distinct
          (build_files-All fs c.queues no_queues b) (All-members c.queues))
    ∙ ap (λ n. sum_concurrency n (pos 0) c.queues) e
    ∙ sum_concurrency_exact d 0 c.queues v.queues (omega (arith, h))
    ∙ ap pos (zero-add (total_slots d c.queues))

add_headroom : (n : ℕ) → n + 8 ≤ max_int64 → wrap64 (pos n +ℤ pool_headroom) ≡ pos (n + 8)
unfolding ◌+ℤ◌
add_headroom n h = ground (arith, wrap64_pos (n + 8) h)

silent :
    (n d : ℕ) (size auto total : ℤ)
    → size ≡ pos 0
    → auto ≡ pos ((if n == 0 then d else n) + 8)
    → total ≡ pos n
    → d + n + 8 ≤ max_int64
    → pool_warning (or_int size auto) total ≡ none
unfolding pool_warning
silent n d size auto total es ea et h =
    rw (es, ea, et, add_headroom n (omega (arith, h))) (ground arith)

-- Where every queue comes from a valid configuration and is built, no pool size is configured, and
-- the worker slots fit int64, the pool that mkqd computes before any queue is built is large enough
-- for the concurrency that the built queues resolve to, so warnPoolSize logs nothing.
pub warn_pool_size_silent :
    (fs : List (Bytes × Factory)) (c : Config) (d : ℕ)
    → IsValid c
    → c.redis.pool_size ≡ pos 0
    → c.defaults.concurrency ≡ pos d
    → d + total_slots d c.queues + 8 ≤ max_int64
    → (build_configured_queues fs no_queues c.queues).1 ≡ none
    → warn_pool_size c
        (build_configured_queues fs no_queues c.queues).0
        (registered_queues (build_configured_queues fs no_queues c.queues).0)
      ≡ none
unfolding warn_pool_size
warn_pool_size_silent fs c d v p e h b =
    silent (total_slots d c.queues) d c.redis.pool_size (auto_pool_size c) _ p
      (auto_pool_size_exact c d e v.queues h) (total_exact fs c d v e (omega (arith, h)) b) h
