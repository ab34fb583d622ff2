-- ===== src/Config/Lookup.antt =====
-- queueConfig of config.go finds every declared queue.
use mkqd.Base.{◌≡◌, ◌≢◌, inl, inr, some, List, [], ◌∷◌, All, Any, arith, bytes_eq_iff}
use mkqd.Config.{QueueConfig, queue_config}
use mkqd.Config.Validity.{Distinct}

apart_at :
    (p q : QueueConfig) (qs : List QueueConfig)
    → All (λ r. r.name ≢ p.name) qs
    → Any (λ r. r ≡ q) qs
    → q.name ≢ p.name
apart_at p q [] a m = absurd m
apart_at p q (r ∷ qs) a (inl e) = ground arith
apart_at p q (r ∷ qs) a (inr m) = apart_at p q qs a.1 m

-- If the queues have different names, looking one of them up by its name gives that queue.
pub queue_config_found :
    (q : QueueConfig) (qs : List QueueConfig)
    → Distinct qs
    → Any (λ r. r ≡ q) qs
    → queue_config qs q.name ≡ some q
unfolding queue_config
queue_config_found q [] d m = absurd m
queue_config_found q (r ∷ qs) d (inl e) = ground (arith, bytes_eq_iff r.name q.name)
queue_config_found q (r ∷ qs) d (inr m) =
    ground (arith, bytes_eq_iff r.name q.name, apart_at r q qs d.0 m, queue_config_found q qs d.1 m)
