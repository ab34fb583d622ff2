-- ===== src/Registry/Build.antt =====
-- buildConfiguredQueues of register.go: code keeps its queues, every configured queue is filed, and a
-- second pass adds no queue.
use mathlib.Core.Path.{subst}
use mkqd.Base.{
  ℕ, ◌≡◌, inl, inr, refl, sym, ap, ◌∙◌, true, false, Bool-cases, some, Option-cases, List, [], ◌∷◌,
  Bytes, bytes_eq_iff, lookup, lookup-insert, arith,
}
use mkqd.Config.{QueueConfig, ExecutorConfig}
use mkqd.Registry.Invariant.{IsConsistent, add-IsConsistent}
use mkqd.Registry.{
  Queues, Registration, add, Factory, warn, built, claimed, build_queue, build_executor,
  build_configured_queues,
}

-- What one round does to the state: nothing, a warning, or a registration for the queue, which code
-- did not claim.
pub data Round (s : Queues) (name : Bytes) (t : Queues) : Type 0 where
  stays : (ws : List Bytes) → t ≡ record s { warnings = ws } → Round s name t
  files :
      (ex : ℕ)
      → claimed (lookup name s.registry) ≡ false
      → t ≡ add s (built name ex)
      → Round s name t

executor-Round :
    (fs : List (Bytes × Factory)) (s : Queues) (name : Bytes) (e : ExecutorConfig)
    → claimed (lookup name s.registry) ≡ false
    → Round s name (build_executor fs s name e).0
unfolding build_executor
executor-Round fs s name e c = elim (Option-cases (lookup e.type fs)) [
  | inl n ↦ rw (n, build_executor) (stays s.warnings refl)
  | inr (factory, f) ↦ elim (Option-cases (factory name e)) [
    | inl n ↦ rw (f, build_executor) (rw (n, build_executor) (stays s.warnings refl))
    | inr (ex, x) ↦ rw (f, build_executor) (rw (x, build_executor) (files ex c refl))
  ]
]

pub queue-Round :
    (fs : List (Bytes × Factory)) (s : Queues) (q : QueueConfig)
    → Round s q.name (build_queue fs s q).0
unfolding build_queue
queue-Round fs s q = elim (Bool-cases (claimed (lookup q.name s.registry))) [
  | inl c ↦ stays (warn s q).warnings (ground arith)
  | inr c ↦ elim (Option-cases q.executor) [
    | inl n ↦ stays s.warnings (ground arith)
    | inr (e, x) ↦
        let same : (build_queue fs s q).0 ≡ (build_executor fs s q.name e).0 = ground arith in
        subst (Round s q.name) (sym same) (executor-Round fs s q.name e c)
  ]
]

Round-IsConsistent :
    {s t : Queues} {name : Bytes} → Round s name t → IsConsistent s → IsConsistent t
Round-IsConsistent {s} (stays ws e) v =
    subst IsConsistent (sym e) (record { filed = v.filed; listed = v.listed })
Round-IsConsistent {s} {t} {name} (files ex c e) v =
    subst IsConsistent (sym e) (add-IsConsistent s (built name ex) v)

-- A queue filed by code stays as it is.
Round-from_code :
    {s t : Queues} {name : Bytes} (k : Bytes) (r : Registration)
    → Round s name t
    → r.from_code ≡ true
    → lookup k s.registry ≡ some r
    → lookup k t.registry ≡ some r
Round-from_code k r (stays ws e) c h = ap (λ (t : Queues). lookup k t.registry) e ∙ h
Round-from_code {s} {t} {name} k r (files ex n e) c h =
    ground (arith, lookup-insert name k (built name ex) s.registry, bytes_eq_iff name k)

module _ (P : Queues → Type 0) (fs : List (Bytes × Factory)) where
  -- What every round keeps, the loop keeps.
  pub build_keeps :
      ((s t : Queues) (name : Bytes) → Round s name t → P s → P t)
      → (qs : List QueueConfig) (s : Queues) → P s
      → P (build_configured_queues fs s qs).0
  unfolding build_configured_queues
  build_keeps keep [] s h = h
  build_keeps keep (q ∷ qs) s h =
      let h' = keep s (build_queue fs s q).0 q.name (queue-Round fs s q) h in
      elim (Option-cases (build_queue fs s q).1) [
        | inl e ↦ rw (e, build_configured_queues) (build_keeps keep qs (build_queue fs s q).0 h')
        | inr (err, e) ↦ rw (e, build_configured_queues) h'
      ]

-- After building, whether or not it ends with an error, the registry is consistent if it was
-- before: every registration is filed under its own queue, and the order names exactly the filed
-- queues.
pub build-IsConsistent :
    (fs : List (Bytes × Factory)) (qs : List QueueConfig) (s : Queues)
    → IsConsistent s
    → IsConsistent (build_configured_queues fs s qs).0
build-IsConsistent fs qs s v =
    build_keeps IsConsistent fs (λ s t name r. Round-IsConsistent r) qs s v

-- The code handler wins: a queue that code registered keeps its registration through any
-- configuration, whether or not building ends with an error.
pub build_keeps_code :
    (fs : List (Bytes × Factory)) (qs : List QueueConfig) (s : Queues) (k : Bytes)
    (r : Registration)
    → r.from_code ≡ true
    → lookup k s.registry ≡ some r
    → lookup k (build_configured_queues fs s qs).0.registry ≡ some r
build_keeps_code fs qs s k r c h =
    build_keeps (λ t. lookup k t.registry ≡ some r) fs (λ s t name rd. Round-from_code k r rd c) qs
      s h
