-- ===== src/Registry/Served.antt =====
-- buildConfiguredQueues of register.go on a fresh runtime: each configured queue gets the executor that
-- its configuration names.
use mathlib.Core.Path.{subst}
use mkqd.Base.{
  ◌≡◌, ◌≢◌, refl, sym, ap, ◌∙◌, inl, inr, false, Option, none, some, Option-cases, List, [], ◌∷◌,
  Bytes, bytes_eq_iff, bytes_eq_refl, lookup, lookup-insert, All, arith, ℕ,
}
use mkqd.Config.Validity.{Distinct}
use mkqd.Config.{QueueConfig, ExecutorConfig}
use mkqd.Registry.Build.{Round, stays, files, queue-Round}
use mkqd.Registry.Complete.{build_next, build_first}
use mkqd.Registry.Order.{IsConfigured, Round-IsConfigured, claimed-IsConfigured}
use mkqd.Registry.{
  Queues, RegistryError, Factory, built, claimed, build_queue, build_executor,
  build_configured_queues,
}

-- The queue's registration runs what the factory of its executor's type made.
abbrev pub IsServed : List (Bytes × Factory) → Queues → QueueConfig → Type 0
IsServed fs s q =
    (e : ExecutorConfig) × (factory : Factory) × (ex : ℕ) × (q.executor ≡ some e)
    × (lookup e.type fs ≡ some factory)
    × (factory q.name e ≡ some ex)
    × (lookup q.name s.registry ≡ some (built q.name ex))

Round-others :
    {s t : Queues} {name : Bytes} (k : Bytes)
    → Round s name t
    → name ≢ k
    → lookup k t.registry ≡ lookup k s.registry
Round-others k (stays ws e) n = ap (λ (t : Queues). lookup k t.registry) e
Round-others {s} {t} {name} k (files ex c e) n =
    ground (arith, lookup-insert name k (built name ex) s.registry, bytes_eq_iff name k)

build-others :
    (fs : List (Bytes × Factory)) (k : Bytes) (qs : List QueueConfig) (s : Queues)
    → All (λ r. r.name ≢ k) qs
    → lookup k (build_configured_queues fs s qs).0.registry ≡ lookup k s.registry
unfolding build_configured_queues
build-others fs k [] s a = refl
build-others fs k (q ∷ qs) s a =
    let one = Round-others k (queue-Round fs s q) a.0 in
    elim (Option-cases (build_queue fs s q).1) [
      | inl e ↦
          rw (e, build_configured_queues) (build-others fs k qs (build_queue fs s q).0 a.1 ∙ one)
      | inr (err, e) ↦ rw (e, build_configured_queues) one
    ]

build_executor-IsServed :
    (fs : List (Bytes × Factory)) (s : Queues) (q : QueueConfig) (e : ExecutorConfig)
    → q.executor ≡ some e
    → (build_executor fs s q.name e).1 ≡ none
    → IsServed fs (build_executor fs s q.name e).0 q
unfolding build_executor
build_executor-IsServed fs s q e x h = elim (Option-cases (lookup e.type fs)) [
  | inl n ↦ absurd (ground arith)
  | inr (factory, f) ↦ elim (Option-cases (factory q.name e)) [
    | inl n ↦ absurd (ground arith)
    | inr (ex, m) ↦ (
      e,
      factory,
      ex,
      x,
      f,
      m,
      ground
          (arith, lookup-insert q.name q.name (built q.name ex) s.registry, bytes_eq_refl q.name),
    )
  ]
]

build_queue-IsServed :
    (fs : List (Bytes × Factory)) (s : Queues) (q : QueueConfig)
    → claimed (lookup q.name s.registry) ≡ false
    → (build_queue fs s q).1 ≡ none
    → IsServed fs (build_queue fs s q).0 q
unfolding build_queue
build_queue-IsServed fs s q c h = elim (Option-cases q.executor) [
  | inl n ↦ absurd (ground arith)
  | inr (e, x) ↦
      let same : build_queue fs s q ≡ build_executor fs s q.name e = ground arith in
      subst (λ (r : Queues × Option RegistryError). IsServed fs r.0 q) (sym same)
        (build_executor-IsServed fs s q e x
          (ap (λ (r : Queues × Option RegistryError). r.1) (sym same) ∙ h))
]

-- Where building ends without an error from a registry that only the configuration filled, each queue of
-- the configuration, if their names differ, runs the executor that the factory of its type made for it.
pub build-IsServed :
    (fs : List (Bytes × Factory)) (qs : List QueueConfig) (s : Queues)
    → IsConfigured s
    → Distinct qs
    → (build_configured_queues fs s qs).1 ≡ none
    → All (IsServed fs (build_configured_queues fs s qs).0) qs
build-IsServed fs [] s v d h = tt
build-IsServed fs (q ∷ qs) s v d h =
    let e = build_first fs q qs s h in
    let s' = (build_queue fs s q).0 in
    let next = build_next fs q qs s e in
    let rest : (build_configured_queues fs s' qs).1 ≡ none =
      ap (λ (r : Queues × Option RegistryError). r.1) (sym next) ∙ h in
    let first = build_queue-IsServed fs s q (claimed-IsConfigured s q.name v) e in
    subst (λ (r : Queues × Option RegistryError). All (IsServed fs r.0) (q ∷ qs)) (sym next)
      (
        (
          first.0,
          first.1,
          first.2,
          first.3,
          first.4,
          first.5,
          build-others fs q.name qs s' d.0 ∙ first.6,
        ),
        build-IsServed fs qs s' (Round-IsConfigured (queue-Round fs s q) v) d.1 rest,
      )
