-- ===== src/Registry/Complete.antt =====
-- What is filed after buildConfiguredQueues of register.go, and what registeredQueues lists.
use mathlib.Core.Path.{subst}
use mkqd.Base.{
  ◌≡◌, ◌↔◌, inl, inr, sym, ap, ◌∙◌, true, Option, none, Option-cases, List, [], ◌∷◌, Bytes,
  bytes_eq_refl, lookup, is_some, lookup-insert, All, arith,
}
use mkqd.Config.{QueueConfig, ExecutorConfig}
use mkqd.Config.Env.Dedupe.{In, Once, dedupe-Once}
use mkqd.Config.Env.{dedupe}
use mkqd.Registry.Build.{Round, stays, files, build_keeps}
use mkqd.Registry.Invariant.{IsConsistent}
use mkqd.Registry.{
  Queues, RegistryError, Factory, built, build_queue, build_executor, build_configured_queues,
  registered_queues,
}

abbrev pub IsFiled : Bytes → Queues → Type 0
IsFiled name s = is_some (lookup name s.registry) ≡ true

Round-IsFiled :
    {s t : Queues} {name : Bytes} (k : Bytes) → Round s name t → IsFiled k s → IsFiled k t
Round-IsFiled k (stays ws e) h = ap (λ (t : Queues). is_some (lookup k t.registry)) e ∙ h
Round-IsFiled {s} {t} {name} k (files ex n e) h =
    ground (arith, lookup-insert name k (built name ex) s.registry)

executor_files :
    (fs : List (Bytes × Factory)) (s : Queues) (name : Bytes) (e : ExecutorConfig)
    → (build_executor fs s name e).1 ≡ none
    → IsFiled name (build_executor fs s name e).0
unfolding build_executor
executor_files fs s name e h = elim (Option-cases (lookup e.type fs)) [
  | inl n ↦ ground arith
  | inr (factory, f) ↦ elim (Option-cases (factory name e)) [
    | inl n ↦ ground arith
    | inr (ex, x) ↦
        ground (arith, lookup-insert name name (built name ex) s.registry, bytes_eq_refl name)
  ]
]

queue_files :
    (fs : List (Bytes × Factory)) (s : Queues) (q : QueueConfig)
    → (build_queue fs s q).1 ≡ none
    → IsFiled q.name (build_queue fs s q).0
unfolding build_queue
queue_files fs s q h = elim (Option-cases q.executor) [
  | inl n ↦ ground arith
  | inr (e, x) ↦ ground (arith, executor_files fs s q.name e)
]

pub build_next :
    (fs : List (Bytes × Factory)) (q : QueueConfig) (qs : List QueueConfig) (s : Queues)
    → (build_queue fs s q).1 ≡ none
    → build_configured_queues fs s (q ∷ qs) ≡ build_configured_queues fs (build_queue fs s q).0 qs
unfolding build_configured_queues
build_next fs q qs s e = rw (e, build_configured_queues)

pub build_first :
    (fs : List (Bytes × Factory)) (q : QueueConfig) (qs : List QueueConfig) (s : Queues)
    → (build_configured_queues fs s (q ∷ qs)).1 ≡ none
    → (build_queue fs s q).1 ≡ none
unfolding build_configured_queues
build_first fs q qs s h = ground arith

-- If building ends without an error, every configured queue is filed.
pub build_files-All :
    (fs : List (Bytes × Factory)) (qs : List QueueConfig) (s : Queues)
    → (build_configured_queues fs s qs).1 ≡ none
    → All (λ q. IsFiled q.name (build_configured_queues fs s qs).0) qs
build_files-All fs [] s h = tt
build_files-All fs (q ∷ qs) s h =
    let e = build_first fs q qs s h in
    let s' = (build_queue fs s q).0 in
    let next = build_next fs q qs s e in
    let rest : (build_configured_queues fs s' qs).1 ≡ none =
      ap (λ (r : Queues × Option RegistryError). r.1) (sym next) ∙ h in
    subst (λ (r : Queues × Option RegistryError). All (λ p. IsFiled p.name r.0) (q ∷ qs)) (sym next)
      (
        build_keeps (IsFiled q.name) fs (λ s t name r. Round-IsFiled q.name r) qs s'
            (queue_files fs s q e),
        build_files-All fs qs s' rest,
      )

-- registeredQueues of a consistent registry lists exactly the filed queues, each once.
pub registered_queues-IsFiled :
    (s : Queues)
    → IsConsistent s
    → Once (registered_queues s) × ((name : Bytes) → In name (registered_queues s) ↔ IsFiled name s)
unfolding registered_queues dedupe
registered_queues-IsFiled s v =
    let d = dedupe-Once s.order in
    (
      d.0,
      λ name. (λ m. (v.listed name).1 ((d.1 name).0 m), λ f. (d.1 name).1 ((v.listed name).0 f)),
    )
