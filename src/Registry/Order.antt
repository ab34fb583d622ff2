-- ===== src/Registry/Order.antt =====
-- The order of the queues that buildConfiguredQueues of register.go files for a fresh runtime.
use mathlib.Core.Path.{subst}
use mathlib.Core.List.{append_assoc, append-nil}
use mkqd.Base.{
  ◌≡◌, ◌≢◌, refl, sym, ap, ◌∙◌, inl, inr, false, Option, none, some, Option-cases, List, [], ◌∷◌,
  ◌++◌, map, Bytes, bytes_eq_iff, lookup, lookup-insert, mem_bytes, All, arith,
}
use mkqd.Config.Env.{dedupe_from}
use mkqd.Config.Validity.{Distinct}
use mkqd.Config.{QueueConfig, ExecutorConfig}
use mkqd.Registry.Build.{build_keeps, Round, stays, files, queue-Round}
use mkqd.Registry.Complete.{build_next, build_first}
use mkqd.Registry.{
  Queues, Registration, RegistryError, Factory, built, claimed, build_queue, build_executor,
  build_configured_queues, registered_queues,
}
use mkqd.Tuning.{unset}

-- Every filed queue comes from the configuration.
abbrev pub IsConfigured : Queues → Type 0
IsConfigured s =
    (name : Bytes) (r : Registration)
    → lookup name s.registry ≡ some r
    → (r.queue ≡ name) × ((r.tune ≡ unset) × (r.from_code ≡ false))

pub Round-IsConfigured :
    {s t : Queues} {name : Bytes} → Round s name t → IsConfigured s → IsConfigured t
Round-IsConfigured (stays ws e) h = subst IsConfigured (sym e) h
Round-IsConfigured {s} {t} {name} (files ex c e) h = subst IsConfigured (sym e) (λ k r q.
    ground (arith, h k r, lookup-insert name k (built name ex) s.registry, bytes_eq_iff name k))

pub claimed-IsConfigured :
    (s : Queues) (name : Bytes) → IsConfigured s → claimed (lookup name s.registry) ≡ false
claimed-IsConfigured s name h = elim (Option-cases (lookup name s.registry)) [
  | inl e ↦ rw e refl
  | inr (r, e) ↦ rw e (h name r e).1.1
]

order-build_executor :
    (fs : List (Bytes × Factory)) (s : Queues) (name : Bytes) (e : ExecutorConfig)
    → (build_executor fs s name e).1 ≡ none
    → (build_executor fs s name e).0.order ≡ s.order ++ (name ∷ [])
unfolding build_executor
order-build_executor fs s name e h = elim (Option-cases (lookup e.type fs)) [
  | inl n ↦ ground arith
  | inr (factory, f) ↦ elim (Option-cases (factory name e)) [
    | inl n ↦ ground arith
    | inr (ex, x) ↦ ground arith
  ]
]

order-build_queue :
    (fs : List (Bytes × Factory)) (s : Queues) (q : QueueConfig)
    → claimed (lookup q.name s.registry) ≡ false
    → (build_queue fs s q).1 ≡ none
    → (build_queue fs s q).0.order ≡ s.order ++ (q.name ∷ [])
unfolding build_queue
order-build_queue fs s q c h = elim (Option-cases q.executor) [
  | inl n ↦ ground arith
  | inr (e, x) ↦ ground (arith, order-build_executor fs s q.name e)
]

abbrev pub names_of : List QueueConfig → List Bytes
names_of = map (λ (q : QueueConfig). q.name)

-- What building gives, from a state that only the configuration filled.
order-build :
    (fs : List (Bytes × Factory)) (qs : List QueueConfig) (s : Queues)
    → IsConfigured s
    → (build_configured_queues fs s qs).1 ≡ none
    → (build_configured_queues fs s qs).0.order ≡ s.order ++ names_of qs
unfolding build_configured_queues
order-build fs [] s v h = sym (append-nil s.order)
order-build fs (q ∷ qs) s v h =
    let e = build_first fs q qs s h in
    let next = build_next fs q qs s e in
    let s' = (build_queue fs s q).0 in
    let rest : (build_configured_queues fs s' qs).1 ≡ none =
      ap (λ (r : Queues × Option RegistryError). r.1) (sym next) ∙ h in
    let ih = order-build fs qs s' (Round-IsConfigured (queue-Round fs s q) v) rest in
    ap (λ (r : Queues × Option RegistryError). r.0.order) next
    ∙ ih
    ∙ ap (λ o. o ++ names_of qs) (order-build_queue fs s q (claimed-IsConfigured s q.name v) e)
    ∙ append_assoc s.order (q.name ∷ []) (names_of qs)

pub build-IsConfigured :
    (fs : List (Bytes × Factory)) (qs : List QueueConfig) (s : Queues)
    → IsConfigured s
    → IsConfigured (build_configured_queues fs s qs).0
build-IsConfigured fs qs s v =
    build_keeps IsConfigured fs (λ s t name r. Round-IsConfigured r) qs s v

pub fresh-IsConfigured : (s : Queues) → s.registry ≡ [] → IsConfigured s
unfolding lookup
fresh-IsConfigured s e name r q = absurd (none_some (sym (ap (lookup name) e) ∙ q))
  where
    none_some : ◌≡◌ {A = Option Registration} none (some r) → ⊥
    none_some h = ground (arith, h)

-- Names that differ pass through dedupe.
unseen-cons :
    (seen : List Bytes) (q : QueueConfig) (qs : List QueueConfig)
    → All (λ r. r.name ≢ q.name) qs
    → All (λ r. mem_bytes r.name seen ≡ false) qs
    → All (λ r. mem_bytes r.name (q.name ∷ seen) ≡ false) qs
unseen-cons seen q [] a u = tt
unseen-cons seen q (r ∷ qs) a u =
    (ground (arith, a.0, u.0, bytes_eq_iff r.name q.name), unseen-cons seen q qs a.1 u.1)

dedupe_from-Distinct :
    (seen : List Bytes) (qs : List QueueConfig)
    → Distinct qs
    → All (λ r. mem_bytes r.name seen ≡ false) qs
    → dedupe_from seen (names_of qs) ≡ names_of qs
unfolding dedupe_from
dedupe_from-Distinct seen [] d u = refl
dedupe_from-Distinct seen (q ∷ qs) d u =
    rw (u.0, dedupe_from-Distinct (q.name ∷ seen) qs d.1 (unseen-cons seen q qs d.0 u.1))

All-unseen : (qs : List QueueConfig) → All (λ r. mem_bytes r.name [] ≡ false) qs
All-unseen [] = tt
All-unseen (q ∷ qs) = (refl, All-unseen qs)

-- Where building a fresh runtime with distinct queues ends without an error, registeredQueues lists
-- them in the order of the configuration.
pub registered_queues-build :
    (fs : List (Bytes × Factory)) (qs : List QueueConfig) (s : Queues)
    → s.registry ≡ []
    → s.order ≡ []
    → Distinct qs
    → (build_configured_queues fs s qs).1 ≡ none
    → registered_queues (build_configured_queues fs s qs).0 ≡ names_of qs
unfolding registered_queues
registered_queues-build fs qs s er eo d h =
    ap (dedupe_from [])
      (order-build fs qs s (fresh-IsConfigured s er) h ∙ ap (λ o. o ++ names_of qs) eo)
    ∙ dedupe_from-Distinct [] qs d (All-unseen qs)
