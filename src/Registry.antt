-- ===== src/Registry.antt =====
-- register.go and executor.go: the queues of a runtime, and the executor types that a configuration
-- may name. A handler or an executor that the application brings is a number that stands for it.
pub mod Invariant
pub mod Build
pub mod Complete
pub mod Order
pub mod Served
pub mod Executors
use mkqd.Base.{
  ℕ, Bool, true, false, not, ◌&&◌, Option, none, some, List, [], ◌∷◌, ◌++◌, Bytes, codes, is_empty,
  lookup, insert, is_some, if◌then◌else◌,
}
use mkqd.Config.{Config, QueueConfig, ExecutorConfig}
use mkqd.Config.Env.{dedupe_from}
use mkqd.Tuning.{QueueTuning, QueueOption, tuning_from_options, unset}

-- What the `start` closure of a registration runs: a typed handler, or an executor for a queue.
pub data Starter : Type 0 where
  typed : ℕ → Starter
  executor : Bytes → ℕ → Starter

pub record Registration : Type 0 where
  pub queue : Bytes
  pub tune : QueueTuning
  pub start : Starter
  pub from_code : Bool

-- The part of Runtime that registration reads and writes. `warnings` are the queues whose executor
-- was logged as ignored.
pub record Queues : Type 0 where
  pub registry : List (Bytes × Registration)
  pub order : List Bytes
  pub started : Bool
  pub warnings : List Bytes

pub data RegistryError : Type 0 where
  nil_handler empty_name : RegistryError
  after_start already_registered no_executor unknown_executor : Bytes → RegistryError
  build_failed : Bytes → Bytes → RegistryError

abbrev pub add : Queues → Registration → Queues
add s r = record s { registry = insert r.queue r s.registry; order = s.order ++ (r.queue ∷ []) }

-- register: the state after it, and its error.
unfoldable pub register : Queues → Registration → Queues × Option RegistryError
register s r =
    if is_empty r.queue
    then (s, some empty_name)
    else if s.started
    then (s, some (after_start r.queue))
    else if is_some (lookup r.queue s.registry)
    then (s, some (already_registered r.queue))
    else (add s r, none)

abbrev from_code_registration : Bytes → List (Option QueueOption) → Starter → Registration
from_code_registration queue opts start = record {
  queue = queue;
  tune = tuning_from_options opts;
  start = start;
  from_code = true;
}

-- Handle; a nil handler is `none`.
unfoldable pub handle :
    Queues → Bytes → Option ℕ → List (Option QueueOption) → Queues × Option RegistryError
unfolding register
handle s queue none opts = (s, some nil_handler)
handle s queue (some h) opts = register s (from_code_registration queue opts (typed h))

-- HandleExecutor.
unfoldable pub handle_executor :
    Queues → Bytes → Option ℕ → List (Option QueueOption) → Queues × Option RegistryError
unfolding register
handle_executor s queue none opts = (s, some nil_handler)
handle_executor s queue (some ex) opts =
    register s (from_code_registration queue opts (executor queue ex))

-- An ExecutorFactory, of the queue and its configuration; `none` is an error.
abbrev pub Factory : Type 0
Factory = Bytes → ExecutorConfig → Option ℕ

abbrev claimed : Option Registration → Bool
claimed none = false
claimed (some r) = r.from_code

abbrev warn : Queues → QueueConfig → Queues
warn s q = if is_some q.executor then record s { warnings = s.warnings ++ (q.name ∷ []) } else s

abbrev pub built : Bytes → ℕ → Registration
built name ex = record { queue = name; tune = unset; start = executor name ex; from_code = false }

-- The executor of a queue that code did not claim.
unfoldable pub build_executor :
    List (Bytes × Factory) → Queues → Bytes → ExecutorConfig → Queues × Option RegistryError
build_executor factories s name e = elim (lookup e.type factories) [
  | none ↦ (s, some (unknown_executor name))
  | some factory ↦ elim (factory name e) [
    | none ↦ (s, some (build_failed name e.type))
    | some ex ↦ (add s (built name ex), none)
  ]
]

-- One round of buildConfiguredQueues.
unfoldable pub build_queue :
    List (Bytes × Factory) → Queues → QueueConfig → Queues × Option RegistryError
unfolding build_executor
build_queue factories s q =
    if claimed (lookup q.name s.registry) then (warn s q, none) else elim q.executor [
      | none ↦ (s, some (no_executor q.name))
      | some e ↦ build_executor factories s q.name e
    ]

-- buildConfiguredQueues: the first error ends the loop, and what was built before it stays.
unfoldable pub build_configured_queues :
    List (Bytes × Factory) → Queues → List QueueConfig → Queues × Option RegistryError
build_configured_queues factories s [] = (s, none)
build_configured_queues factories s (q ∷ qs) =
    let (s', e) = build_queue factories s q in
    let rest = build_configured_queues factories s' qs in
    elim e [ some err ↦ (s', some err) | none ↦ rest ]

-- registeredQueues.
unfoldable pub registered_queues : Queues → List Bytes
registered_queues s = dedupe_from [] s.order
