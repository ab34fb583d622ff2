-- ===== src/Registry/Executors.antt =====
-- executor.go: the registry of executor types, and the job that a handler gives its executor. A panic
-- is a result; the order of RegisteredExecutors is sort.Strings.
use mathlib.Core.Path.{subst}
use mkqd.Base.{
  ◌≡◌, Option, none, some, List, [], ◌∷◌, Bytes, codes, is_empty, bytes_eq_iff, lookup, insert,
  lookup-insert, is_some, map, arith, if-elim, if◌then◌else◌,
}
use mkqd.Base.Int.{ℤ, pos, ◌+ℤ◌, wrap64}
use mkqd.Registry.{Factory}

pub data Registered : Type 0 where
  factories : List (Bytes × Factory) → Registered
  panics : Bytes → Registered

-- RegisterExecutor; a nil factory is `none`.
unfoldable pub register_executor : List (Bytes × Factory) → Bytes → Option Factory → Registered
register_executor fs typ none =
    if is_empty typ then panics (codes "empty type") else panics (codes "nil factory")
register_executor fs typ (some f) =
    if is_empty typ
    then panics (codes "empty type")
    else if is_some (lookup typ fs)
    then panics (codes "registered twice")
    else factories (insert typ f fs)

-- RegisteredExecutors.
unfoldable pub registered_executors :
    (List Bytes → List Bytes) → List (Bytes × Factory) → List Bytes
registered_executors sorted fs = sorted (map (λ (e : Bytes × Factory). e.0) fs)

-- lookupExecutorFactory.
unfoldable pub lookup_executor_factory : Bytes → List (Bytes × Factory) → Option Factory
lookup_executor_factory typ fs = lookup typ fs

-- builtinExecutorPackages.
abbrev pub builtin_executor_packages : List (Bytes × Bytes)
builtin_executor_packages =
    (codes "http", codes "github.com/elythia-network/mkqd/executor/httpexec")
    ∷ (codes "webhook", codes "github.com/elythia-network/mkqd/executor/httpexec")
    ∷ (codes "activitypub_deliver", codes "github.com/elythia-network/mkqd/executor/apdeliver")
    ∷ []

-- plannedExecutors.
abbrev pub planned_executors : List (Bytes × Unit {0})
planned_executors = []

-- unknownExecutorError: which message it gives.
pub data UnknownExecutor : Type 0 where
  not_linked : Bytes → UnknownExecutor
  not_implemented : UnknownExecutor
  unknown : UnknownExecutor

abbrev unless_linked : Bytes → Option Bytes → UnknownExecutor
unless_linked typ (some pkg) = not_linked pkg
unless_linked typ none = if is_some (lookup typ planned_executors) then not_implemented else unknown

unfoldable pub unknown_executor_error : Bytes → UnknownExecutor
unknown_executor_error typ = unless_linked typ (lookup typ builtin_executor_packages)

-- mkq.Job of raw JSON, as far as executorHandler reads it.
pub record Source : Type 0 where
  pub id : Bytes
  pub name : Bytes
  pub payload : Bytes
  pub attempts_made : ℤ
  pub timestamp : ℤ

-- Job; `src` is nil for a job that an application made itself.
pub record Job : Type 0 where
  pub queue : Bytes
  pub id : Bytes
  pub name : Bytes
  pub payload : Bytes
  pub attempts_made : ℤ
  pub timestamp : ℤ
  pub src : Option Source

-- The job that executorHandler hands to its executor.
unfoldable pub executor_handler : {A : Type 0} → Bytes → (Job → A) → Source → A
executor_handler queue execute job = execute (record {
  queue = queue;
  id = job.id;
  name = job.name;
  payload = job.payload;
  attempts_made = job.attempts_made;
  timestamp = job.timestamp;
  src = some job;
})

-- UpdateProgress and Log: `detached` is mkq.ErrJobDetached, and `call` is mkq's own method.
unfoldable pub on_source : {E : Type 0} → E → (Source → Option E) → Job → Option E
on_source detached call job = elim job.src [ none ↦ some detached | some s ↦ call s ]

-- What the "log" executor of the package's init writes of a job.
pub record LogLine : Type 0 where
  pub job_id : Bytes
  pub job_name : Bytes
  pub attempt : ℤ
  pub payload : Bytes

unfoldable pub log_executor : Job → LogLine
log_executor job = record {
  job_id = job.id;
  job_name = job.name;
  attempt = wrap64 (job.attempts_made +ℤ pos 1);
  payload = job.payload;
}

-- The registrations of a process, in order; a panic ends it.
abbrev then_all : (List (Bytes × Factory) → Registered) → Registered → Registered
then_all rest (factories fs) = rest fs
then_all rest (panics m) = panics m

unfoldable pub register_all : List (Bytes × Factory) → List (Bytes × Factory) → Registered
register_all [] fs = factories fs
register_all ((typ, f) ∷ rest) fs = then_all (register_all rest) (register_executor fs typ (some f))

abbrev Keeps : Bytes → Factory → Registered → Type 0
Keeps typ f (factories fs) = lookup_executor_factory typ fs ≡ some f
Keeps typ f (panics m) = Unit {0}

register_executor-Keeps :
    (fs : List (Bytes × Factory)) (typ other : Bytes) (f g : Factory)
    → lookup_executor_factory typ fs ≡ some f
    → Keeps typ f (register_executor fs other (some g))
unfolding register_executor lookup_executor_factory
register_executor-Keeps fs typ other f g h =
    if-elim (Keeps typ f) (is_empty other) _ _ (λ _. tt)
      (λ _.
        if-elim (Keeps typ f) (is_some (lookup other fs)) _ _ (λ _. tt)
          (λ n. ground (arith, n, h, lookup-insert other typ g fs, bytes_eq_iff other typ)))

then_all-Keeps :
    (typ : Bytes) (f : Factory) (rest : List (Bytes × Factory) → Registered) (r : Registered)
    → Keeps typ f r
    → ((fs : List (Bytes × Factory))
        → lookup_executor_factory typ fs ≡ some f
        → Keeps typ f (rest fs))
    → Keeps typ f (then_all rest r)
then_all-Keeps typ f rest (factories fs) h k = k fs h
then_all-Keeps typ f rest (panics m) h k = tt

register_all-Keeps :
    (regs fs : List (Bytes × Factory)) (typ : Bytes) (f : Factory)
    → lookup_executor_factory typ fs ≡ some f
    → Keeps typ f (register_all regs fs)
unfolding register_all
register_all-Keeps [] fs typ f h = h
register_all-Keeps ((other, g) ∷ regs) fs typ f h =
    then_all-Keeps typ f (register_all regs) (register_executor fs other (some g))
      (register_executor-Keeps fs typ other f g h) (λ gs k. register_all-Keeps regs gs typ f k)

-- Registering more executor types never changes the factory of a type that is registered.
pub register_all_keeps :
    (regs fs gs : List (Bytes × Factory)) (typ : Bytes) (f : Factory)
    → lookup_executor_factory typ fs ≡ some f
    → register_all regs fs ≡ factories gs
    → lookup_executor_factory typ gs ≡ some f
register_all_keeps regs fs gs typ f h e = subst (Keeps typ f) e (register_all-Keeps regs fs typ f h)
