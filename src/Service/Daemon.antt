-- ===== src/Service/Daemon.antt =====
-- cmd/mkqd/main.go: `mkqd run`. NewFromFile of runtime.go, and then Run with the queues of register.go.
use mathlib.Core.Path.{subst}
use mkqd.Base.{
  ℕ, ◌≡◌, ◌≢◌, refl, sym, ap, ◌∙◌, inl, inr, ◌⊎◌, false, Option, none, some, List, [], ◌∷◌, Bytes,
  codes, lookup, All, Any, arith,
}
use mkqd.Config.Load.{YamlPackage}
use mkqd.Config.Lookup.{queue_config_found}
use mkqd.Config.Validity.{IsValid}
use mkqd.Config.{Config, QueueConfig, ExecutorConfig, queue_config, server_enabled}
use mkqd.Lifecycle.Accounting.{ended}
use mkqd.Lifecycle.Running.{RunOutcome, run-RunOutcome}
use mkqd.Lifecycle.{Runtime, Calls, new_runtime, begin, start, run, drain_all, is_serving}
use mkqd.Registry.Order.{names_of, registered_queues-build, fresh-IsConfigured}
use mkqd.Registry.Served.{IsServed, build-IsServed}
use mkqd.Registry.{
  Queues, Registration, RegistryError, Starter, executor, Factory, build_configured_queues,
  registered_queues,
}
use mkqd.RetryAfter.Errors.{Error, message}
use mkqd.Service.Construction.{FromFile, not_loaded, from_new, new_from_file, new_from_file_outcome}
use mkqd.Service.Logger.{ProcessLogger}
use mkqd.Service.Pool.{All-members}
use mkqd.Service.{
  UniversalOptions, Built, built, invalid, new_failed, assembled, after_connect, no_queues,
  registration_of,
}
use mkqd.Tuning.{
  WorkerOption, unset, resolve, resolve_tuning, overlay, tuning_from_config, worker_options_for,
}

-- The calls out of Run: what mkq answers to the start of a worker, the listener, and the ends of all.
pub record Outside : Type 0 where
  pub start_worker : Starter → List WorkerOption → Option Error
  pub listen : Option Error
  pub close_server : Option Error
  pub drain : Bytes → Option Error
  pub stop : Bytes → Option Error
  pub close_client : Option Error
  pub close_redis : Option Error

abbrev build_error_of : Option RegistryError → Option Error
build_error_of none = none
build_error_of (some e) = some (message (codes "queue"))

-- The call of Start that launches the worker of a registration.
abbrev worker_of : Outside → Config → Registration → Option Error
worker_of o c r = o.start_worker r.start (worker_options_for (resolve_tuning c r.queue r.tune))

-- What Start and Shutdown meet, on a runtime with the queues that code registered.
unfoldable pub calls_of : Outside → List (Bytes × Factory) → Config → Queues → Calls
calls_of o factories c s =
    let b = build_configured_queues factories s c.queues in
    record {
      build_queues = build_error_of b.1;
      queues = registered_queues b.0;
      start_worker = λ name. worker_of o c (registration_of b.0 name);
      server_enabled = server_enabled c;
      listen = o.listen;
      close_server = o.close_server;
      drain = o.drain;
      stop = o.stop;
      close_client = o.close_client;
      close_redis = o.close_redis;
    }

pub data Ran : Type 0 where
  not_built : FromFile → Ran
  ran : Built → Runtime × List Error → Ran

-- cmdRun.
unfoldable pub cmd_run : Outside → List (Bytes × Factory) → FromFile → Ran
unfolding calls_of
cmd_run o factories (not_loaded e) = not_built (not_loaded e)
cmd_run o factories (from_new (invalid e)) = not_built (from_new (invalid e))
cmd_run o factories (from_new (new_failed e)) = not_built (from_new (new_failed e))
cmd_run o factories (from_new (built b)) =
    ran b (run (calls_of o factories b.cfg b.queues) new_runtime)

module _ (o : Outside) (fs : List (Bytes × Factory)) where
  -- The worker of a configured queue runs the executor that the factory of its type made for it, with
  -- each knob from the queue's configuration or else the default.
  abbrev pub IsStarted : Config → Calls → QueueConfig → Type 0
  IsStarted c calls q =
      (e : ExecutorConfig) × (factory : Factory) × (ex : ℕ) × (q.executor ≡ some e)
      × (lookup e.type fs ≡ some factory)
      × (factory q.name e ≡ some ex)
      × (calls.start_worker q.name
          ≡ o.start_worker (executor q.name ex)
              (worker_options_for (resolve (tuning_from_config q) c.defaults)))

  abbrev pub FailedToStart : Runtime × List Error → Type 0
  FailedToStart r =
      (e : Error) × (r.1 ≡ e ∷ []) × (r.0.workers ≡ []) × (r.0.launched ≡ ended r.0.retired)

  abbrev pub ServedAll : Config → Calls → Runtime × List Error → Type 0
  ServedAll c calls r =
      (r.0.launched ≡ names_of c.queues)
      × (All (IsStarted c calls) c.queues
          × ((r.0.retired ≡ (drain_all calls (names_of c.queues)).0)
              × ((r.0.workers ≡ []) × (is_serving r.0 ≡ false))))

  abbrev pub RanOutcome : Ran → Type 0
  RanOutcome (not_built x) = (b : Built) → x ≢ from_new (built b)
  RanOutcome (ran b r) =
      IsValid b.cfg × (FailedToStart r ⊎ ServedAll b.cfg (calls_of o fs b.cfg b.queues) r)

  overlay-unset : (q : QueueConfig) → overlay unset (tuning_from_config q) ≡ tuning_from_config q
  unfolding overlay tuning_from_config
  overlay-unset q = ground arith

  begin_built :
      (calls : Calls) (e : Option Error) (names : List Bytes) (rt : Runtime)
      → (begin calls e names rt).1 ≡ none
      → e ≡ none
  unfolding begin
  begin_built calls none names rt h = refl
  begin_built calls (some e) names rt h = absurd (ground arith)

  start_built : (calls : Calls) → (start calls new_runtime).1 ≡ none → calls.build_queues ≡ none
  unfolding start
  start_built calls h = begin_built calls calls.build_queues calls.queues _ h

  configured_tuning :
      (c : Config) (q : QueueConfig)
      → queue_config c.queues q.name ≡ some q
      → resolve_tuning c q.name unset ≡ resolve (tuning_from_config q) c.defaults
  unfolding resolve_tuning
  configured_tuning c q h =
      rw (h, resolve_tuning) (ap (λ t. resolve t c.defaults) (overlay-unset q))

  -- The queue's worker, as Start launches it.
  started_worker :
      (c : Config) (s : Queues) (q : QueueConfig) (ex : ℕ)
      → IsValid c
      → Any (λ p. p ≡ q) c.queues
      → lookup q.name s.registry ≡ some (mkqd.Registry.built q.name ex)
      → worker_of o c (registration_of s q.name)
        ≡ o.start_worker
            (executor q.name ex)
            (worker_options_for (resolve (tuning_from_config q) c.defaults))
  started_worker c s q ex v m h = rw h (
      ap (λ t. o.start_worker (executor q.name ex) (worker_options_for t))
        (configured_tuning c q (queue_config_found q c.queues v.distinct m)))

  All-IsStarted :
      (c : Config) (qs : List QueueConfig)
      → IsValid c
      → All (IsServed fs (build_configured_queues fs no_queues c.queues).0) qs
      → All (λ q. Any (λ p. p ≡ q) c.queues) qs
      → All (IsStarted c (calls_of o fs c no_queues)) qs
  unfolding calls_of
  All-IsStarted c [] v a m = tt
  All-IsStarted c (q ∷ qs) v a m = (
    (
      a.0.0,
      a.0.1,
      a.0.2,
      a.0.3,
      a.0.4,
      a.0.5,
      started_worker c (build_configured_queues fs no_queues c.queues).0 q a.0.2 v m.0 a.0.6,
    ),
    All-IsStarted c qs v a.1 m.1,
  )

  built_none : (e : Option RegistryError) → build_error_of e ≡ none → e ≡ none
  built_none none h = refl
  built_none (some e) h = absurd (ground arith)

  run_serves :
      (c : Config) (e : Option Error)
      → IsValid c
      → (start (calls_of o fs c no_queues) new_runtime).1 ≡ e
      → FailedToStart (run (calls_of o fs c no_queues) new_runtime)
        ⊎ ServedAll c (calls_of o fs c no_queues) (run (calls_of o fs c no_queues) new_runtime)
  unfolding calls_of
  run_serves c (some e) v h =
      let calls = calls_of o fs c no_queues in
      let down = subst (λ x. RunOutcome calls x (run calls new_runtime)) h (run-RunOutcome calls) in
      inl (e, down.0, down.1.0, down.1.1)
  run_serves c none v h =
      let calls = calls_of o fs c no_queues in
      let b = built_none _ (start_built calls h) in
      let up = subst (λ x. RunOutcome calls x (run calls new_runtime)) h (run-RunOutcome calls) in
      let names = registered_queues-build fs c.queues no_queues refl refl v.distinct b in
      inr (
        up.0 ∙ names,
        (
          All-IsStarted c c.queues v
              (build-IsServed fs c.queues no_queues (fresh-IsConfigured no_queues refl) v.distinct
                b)
              (All-members c.queues),
          (up.1.0 ∙ ap (λ l. (drain_all calls l).0) names, up.1.1),
        ),
      )

  result-RanOutcome :
      (c : Config) (l : ProcessLogger) (e : Option Error)
      → IsValid c
      → RanOutcome (cmd_run o fs (from_new (after_connect e (assembled c l))))
  unfolding cmd_run after_connect
  result-RanOutcome c l (some e) v = λ b h. cc
  result-RanOutcome c l none v = (v, run_serves c _ v refl)

  -- `mkqd run`, for every file, environment and answer of the outside. Run is reached only with a
  -- runtime that NewFromFile gives, and then the configuration is valid. Either Start fails: its
  -- error alone is returned, no worker runs and each worker that was launched has ended. Or one
  -- worker was launched for each configured queue, in their order; each runs the executor that the
  -- factory of its type made, with each knob from the queue's configuration or else the default;
  -- their ends are what draining them gives, no worker runs, and the runtime is not serving.
  pub cmd_run_outcome :
      (connect : UniversalOptions → Option Error) (y : YamlPackage) (env : Bytes → Option Bytes)
      (file : Option Bytes)
      → RanOutcome (cmd_run o fs (new_from_file connect y env file))
  unfolding cmd_run
  cmd_run_outcome connect y env file = elim (new_from_file_outcome connect y env file) [
    | inl (e, h) ↦ subst (λ x. RanOutcome (cmd_run o fs x)) (sym h) (λ b k. cc)
    | inr (c, l, v, h) ↦
        subst (λ x. RanOutcome (cmd_run o fs x)) (sym h)
          (result-RanOutcome c l (connect (assembled c l).client_options) v.0)
  ]
