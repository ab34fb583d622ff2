-- ===== src/Examples/Services.antt =====
-- The runtime's construction, its pool, its goroutines and its signers at concrete inputs.
use mkqd.Base.{
  ℕ, ◌+◌, ◌*◌, ◌≤◌, ◌≡◌, ◌≢◌, ◌↔◌, ◌⊎◌, inl, inr, refl, Bool, true, false, Option, none, some, List,
  [], ◌∷◌, Bytes, codes, length, map, ◌++◌, bytes_eq, All, arith, if◌then◌else◌,
}
use mkqd.Base.Int.{ℤ, pos}
use mkqd.Config.Load.{YamlPackage}
use mkqd.Config.Validity.{IsValid, validate_iff}
use mkqd.Config.Yaml.{node, end, scalar_node}
use mkqd.Config.{Config, QueueConfig, validate}
use mkqd.Examples.Settings.{queue_of, small}
use mkqd.KeyCache.Signers.{
  SignerConfig, Surroundings, AnySigner, dir_signer, build_signer, made, IsUsable,
  build_signer-IsUsable,
}
use mkqd.Lifecycle.Goroutines.{
  Task, waiting, unwinding, over, drained_in_time, budget_expired, unwound, first, later, Schedule,
  stay, go, IsOver, none_left, one_over, spawn, written,
}
use mkqd.Lifecycle.Interleaving.{calls_of, Schedule-result, Schedule-bound, Schedule-completes}
use mkqd.Lifecycle.Serving.{run_ops-is_serving, shutdown_final, end_after}
use mkqd.Lifecycle.{
  Runtime, do_shutdown, shutdown, is_serving, Calls, start, run, Op, do_start, new_runtime, run_ops,
  drained, drained_and_stopped, drain_all,
}
use mkqd.Registry.{Factory, build_configured_queues, registered_queues}
use mkqd.RetryAfter.Errors.{Error, message}
use mkqd.Service.Construction.{new_from_file}
use mkqd.Service.Daemon.{Outside, RanOutcome, cmd_run, cmd_run_outcome}
use mkqd.Service.Health.{readyz}
use mkqd.Service.Pool.{warn_pool_size_silent}
use mkqd.Service.Ready.{readyz_reachable}
use mkqd.Service.{UniversalOptions, no_queues, warn_pool_size}

-- Two queues, of which the second does not drain in time.
abbrev slow_second : Calls
slow_second = record {
  build_queues = none;
  queues = codes "a" ∷ codes "b" ∷ [];
  start_worker = λ name. none;
  server_enabled = true;
  listen = none;
  close_server = none;
  drain = λ name. if bytes_eq name (codes "b") then some (message []) else none;
  stop = λ name. none;
  close_client = none;
  close_redis = none;
}

abbrev both : List Bytes
both = codes "a" ∷ codes "b" ∷ []

-- The second goroutine's Drain fails before the first one's returns.
abbrev midway : List Task
midway = waiting (codes "a") ∷ unwinding (codes "b") (message []) ∷ []

abbrev ended : List Task
ended = over (codes "a") drained none ∷ over (codes "b") drained_and_stopped none ∷ []

first_turn : Schedule slow_second (spawn both) midway 1
unfolding spawn bytes_eq
first_turn = go (later (first (budget_expired refl))) stay

whole-Schedule : Schedule slow_second (spawn both) ended 3
unfolding spawn bytes_eq
whole-Schedule =
    go (later (first (budget_expired refl)))
      (go (first (drained_in_time refl)) (go (later (first unwound)) stay))

Schedule-result_example : written ended ≡ drain_all slow_second both
Schedule-result_example =
    Schedule-result slow_second both ended 3 whole-Schedule (one_over (one_over none_left))

Schedule-bound_example :
    (3 ≤ calls_of slow_second both) × ((3 ≡ calls_of slow_second both) ↔ IsOver ended)
Schedule-bound_example = Schedule-bound slow_second both ended 3 whole-Schedule

Schedule-completes_example :
    (us : List Task) × (m : ℕ) × Schedule slow_second midway us m
    × (IsOver us × ((written us ≡ drain_all slow_second both) × (1 + m ≤ 2 * length both)))
Schedule-completes_example = Schedule-completes slow_second both midway 1 first_turn

readyz_reachable_example :
    ((readyz (λ e. []) (run_ops (do_start slow_second ∷ []) new_runtime) none).code ≡ 200) ↔ (
      ((run_ops (do_start slow_second ∷ []) new_runtime).shut_down ≡ false)
      × (◌≡◌ {A = Option Error} none none))
unfolding run_ops mkqd.Lifecycle.step mkqd.Lifecycle.start mkqd.Lifecycle.begin mkqd.Lifecycle.serve
    mkqd.Lifecycle.launch mkqd.Lifecycle.after_listen mkqd.Lifecycle.after_worker
readyz_reachable_example = readyz_reachable (λ e. []) (do_start slow_second ∷ []) none refl

run_ops-is_serving_example :
    is_serving (run_ops (do_start slow_second ∷ do_shutdown slow_second ∷ []) new_runtime) ≡ false
run_ops-is_serving_example =
    run_ops-is_serving (do_start slow_second ∷ do_shutdown slow_second ∷ [])

abbrev started : Runtime
started = (start slow_second new_runtime).0

shutdown_final_example :
    (((shutdown slow_second started).0.workers ≡ [])
      × ((shutdown slow_second started).0.retired
          ≡ started.retired
            ++ map (λ name. (name, end_after (slow_second.drain name))) started.workers))
    × ((is_serving (run_ops (do_start slow_second ∷ []) (shutdown slow_second started).0) ≡ false)
        × (shutdown slow_second
              (run_ops (do_start slow_second ∷ []) (shutdown slow_second started).0)
            ≡ (
              run_ops (do_start slow_second ∷ []) (shutdown slow_second started).0,
              (shutdown slow_second started).1,
            )))
unfolding start mkqd.Lifecycle.begin mkqd.Lifecycle.serve mkqd.Lifecycle.launch
    mkqd.Lifecycle.after_listen mkqd.Lifecycle.after_worker
shutdown_final_example =
    shutdown_final slow_second slow_second (do_start slow_second ∷ []) started refl

-- The workers of a Start behind a Shutdown run on when Shutdown is called again.
left_running :
    (run_ops
      (do_shutdown slow_second ∷ do_start slow_second ∷ do_shutdown slow_second ∷ [])
      new_runtime).workers
    ≡ both
unfolding run_ops mkqd.Lifecycle.step start shutdown mkqd.Lifecycle.shut mkqd.Lifecycle.stop_workers
    mkqd.Lifecycle.begin mkqd.Lifecycle.serve mkqd.Lifecycle.launch mkqd.Lifecycle.after_listen
    mkqd.Lifecycle.after_worker mkqd.Lifecycle.drain_all
left_running = refl

-- A YAML package that reads every text as one configuration.
abbrev yaml : YamlPackage
yaml = record {
  unmarshal = λ raw. some (some (node scalar_node [] raw end));
  marshal = λ n. some (codes "mkqd");
  decode_config = λ text. some small;
}

abbrev reachable : UniversalOptions → Option Error
reachable o = none

-- Two queues that both have an executor.
abbrev executed : Bytes → Option ℤ → QueueConfig
executed name n = record (queue_of name n) {
  executor = some (record { type = codes "http"; node = none });
}

abbrev both_executed : Config
both_executed = record small {
  queues = executed (codes "mail") (some (pos 4)) ∷ executed (codes "push") none ∷ [];
}

abbrev http_only : List (Bytes × Factory)
http_only = (codes "http", λ name e. some 7) ∷ []

both_executed-IsValid : IsValid both_executed
unfolding validate mkqd.Config.check_queues mkqd.Config.check_queue bytes_eq
    mkqd.Config.check_concurrency mkqd.Config.check_executor mkqd.Config.check_rate_limit
both_executed-IsValid = (validate_iff both_executed).0 refl

warn_pool_size_silent_example :
    warn_pool_size both_executed
      (build_configured_queues http_only no_queues both_executed.queues).0
      (registered_queues (build_configured_queues http_only no_queues both_executed.queues).0)
    ≡ none
unfolding mkqd.Config.queue_concurrency build_configured_queues mkqd.Registry.build_queue
    mkqd.Registry.build_executor mkqd.Base.lookup mkqd.Base.insert bytes_eq
warn_pool_size_silent_example =
    warn_pool_size_silent http_only both_executed 16 both_executed-IsValid refl refl (omega arith)
      refl

abbrev pub dir_config : SignerConfig
dir_config = record {
  type = codes "dir";
  key_id = [];
  private_key_path = [];
  path = codes "keys";
  url = [];
  secret = [];
  timeout = pos 0;
  allow_private_network = none;
}

abbrev pub one_directory : Surroundings
one_directory = record {
  read_file = λ path. none;
  parse_key = λ pem. none;
  is_dir = λ path. some true;
  parse_url = λ raw. none;
}

build_signer-IsUsable_example : IsUsable one_directory (dir_signer (codes "keys"))
unfolding build_signer mkqd.KeyCache.Signers.new_dir_signer bytes_eq
build_signer-IsUsable_example =
    build_signer-IsUsable one_directory dir_config (dir_signer (codes "keys")) refl

-- The file reads as `both_executed`, and mkq starts every worker.
abbrev serving_yaml : YamlPackage
serving_yaml = record yaml { decode_config = λ text. some both_executed }

abbrev willing : Outside
willing = record {
  start_worker = λ s options. none;
  listen = none;
  close_server = none;
  drain = λ name. none;
  stop = λ name. none;
  close_client = none;
  close_redis = none;
}

cmd_run_outcome_example : RanOutcome willing http_only (
    cmd_run willing http_only
      (new_from_file reachable serving_yaml (λ name. none) (some (codes "mkqd"))))
cmd_run_outcome_example =
    cmd_run_outcome willing http_only reachable serving_yaml (λ name. none) (some (codes "mkqd"))
