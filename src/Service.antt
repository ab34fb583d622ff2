-- ===== src/Service.antt =====
-- runtime.go and logging.go: how a runtime is built from its configuration, and what it tells of
-- itself. The Redis clients, the sort of names and the ping are parameters.
pub mod Health
pub mod Logger
pub mod Pool
pub mod Ready
pub mod Construction
pub mod Daemon
use mkqd.Base.{
  ℕ, Bool, true, false, not, ◌&&◌, Option, none, some, List, [], ◌∷◌, Bytes, codes, is_empty,
  bytes_eq, lookup, if◌then◌else◌,
}
use mkqd.Base.Int.{ℤ, pos, ltb_ℤ, ◌+ℤ◌, wrap64}
use mkqd.Config.{
  Config, ConfigError, RedisConfig, LogConfig, QueueConfig, apply_defaults, validate,
  auto_pool_size, pool_headroom, or_int,
}
use mkqd.Registry.{
  Queues, Registration, RegistryError, Starter, executor, Factory, build_configured_queues,
  registered_queues,
}
use mkqd.RetryAfter.Errors.{Error, message, wrap}
use mkqd.Tuning.{unset, set_or, resolve_tuning}
use Logger.{ProcessLogger, new_logger}

-- redis.UniversalOptions, as far as mkqd fills it in.
pub record UniversalOptions : Type 0 where
  pub addrs : List Bytes
  pub db : ℤ
  pub username : Bytes
  pub password : Bytes
  pub master_name : Bytes
  pub pool_size : ℤ

unfoldable pub universal_options : RedisConfig → ℤ → UniversalOptions
universal_options r auto_pool = record {
  addrs = r.addrs;
  db = r.db;
  username = r.username;
  password = r.password;
  master_name = r.master_name;
  pool_size = or_int r.pool_size auto_pool;
}

abbrev pub probe_pool_size : ℤ
probe_pool_size = pos 2

-- What New puts together: the effective configuration, the logger, what the two Redis clients are
-- opened with, and whether there is a metrics registry.
pub record Built : Type 0 where
  pub cfg : Config
  pub log : ProcessLogger
  pub client_options : UniversalOptions
  pub probe_options : UniversalOptions
  pub metrics : Bool
  pub queues : Queues

pub data NewResult : Type 0 where
  built : Built → NewResult
  invalid : ConfigError → NewResult
  new_failed : Error → NewResult

abbrev pub no_queues : Queues
no_queues = record { registry = []; order = []; started = false; warnings = [] }

abbrev probe : UniversalOptions → UniversalOptions
probe o = record o { pool_size = probe_pool_size }

abbrev pub assembled : Config → ProcessLogger → Built
assembled c l = record {
  cfg = c;
  log = l;
  client_options = universal_options c.redis (auto_pool_size c);
  probe_options = probe (universal_options c.redis probe_pool_size);
  metrics = c.server.metrics;
  queues = no_queues;
}

-- `connect` is mkq.NewClient.
unfoldable pub after_connect : Option Error → Built → NewResult
after_connect none b = built b
after_connect (some e) b = new_failed e

unfoldable pub after_logger :
    (UniversalOptions → Option Error) → Config → Option ProcessLogger → NewResult
unfolding after_connect
after_logger connect c none = new_failed (message (codes "log"))
after_logger connect c (some l) =
    after_connect (connect (assembled c l).client_options) (assembled c l)

unfoldable pub after_validate :
    (UniversalOptions → Option Error) → Config → Option ConfigError → NewResult
unfolding after_logger
after_validate connect c (some e) = invalid e
after_validate connect c none = after_logger connect c (new_logger c.log)

-- New.
unfoldable pub new : (UniversalOptions → Option Error) → Config → NewResult
unfolding after_validate
new connect c = after_validate connect (apply_defaults c) (validate (apply_defaults c))

-- The entry of a Go map, whose absent keys have the zero registration.
abbrev zero_registration : Registration
zero_registration = record { queue = []; tune = unset; start = executor [] 0; from_code = false }

abbrev pub registration_of : Queues → Bytes → Registration
registration_of s name = set_or (lookup name s.registry) zero_registration

abbrev pub tuned_concurrency : Config → Registration → ℤ
tuned_concurrency c r = (resolve_tuning c r.queue r.tune).concurrency

-- The loop of warnPoolSize, in int64.
unfoldable pub total_concurrency : Config → Queues → ℤ → List Bytes → ℤ
total_concurrency c s total [] = total
total_concurrency c s total (name ∷ names) =
    total_concurrency c s (wrap64 (total +ℤ tuned_concurrency c (registration_of s name))) names

-- The numbers of the warning.
pub record PoolWarning : Type 0 where
  pub pool_size : ℤ
  pub total : ℤ
  pub recommended : ℤ

-- The test of warnPoolSize, of the pool and the total.
unfoldable pub pool_warning : ℤ → ℤ → Option PoolWarning
pool_warning pool total =
    let want = wrap64 (total +ℤ pool_headroom) in
    if ltb_ℤ pool want
    then some (record { pool_size = pool; total = total; recommended = want })
    else none

unfoldable pub warn_pool_size : Config → Queues → List Bytes → Option PoolWarning
unfolding total_concurrency pool_warning
warn_pool_size c s names =
    pool_warning (or_int c.redis.pool_size (auto_pool_size c)) (total_concurrency c s (pos 0) names)

-- Check; `ping` is what Redis answered. What was built stays.
pub data CheckError : Type 0 where
  ping_failed : Error → CheckError
  build_error : RegistryError → CheckError

abbrev build_error_of : Option RegistryError → Option CheckError
build_error_of none = none
build_error_of (some e) = some (build_error e)

unfoldable pub check :
    Option Error → List (Bytes × Factory) → Config → Queues → Queues × Option CheckError
check (some e) factories c s = (s, some (ping_failed (wrap (codes "redis ping") e)))
check none factories c s =
    let r = build_configured_queues factories s c.queues in (r.0, build_error_of r.1)

-- Queues; `sorted` is sort.Strings.
unfoldable pub queues_of : (List Bytes → List Bytes) → Queues → List Bytes
queues_of sorted s = sorted (registered_queues s)

-- QueueTuning.
abbrev tuning_of : Config → Option Registration → Option (ℤ × ℤ)
tuning_of c none = none
tuning_of c (some r) =
    let t = resolve_tuning c r.queue r.tune in some (t.concurrency, t.lock_duration)

unfoldable pub queue_tuning : Config → Queues → Bytes → Option (ℤ × ℤ)
queue_tuning c s queue = tuning_of c (lookup queue s.registry)
