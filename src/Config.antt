-- ===== src/Config.antt =====
-- config.go: the configuration, its defaults and its checks. Integers and durations are int64 values.
-- YAML decoding is the yaml package's; what config.go itself does to the parsed document is in
-- Config/Yaml and Config/Env.
pub mod Yaml
pub mod Env
pub mod Validity
pub mod Defaulted
pub mod Pool
pub mod Lookup
pub mod Load
use mkqd.Base.{
  ℕ, suc, ◌+◌, Bool, true, false, not, ◌&&◌, ◌||◌, Option, none, some, List, [], ◌∷◌, Bytes, codes,
  is_empty, bytes_eq, mem_bytes, if◌then◌else◌,
}
use mkqd.Base.Int.{ℤ, pos, ltb_ℤ, eqb_ℤ, ◌+ℤ◌, wrap64}
use Yaml.{Node}

pub record RedisConfig : Type 0 where
  pub addrs : List Bytes
  pub db : ℤ
  pub username : Bytes
  pub password : Bytes
  pub master_name : Bytes
  pub pool_size : ℤ

pub record LogConfig : Type 0 where
  pub level : Bytes
  pub format : Bytes

pub record ServerConfig : Type 0 where
  pub addr : Bytes
  pub metrics : Bool

pub record QueueDefaults : Type 0 where
  pub concurrency : ℤ
  pub lock_duration : ℤ
  pub stalled_interval : ℤ
  pub max_stalled_count : ℤ
  pub job_metrics : ℤ

pub record RateLimitConfig : Type 0 where
  pub max : ℤ
  pub duration : ℤ

-- The executor's type, and the node that UnmarshalYAML retains.
pub record ExecutorConfig : Type 0 where
  pub type : Bytes
  pub node : Option Node

-- A pointer field is an Option.
pub record QueueConfig : Type 0 where
  pub name : Bytes
  pub concurrency : Option ℤ
  pub lock_duration : Option ℤ
  pub stalled_interval : Option ℤ
  pub max_stalled_count : Option ℤ
  pub job_metrics : Option ℤ
  pub rate_limit : Option RateLimitConfig
  pub executor : Option ExecutorConfig

pub record Config : Type 0 where
  pub redis : RedisConfig
  pub key_prefix : Bytes
  pub log : LogConfig
  pub server : ServerConfig
  pub shutdown_timeout : ℤ
  pub defaults : QueueDefaults
  pub queues : List QueueConfig

abbrev pub default_concurrency : ℤ
default_concurrency = pos 16

abbrev pub default_lock_duration : ℤ
default_lock_duration = pos 30_000_000_000

abbrev pub default_stalled_interval : ℤ
default_stalled_interval = pos 30_000_000_000

abbrev pub default_max_stalled : ℤ
default_max_stalled = pos 1

abbrev pub default_shutdown_timeout : ℤ
default_shutdown_timeout = pos 30_000_000_000

abbrev pub default_server_addr : Bytes
default_server_addr = codes "127.0.0.1:9464"

abbrev pub server_off : Bytes
server_off = codes "off"

abbrev pub pool_headroom : ℤ
pool_headroom = pos 8

-- `if s == "" { s = d }` and `if n == 0 { n = d }`.
abbrev pub or_text : Bytes → Bytes → Bytes
or_text s d = if is_empty s then d else s

abbrev pub or_int : ℤ → ℤ → ℤ
or_int n d = if eqb_ℤ n (pos 0) then d else n

unfoldable pub apply_defaults : Config → Config
apply_defaults c = record c {
  log = record {
    level = or_text c.log.level (codes "info");
    format = or_text c.log.format (codes "text");
  };
  server = record { addr = or_text c.server.addr default_server_addr; metrics = c.server.metrics };
  shutdown_timeout = or_int c.shutdown_timeout default_shutdown_timeout;
  defaults = record {
    concurrency = or_int c.defaults.concurrency default_concurrency;
    lock_duration = or_int c.defaults.lock_duration default_lock_duration;
    stalled_interval = or_int c.defaults.stalled_interval default_stalled_interval;
    max_stalled_count = or_int c.defaults.max_stalled_count default_max_stalled;
    job_metrics = c.defaults.job_metrics;
  };
}

-- The errors of Validate, with what their messages name.
pub data ConfigError : Type 0 where
  addrs_required defaults_concurrency negative_shutdown : ConfigError
  bad_level bad_format : Bytes → ConfigError
  name_required : ℕ → ConfigError
  declared_twice bad_concurrency bad_rate_max bad_rate_duration no_executor_type :
      Bytes → ConfigError

-- Zero or less is below one.
abbrev pub below_one : ℤ → Bool
below_one n = not (ltb_ℤ (pos 0) n)

unfoldable pub check_rate_limit : Bytes → Option RateLimitConfig → Option ConfigError
check_rate_limit name none = none
check_rate_limit name (some r) =
    if below_one r.max
    then some (bad_rate_max name)
    else if below_one r.duration
    then some (bad_rate_duration name)
    else none

unfoldable pub check_executor : Bytes → Option ExecutorConfig → Option ConfigError
check_executor name none = none
check_executor name (some e) = if is_empty e.type then some (no_executor_type name) else none

unfoldable pub check_concurrency : Bytes → Option ℤ → Option ConfigError
check_concurrency name none = none
check_concurrency name (some n) = if below_one n then some (bad_concurrency name) else none

-- The first error of two checks in a row.
abbrev pub then_check : Option ConfigError → Option ConfigError → Option ConfigError
then_check none next = next
then_check (some e) next = some e

-- One round of the loop over the queues.
unfoldable pub check_queue : ℕ → List Bytes → QueueConfig → Option ConfigError
unfolding check_rate_limit check_executor check_concurrency
check_queue i seen q =
    if is_empty q.name
    then some (name_required i)
    else if mem_bytes q.name seen
    then some (declared_twice q.name)
    else then_check (check_concurrency q.name q.concurrency)
        (then_check (check_rate_limit q.name q.rate_limit) (check_executor q.name q.executor))

unfoldable pub check_queues : ℕ → List Bytes → List QueueConfig → Option ConfigError
check_queues i seen [] = none
check_queues i seen (q ∷ qs) =
    then_check (check_queue i seen q) (check_queues (suc i) (q.name ∷ seen) qs)

abbrev pub known_levels : List Bytes
known_levels = codes "debug" ∷ codes "info" ∷ codes "warn" ∷ codes "error" ∷ []

abbrev pub known_formats : List Bytes
known_formats = codes "text" ∷ codes "json" ∷ []

abbrev no_addrs : List Bytes → Bool
no_addrs [] = true
no_addrs (_ ∷ _) = false

-- Validate. `none` is the nil error.
unfoldable pub validate : Config → Option ConfigError
validate c =
    if no_addrs c.redis.addrs
    then some addrs_required
    else if not (mem_bytes c.log.level known_levels)
    then some (bad_level c.log.level)
    else if not (mem_bytes c.log.format known_formats)
    then some (bad_format c.log.format)
    else if below_one c.defaults.concurrency
    then some defaults_concurrency
    else if ltb_ℤ c.shutdown_timeout (pos 0)
    then some negative_shutdown
    else check_queues 0 [] c.queues

unfoldable pub server_enabled : Config → Bool
server_enabled c = not (is_empty c.server.addr) && not (bytes_eq c.server.addr server_off)

unfoldable pub queue_concurrency : ℤ → Option ℤ → ℤ
queue_concurrency default none = default
queue_concurrency default (some n) = n

-- The loop of declaredConcurrency, in int64.
unfoldable pub sum_concurrency : ℤ → ℤ → List QueueConfig → ℤ
sum_concurrency default total [] = total
sum_concurrency default total (q ∷ qs) =
    sum_concurrency default (wrap64 (total +ℤ queue_concurrency default q.concurrency)) qs

unfoldable pub declared_concurrency : Config → ℤ
declared_concurrency c =
    or_int (sum_concurrency c.defaults.concurrency (pos 0) c.queues) c.defaults.concurrency

unfoldable pub auto_pool_size : Config → ℤ
auto_pool_size c = wrap64 (declared_concurrency c +ℤ pool_headroom)

-- queueConfig: the first queue of that name.
unfoldable pub queue_config : List QueueConfig → Bytes → Option QueueConfig
queue_config [] name = none
queue_config (q ∷ qs) name = if bytes_eq q.name name then some q else queue_config qs name
