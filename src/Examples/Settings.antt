-- ===== src/Examples/Settings.antt =====
-- The configuration at a small file: two queues, one of them with its own concurrency.
use mkqd.Base.{
  ℕ, ◌≡◌, ◌≢◌, ◌↔◌, ◌+◌, ◌==◌, if◌then◌else◌, inl, inr, refl, none, some, Option, Bool, true, Bytes,
  codes, arith, [], ◌∷◌, List, All,
}
use mkqd.Base.Int.{ℤ, pos}
use mkqd.Config.Env.Print.{Piece, plain, ref, print, meaning, expand-print}
use mkqd.Config.Env.{expand}
use mkqd.Config.Validity.{IsValid, validate_iff}
use mkqd.Config.{Config, QueueConfig, apply_defaults, validate, queue_config, auto_pool_size}

abbrev pub queue_of : Bytes → Option ℤ → QueueConfig
queue_of name n = record {
  name = name;
  concurrency = n;
  lock_duration = none;
  stalled_interval = none;
  max_stalled_count = none;
  job_metrics = none;
  rate_limit = none;
  executor = none;
}

abbrev pub small : Config
small = record {
  redis = record {
    addrs = codes "127.0.0.1:6379" ∷ [];
    db = pos 0;
    username = [];
    password = [];
    master_name = [];
    pool_size = pos 0;
  };
  key_prefix = [];
  log = record { level = codes "info"; format = codes "text" };
  server = record { addr = []; metrics = true };
  shutdown_timeout = pos 0;
  defaults = record {
    concurrency = pos 16;
    lock_duration = pos 0;
    stalled_interval = pos 0;
    max_stalled_count = pos 0;
    job_metrics = pos 0;
  };
  queues = queue_of (codes "mail") (some (pos 4)) ∷ queue_of (codes "push") none ∷ [];
}

validate_iff_example : (validate small ≡ none) ↔ IsValid small
validate_iff_example = validate_iff small

small-IsValid : IsValid small
unfolding validate mkqd.Config.check_queues mkqd.Config.check_queue mkqd.Base.bytes_eq
    mkqd.Config.check_concurrency mkqd.Config.check_executor mkqd.Config.check_rate_limit
small-IsValid = (validate_iff small).0 refl

-- The value `a${HOST:-b}`.
abbrev pieces : List Piece
pieces = plain b'a' ∷ ref (record { name = codes "HOST"; default = some (codes "b") }) ∷ []

abbrev no_env : Bytes → Option Bytes
no_env name = none

expand-print_example : expand no_env 0 (print pieces) ≡ meaning no_env pieces
expand-print_example = expand-print no_env pieces (
  omega arith,
  (record { name = (refl, (refl, (refl, (refl, tt)))); default = (omega arith, tt) }, tt),
)
