-- ===== src/Tuning/Precedence.antt =====
-- The precedence of register.go: the configured queue, then the options given in code, then the
-- defaults.
use mathlib.Core.Path.{subst}
use mkqd.Base.{
  ◌≡◌, Bool-cases, bytes_eq, List, [], ◌∷◌, All, Option, none, some, arith, Bytes, inl, inr,
  Option-cases,
}
use mkqd.Base.Int.{pos, ◌≤ℤ◌}
use mkqd.Config.{Config, QueueConfig, queue_config}
use mkqd.Config.Validity.{IsValid, IsValidQueue, OnSome}
use mkqd.Tuning.{QueueTuning, resolve_tuning, Resolved}

-- The first of three layers that is set.
abbrev pub layered : {A : Type 0} → Option A → Option A → A → A
layered (some a) code d = a
layered none (some a) d = a
layered none none d = d

abbrev pub layered_option : {A : Type 0} → Option A → Option A → Option A
layered_option (some a) code = some a
layered_option none code = code

-- The layers of a queue, field by field.
abbrev pub layers : QueueConfig → QueueTuning → Config → Resolved
layers q t c = record {
  concurrency = layered q.concurrency t.concurrency c.defaults.concurrency;
  lock_duration = layered q.lock_duration t.lock_duration c.defaults.lock_duration;
  stalled_interval = layered q.stalled_interval t.stalled_interval c.defaults.stalled_interval;
  max_stalled_count = layered q.max_stalled_count t.max_stalled_count c.defaults.max_stalled_count;
  job_metrics = layered q.job_metrics t.job_metrics c.defaults.job_metrics;
  rate_limit = layered_option q.rate_limit t.rate_limit;
}

-- A queue that the configuration does not declare sets nothing.
abbrev pub declared : Option QueueConfig → QueueConfig
declared (some q) = q
declared none = record {
  name = [];
  concurrency = none;
  lock_duration = none;
  stalled_interval = none;
  max_stalled_count = none;
  job_metrics = none;
  rate_limit = none;
  executor = none;
}

-- Each knob of a queue is the configured one, else the one given in code, else the default, and the
-- rate limit has no default, for every configuration and queue name.
pub resolve_tuning-layers :
    (c : Config) (name : Bytes) (t : QueueTuning)
    → resolve_tuning c name t ≡ layers (declared (queue_config c.queues name)) t c
unfolding resolve_tuning
resolve_tuning-layers c name t = ground arith

queue_config_valid :
    (qs : List QueueConfig) (name : Bytes) (q : QueueConfig)
    → All IsValidQueue qs
    → queue_config qs name ≡ some q
    → IsValidQueue q
unfolding queue_config
queue_config_valid [] name q v e = cc
queue_config_valid (r ∷ qs) name q v e = elim (Bool-cases (bytes_eq r.name name)) [
  | inl hit ↦ let found : r ≡ q = ground arith in subst IsValidQueue found v.0
  | inr miss ↦ queue_config_valid qs name q v.1 (ground arith)
]

-- With a valid configuration, and a concurrency in code that is at least one if it is given, every
-- queue gets at least one worker slot.
pub resolve_tuning_positive :
    (c : Config) (name : Bytes) (t : QueueTuning)
    → IsValid c
    → OnSome (λ n. pos 1 ≤ℤ n) t.concurrency
    → pos 1 ≤ℤ (resolve_tuning c name t).concurrency
resolve_tuning_positive c name t v h =
    rw (resolve_tuning-layers c name t) (elim (Option-cases (queue_config c.queues name)) [
      | inl e ↦ rw e (ground (arith, v.concurrency, h))
      | inr (q, e) ↦
          let vq = queue_config_valid c.queues name q v.queues e in
          rw e (ground (arith, v.concurrency, vq.concurrency, h))
    ])
