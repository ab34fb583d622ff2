-- ===== src/Tuning.antt =====
-- register.go, tuning: the options of a queue in three layers, and the worker options that come out.
pub mod Precedence
use mkqd.Base.{ℕ, Bool, not, Option, none, some, List, [], ◌∷◌, ◌++◌, Bytes, if◌then◌else◌}
use mkqd.Base.Int.{ℤ, pos, ltb_ℤ}
use mkqd.Config.{Config, QueueConfig, QueueDefaults, RateLimitConfig, queue_config}

-- A knob is set or unset.
pub record QueueTuning : Type 0 where
  pub concurrency : Option ℤ
  pub lock_duration : Option ℤ
  pub stalled_interval : Option ℤ
  pub max_stalled_count : Option ℤ
  pub job_metrics : Option ℤ
  pub rate_limit : Option RateLimitConfig

abbrev pub unset : QueueTuning
unset = record {
  concurrency = none;
  lock_duration = none;
  stalled_interval = none;
  max_stalled_count = none;
  job_metrics = none;
  rate_limit = none;
}

-- QueueOption, a function that changes the tuning.
abbrev pub QueueOption : Type 0
QueueOption = QueueTuning → QueueTuning

unfoldable pub with_concurrency : ℤ → QueueOption
with_concurrency n t = record t { concurrency = some n }

unfoldable pub with_lock_duration : ℤ → QueueOption
with_lock_duration d t = record t { lock_duration = some d }

unfoldable pub with_stalled_interval : ℤ → QueueOption
with_stalled_interval d t = record t { stalled_interval = some d }

unfoldable pub with_max_stalled_count : ℤ → QueueOption
with_max_stalled_count n t = record t { max_stalled_count = some n }

unfoldable pub with_rate_limit : ℤ → ℤ → QueueOption
with_rate_limit max window t = record t {
  rate_limit = some (record { max = max; duration = window });
}

unfoldable pub with_job_metrics : ℤ → QueueOption
with_job_metrics n t = record t { job_metrics = some n }

abbrev apply_option : Option QueueOption → QueueTuning → QueueTuning
apply_option none t = t
apply_option (some o) t = o t

unfoldable pub apply_options : QueueTuning → List (Option QueueOption) → QueueTuning
apply_options t [] = t
apply_options t (o ∷ os) = apply_options (apply_option o t) os

-- tuningFromOptions: the options in order, nil ones left out.
unfoldable pub tuning_from_options : List (Option QueueOption) → QueueTuning
unfolding apply_options
tuning_from_options = apply_options unset

unfoldable pub tuning_from_config : QueueConfig → QueueTuning
tuning_from_config q = record {
  concurrency = q.concurrency;
  lock_duration = q.lock_duration;
  stalled_interval = q.stalled_interval;
  max_stalled_count = q.max_stalled_count;
  job_metrics = q.job_metrics;
  rate_limit = q.rate_limit;
}

-- `if over.x != nil { t.x = over.x }`.
abbrev pub over_field : {A : Type 0} → Option A → Option A → Option A
over_field t none = t
over_field t (some a) = some a

unfoldable pub overlay : QueueTuning → QueueTuning → QueueTuning
overlay t over = record {
  concurrency = over_field t.concurrency over.concurrency;
  lock_duration = over_field t.lock_duration over.lock_duration;
  stalled_interval = over_field t.stalled_interval over.stalled_interval;
  max_stalled_count = over_field t.max_stalled_count over.max_stalled_count;
  job_metrics = over_field t.job_metrics over.job_metrics;
  rate_limit = over_field t.rate_limit over.rate_limit;
}

pub record Resolved : Type 0 where
  pub concurrency : ℤ
  pub lock_duration : ℤ
  pub stalled_interval : ℤ
  pub max_stalled_count : ℤ
  pub job_metrics : ℤ
  pub rate_limit : Option RateLimitConfig

abbrev pub set_or : {A : Type 0} → Option A → A → A
set_or none d = d
set_or (some a) d = a

unfoldable pub resolve : QueueTuning → QueueDefaults → Resolved
resolve t d = record {
  concurrency = set_or t.concurrency d.concurrency;
  lock_duration = set_or t.lock_duration d.lock_duration;
  stalled_interval = set_or t.stalled_interval d.stalled_interval;
  max_stalled_count = set_or t.max_stalled_count d.max_stalled_count;
  job_metrics = set_or t.job_metrics d.job_metrics;
  rate_limit = t.rate_limit;
}

-- The mkq worker options that register.go uses.
pub data WorkerOption : Type 0 where
  concurrency lock_duration stalled_interval max_stalled_count job_metrics : ℤ → WorkerOption
  rate_limit : ℤ → ℤ → WorkerOption
  retry_delay_override : WorkerOption

unfoldable pub rate_limit_option : Option RateLimitConfig → List WorkerOption
rate_limit_option none = []
rate_limit_option (some r) = WorkerOption.rate_limit r.max r.duration ∷ []

unfoldable pub worker_options : Resolved → List WorkerOption
unfolding rate_limit_option
worker_options r =
    (WorkerOption.concurrency r.concurrency
      ∷ WorkerOption.lock_duration r.lock_duration
      ∷ WorkerOption.stalled_interval r.stalled_interval
      ∷ WorkerOption.max_stalled_count r.max_stalled_count
      ∷ [])
    ++ (rate_limit_option r.rate_limit
        ++ (if ltb_ℤ (pos 0) r.job_metrics
            then WorkerOption.job_metrics r.job_metrics ∷ []
            else []))

unfoldable pub worker_options_for : Resolved → List WorkerOption
unfolding worker_options
worker_options_for r = worker_options r ++ (retry_delay_override ∷ [])

-- resolveTuning, of a registration's queue name and tuning.
unfoldable pub resolve_tuning : Config → Bytes → QueueTuning → Resolved
unfolding overlay tuning_from_config resolve
resolve_tuning c queue tune = elim (queue_config c.queues queue) [
  | none ↦ resolve tune c.defaults
  | some q ↦ resolve (overlay tune (tuning_from_config q)) c.defaults
]
