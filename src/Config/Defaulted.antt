-- ===== src/Config/Defaulted.antt =====
-- applyDefaults of config.go: a second pass changes nothing, and what is left for Validate.
use mkqd.Base.{◌≡◌, ◌≢◌, ◌↔◌, ◌⊎◌, [], All, arith, none}
use mkqd.Base.Int.{pos, ◌≤ℤ◌}
use mkqd.Config.Validity.{IsValid, IsValidQueue, Distinct, OneOf, validate_iff}
use mkqd.Config.{Config, apply_defaults, validate, known_levels, known_formats}

-- Filling in the defaults twice is filling them in once.
pub apply_defaults_idem : (c : Config) → apply_defaults (apply_defaults c) ≡ apply_defaults c
unfolding apply_defaults
apply_defaults_idem c = ground arith

-- A configuration as the operator may leave it: empty texts and zeros ask for the defaults.
pub record IsLoadable (c : Config) : Type 0 where
  pub addrs : c.redis.addrs ≢ []
  pub level : (c.log.level ≡ []) ⊎ OneOf known_levels c.log.level
  pub format : (c.log.format ≡ []) ⊎ OneOf known_formats c.log.format
  pub concurrency : pos 0 ≤ℤ c.defaults.concurrency
  pub shutdown : pos 0 ≤ℤ c.shutdown_timeout
  pub queues : All IsValidQueue c.queues
  pub distinct : Distinct c.queues

to_valid : (c : Config) → IsLoadable c → IsValid (apply_defaults c)
unfolding apply_defaults
to_valid c v = record {
  addrs = v.addrs;
  level = ground (arith, v.level);
  format = ground (arith, v.format);
  concurrency = ground (arith, v.concurrency);
  shutdown = ground (arith, v.shutdown);
  queues = v.queues;
  distinct = v.distinct;
}

of_valid : (c : Config) → IsValid (apply_defaults c) → IsLoadable c
unfolding apply_defaults
of_valid c v = record {
  addrs = v.addrs;
  level = ground (arith, v.level);
  format = ground (arith, v.format);
  concurrency = ground (arith, v.concurrency);
  shutdown = ground (arith, v.shutdown);
  queues = v.queues;
  distinct = v.distinct;
}

-- Validate accepts a configuration with its defaults filled in exactly if the configuration is
-- loadable: as a valid one, but that the log level, the format, the default concurrency and the
-- shutdown timeout may be empty or zero.
pub validate-apply_defaults : (c : Config) → (validate (apply_defaults c) ≡ none) ↔ IsLoadable c
validate-apply_defaults c = (
  λ h. of_valid c ((validate_iff (apply_defaults c)).0 h),
  λ v. (validate_iff (apply_defaults c)).1 (to_valid c v),
)
