-- ===== src/Service/Construction.antt =====
-- New of runtime.go fails only where the configuration is invalid or Redis is out of reach.
use mkqd.Base.{
  ◌≡◌, ◌⊎◌, refl, sym, ap, ◌∙◌, inl, inr, true, false, Option, some, Option-cases, Bytes, is_some,
  arith,
}
use mkqd.Config.{Config, ConfigError, apply_defaults, validate, known_levels, known_formats}
use mkqd.Config.Load.{
  LoadError, LoadResult, load_error, parsed, YamlPackage, load_config, IsLoaded,
  load_config-IsLoaded,
}
use mkqd.Config.Validity.{IsValid, mem_bytes-OneOf, validate_iff}
use mkqd.RetryAfter.Errors.{Error}
use mkqd.Service.Logger.{ProcessLogger, new_logger, new_logger_lem}
use mkqd.Service.{
  UniversalOptions, NewResult, invalid, assembled, after_connect, after_logger, after_validate, new,
}

-- A valid configuration has a logger.
valid_logger : (c : Config) → IsValid c → is_some (new_logger c.log) ≡ true
valid_logger c v = (new_logger_lem c.log).1 (
  ground (arith, (mem_bytes-OneOf c.log.level known_levels).1 v.level),
  ground (arith, (mem_bytes-OneOf c.log.format known_formats).1 v.format),
)

abbrev Outcome : (UniversalOptions → Option Error) → Config → NewResult → Type 0
Outcome connect c r =
    ((e : ConfigError) × (validate c ≡ some e) × (r ≡ invalid e))
    ⊎ ((l : ProcessLogger) × IsValid c
        × ((new_logger c.log ≡ some l)
            × (r ≡ after_connect (connect (assembled c l).client_options) (assembled c l))))

validated :
    (connect : UniversalOptions → Option Error) (c : Config)
    → Outcome connect c (after_validate connect c (validate c))
unfolding after_validate after_logger
validated connect c = elim (Option-cases (validate c)) [
  | inr (e, q) ↦ rw q (inl (e, refl, refl))
  | inl q ↦
      let v = (validate_iff c).0 q in
      elim (Option-cases (new_logger c.log)) [
        | inl n ↦ ground (arith, valid_logger c v)
        | inr (l, m) ↦ inr (l, v, (m, rw (q, m) refl))
      ]
]

-- New fails only for an invalid configuration or on the connection to Redis.
pub new_outcome :
    (connect : UniversalOptions → Option Error) (c : Config)
    → ((e : ConfigError) × (validate (apply_defaults c) ≡ some e) × (new connect c ≡ invalid e))
      ⊎ ((l : ProcessLogger) × IsValid (apply_defaults c)
          × ((new_logger (apply_defaults c).log ≡ some l)
              × (new connect c
                  ≡ after_connect
                      (connect (assembled (apply_defaults c) l).client_options)
                      (assembled (apply_defaults c) l))))
unfolding new
new_outcome connect c = validated connect (apply_defaults c)

-- What NewFromFile gives.
pub data FromFile : Type 0 where
  not_loaded : LoadError → FromFile
  from_new : NewResult → FromFile

unfoldable pub of_load : (UniversalOptions → Option Error) → LoadResult → FromFile
of_load connect (load_error e) = not_loaded e
of_load connect (parsed c) = from_new (new connect c)

-- NewFromFile.
unfoldable pub new_from_file :
    (UniversalOptions → Option Error)
    → YamlPackage
    → (Bytes → Option Bytes)
    → Option Bytes
    → FromFile
unfolding of_load
new_from_file connect y env file = of_load connect (load_config y env file)

loaded_new :
    (connect : UniversalOptions → Option Error) (c : Config)
    → IsLoaded c
    → (l : ProcessLogger) × (new connect c
        ≡ after_connect (connect (assembled c l).client_options) (assembled c l))
unfolding new after_validate after_logger
loaded_new connect c (v, d) = elim (Option-cases (new_logger c.log)) [
  | inl n ↦ absurd (none_true (sym (ap is_some n) ∙ valid_logger c v))
  | inr (l, m) ↦ (
    l,
    same ∙ ap (after_validate connect c) ((validate_iff c).1 v) ∙ ap (after_logger connect c) m,
  )
]
  where
    none_true : false ≡ true → ⊥
    none_true h = ground (arith, h)

    same : new connect c ≡ after_validate connect c (validate c)
    same = ap (λ b. after_validate connect b (validate b)) d

-- NewFromFile gives the error of reading the file, or the configuration it read is valid with its
-- defaults filled in and the rest is decided by the connection to Redis alone: neither the second
-- Validate nor the logger can fail in New.
pub new_from_file_outcome :
    (connect : UniversalOptions → Option Error) (y : YamlPackage) (env : Bytes → Option Bytes)
    (file : Option Bytes)
    → ((e : LoadError) × (new_from_file connect y env file ≡ not_loaded e))
      ⊎ ((c : Config) × (l : ProcessLogger) × IsLoaded c
          × (new_from_file connect y env file
              ≡ from_new (after_connect (connect (assembled c l).client_options) (assembled c l))))
unfolding new_from_file of_load
new_from_file_outcome connect y env file = by_result (load_config y env file) refl
  where
    by_result :
        (r : LoadResult)
        → load_config y env file ≡ r
        → ((e : LoadError) × (of_load connect r ≡ not_loaded e))
          ⊎ ((c : Config) × (l : ProcessLogger) × IsLoaded c
              × (of_load connect r
                  ≡ from_new
                      (after_connect (connect (assembled c l).client_options) (assembled c l))))
    by_result (load_error e) h = inl (e, refl)
    by_result (parsed c) h =
        let v = load_config-IsLoaded y env file c h in
        let n = loaded_new connect c v in inr (c, n.0, v, ap from_new n.1)
