-- ===== src/Config/Validity.antt =====
-- Validate of config.go against a description of a valid configuration.
use mkqd.Base.{
  ℕ, suc, ◌≡◌, ◌≢◌, ◌↔◌, ◌⊎◌, refl, true, false, Option, none, some, List, [], ◌∷◌, Bytes,
  bytes_eq_iff, mem_bytes, All, arith,
}
use mkqd.Base.Int.{pos, ◌≤ℤ◌}
use mkqd.Config.{
  Config, QueueConfig, check_queue, check_queues, validate, known_levels, known_formats,
}

abbrev pub OnSome : {A : Type 0} → (A → Type 0) → Option A → Type 0
OnSome P none = Unit {0}
OnSome P (some a) = P a

pub record IsValidQueue (q : QueueConfig) : Type 0 where
  pub named : q.name ≢ []
  pub concurrency : OnSome (λ n. pos 1 ≤ℤ n) q.concurrency
  pub rate_limit : OnSome (λ r. (pos 1 ≤ℤ r.max) × (pos 1 ≤ℤ r.duration)) q.rate_limit
  pub executor : OnSome (λ e. e.type ≢ []) q.executor

-- No two queues have one name.
abbrev pub Distinct : List QueueConfig → Type 0
Distinct [] = Unit {0}
Distinct (q ∷ qs) = All (λ r. r.name ≢ q.name) qs × Distinct qs

abbrev pub OneOf : List Bytes → Bytes → Type 0
OneOf [] s = ⊥
OneOf (x ∷ xs) s = (s ≡ x) ⊎ OneOf xs s

pub record IsValid (c : Config) : Type 0 where
  pub addrs : c.redis.addrs ≢ []
  pub level : OneOf known_levels c.log.level
  pub format : OneOf known_formats c.log.format
  pub concurrency : pos 1 ≤ℤ c.defaults.concurrency
  pub shutdown : pos 0 ≤ℤ c.shutdown_timeout
  pub queues : All IsValidQueue c.queues
  pub distinct : Distinct c.queues

abbrev Fresh : List Bytes → QueueConfig → Type 0
Fresh seen q = All (λ s. q.name ≢ s) seen

pub mem_bytes-OneOf : (s : Bytes) (xs : List Bytes) → (mem_bytes s xs ≡ true) ↔ OneOf xs s
mem_bytes-OneOf s [] = ground arith
mem_bytes-OneOf s (x ∷ xs) = ground (arith, bytes_eq_iff s x, mem_bytes-OneOf s xs)

mem_bytes_none : (s : Bytes) (xs : List Bytes) → (mem_bytes s xs ≡ false) ↔ All (λ x. s ≢ x) xs
mem_bytes_none s [] = ground arith
mem_bytes_none s (x ∷ xs) = ground (arith, bytes_eq_iff s x, mem_bytes_none s xs)

check_queue_sound :
    (i : ℕ) (seen : List Bytes) (q : QueueConfig)
    → check_queue i seen q ≡ none
    → IsValidQueue q × Fresh seen q
unfolding check_queue
check_queue_sound i seen q h = ground (arith, mem_bytes_none q.name seen)

check_queue_complete :
    (i : ℕ) (seen : List Bytes) (q : QueueConfig)
    → IsValidQueue q
    → Fresh seen q
    → check_queue i seen q ≡ none
unfolding check_queue
check_queue_complete i seen q v f = ground (arith, mem_bytes_none q.name seen)

Fresh-apart :
    (q : QueueConfig) (seen : List Bytes) (qs : List QueueConfig)
    → All (Fresh (q.name ∷ seen)) qs
    → All (λ r. r.name ≢ q.name) qs × All (Fresh seen) qs
Fresh-apart q seen [] h = (tt, tt)
Fresh-apart q seen (r ∷ qs) h = let (a, f) = Fresh-apart q seen qs h.1 in ((h.0.0, a), (h.0.1, f))

apart-Fresh :
    (q : QueueConfig) (seen : List Bytes) (qs : List QueueConfig)
    → All (λ r. r.name ≢ q.name) qs
    → All (Fresh seen) qs
    → All (Fresh (q.name ∷ seen)) qs
apart-Fresh q seen [] a f = tt
apart-Fresh q seen (r ∷ qs) a f = ((a.0, f.0), apart-Fresh q seen qs a.1 f.1)

check_queues_sound :
    (i : ℕ) (seen : List Bytes) (qs : List QueueConfig)
    → check_queues i seen qs ≡ none
    → All IsValidQueue qs × Distinct qs × All (Fresh seen) qs
unfolding check_queues
check_queues_sound i seen [] h = (tt, tt, tt)
check_queues_sound i seen (q ∷ qs) h =
    let (v, f) = check_queue_sound i seen q (ground arith) in
    let (vs, ds, fs) = check_queues_sound (suc i) (q.name ∷ seen) qs (ground arith) in
    let (a, fs') = Fresh-apart q seen qs fs in ((v, vs), (a, ds), (f, fs'))

check_queues_complete :
    (i : ℕ) (seen : List Bytes) (qs : List QueueConfig)
    → All IsValidQueue qs
    → Distinct qs
    → All (Fresh seen) qs
    → check_queues i seen qs ≡ none
unfolding check_queues
check_queues_complete i seen [] v d f = refl
check_queues_complete i seen (q ∷ qs) v d f =
    rw (check_queue_complete i seen q v.0 f.0)
      (check_queues_complete (suc i) (q.name ∷ seen) qs v.1 d.1 (apart-Fresh q seen qs d.0 f.1))

nothing_seen : (qs : List QueueConfig) → All (Fresh []) qs
nothing_seen [] = tt
nothing_seen (q ∷ qs) = (tt, nothing_seen qs)

-- Validate accepts exactly the valid configurations: addresses are given, the log level and format
-- are known, the default concurrency is at least one, the shutdown timeout is not negative, and the
-- queues are valid and have different names.
pub validate_iff : (c : Config) → (validate c ≡ none) ↔ IsValid c
unfolding validate
validate_iff c = (sound, complete)
  where
    sound : validate c ≡ none → IsValid c
    sound h =
        let q : check_queues 0 [] c.queues ≡ none = ground arith in
        let (v, d, f) = check_queues_sound 0 [] c.queues q in
        record {
          addrs = ground arith;
          level = (mem_bytes-OneOf c.log.level known_levels).0 (ground arith);
          format = (mem_bytes-OneOf c.log.format known_formats).0 (ground arith);
          concurrency = ground arith;
          shutdown = ground arith;
          queues = v;
          distinct = d;
        }

    complete : IsValid c → validate c ≡ none
    complete v =
        rw
          (
            (mem_bytes-OneOf c.log.level known_levels).1 v.level,
            (mem_bytes-OneOf c.log.format known_formats).1 v.format,
            check_queues_complete 0 [] c.queues v.queues v.distinct (nothing_seen c.queues),
          )
          (ground (arith, v.addrs, v.concurrency, v.shutdown))
