-- ===== src/Cli/Check.antt =====
-- cmd/mkqd/main.go: `mkqd check`, on what NewFromFile gives.
use mkqd.Base.{
  ◌≡◌, refl, ap, ◌∙◌, inl, inr, Bool, Option, none, some, Option-cases, List, [], ◌∷◌, Bytes,
  lookup, map, All, arith,
}
use mkqd.Base.Int.{ℤ}
use mkqd.Cli.Dispatch.{pool_description, key_prefix_description}
use mkqd.Config.Env.Dedupe.{In}
use mkqd.Config.{Config}
use mkqd.Registry.Build.{build-IsConsistent}
use mkqd.Registry.Complete.{IsFiled, registered_queues-IsFiled}
use mkqd.Registry.Invariant.{IsConsistent}
use mkqd.Registry.{Queues, Factory, build_configured_queues, registered_queues}
use mkqd.Registry.Executors.{registered_executors}
use mkqd.RetryAfter.Errors.{Error}
use mkqd.Service.Construction.{FromFile, not_loaded, from_new}
use mkqd.Service.{built, invalid, new_failed, CheckError, check, queues_of, queue_tuning}

-- A line of the report for a queue: its name, concurrency and lock duration.
abbrev pub Row : Type 0
Row = Bytes × (ℤ × ℤ)

abbrev row_then : Bytes → Option (ℤ × ℤ) → List Row → List Row
row_then name none rows = rows
row_then name (some t) rows = (name, t) ∷ rows

-- The loop of cmdCheck over the queues.
unfoldable pub check_rows : Config → Queues → List Bytes → List Row
check_rows c s [] = []
check_rows c s (name ∷ names) = row_then name (queue_tuning c s name) (check_rows c s names)

pub record CheckReport : Type 0 where
  pub addrs : List Bytes
  pub db : ℤ
  pub pool : Bytes
  pub prefix : Bytes
  pub server : Bytes
  pub metrics : Bool
  pub shutdown : ℤ
  pub rows : List Row
  pub executors : List Bytes

pub data Checked : Type 0 where
  reported : CheckReport → Checked
  check_failed : CheckError → Checked
  not_built : FromFile → Checked

-- `print` is fmt.Sprint, `sorted` is sort.Strings, and `ping` is what Redis answers.
module _ (print : ℤ → Bytes) (sorted : List Bytes → List Bytes) (factories : List (Bytes × Factory))
    (ping : Option Error) where
  unfoldable pub report_of : Config → Queues → CheckReport
  unfolding check_rows
  report_of c s = record {
    addrs = c.redis.addrs;
    db = c.redis.db;
    pool = pool_description print c;
    prefix = key_prefix_description c;
    server = c.server.addr;
    metrics = c.server.metrics;
    shutdown = c.shutdown_timeout;
    rows = check_rows c s (queues_of sorted s);
    executors = registered_executors sorted factories;
  }

  abbrev checked : Config → Queues × Option CheckError → Checked
  checked c (s, some e) = check_failed e
  checked c (s, none) = reported (report_of c s)

  -- cmdCheck; its Shutdown, which closes a runtime that never started, is left out.
  unfoldable pub cmd_check : FromFile → Checked
  unfolding report_of
  cmd_check (not_loaded e) = not_built (not_loaded e)
  cmd_check (from_new (invalid e)) = not_built (from_new (invalid e))
  cmd_check (from_new (new_failed e)) = not_built (from_new (new_failed e))
  cmd_check (from_new (built b)) = checked b.cfg (check ping factories b.cfg b.queues)

filed_row :
    (c : Config) (s : Queues) (name : Bytes) (rows : List Row)
    → IsFiled name s
    → map (λ (r : Row). r.0) (row_then name (queue_tuning c s name) rows)
      ≡ name ∷ map (λ (r : Row). r.0) rows
unfolding queue_tuning
filed_row c s name rows f = elim (Option-cases (lookup name s.registry)) [
  | inl n ↦ ground (arith, f, n)
  | inr (r, e) ↦ rw e refl
]

-- A queue that is filed has a row.
check_rows-names :
    (c : Config) (s : Queues) (names : List Bytes)
    → All (λ name. IsFiled name s) names
    → map (λ (r : Row). r.0) (check_rows c s names) ≡ names
unfolding check_rows
check_rows-names c s [] f = refl
check_rows-names c s (name ∷ names) f =
    filed_row c s name (check_rows c s names) f.0
    ∙ ap (λ l. name ∷ l) (check_rows-names c s names f.1)

All-IsFiled :
    (s : Queues) (names : List Bytes)
    → ((name : Bytes) → In name names → IsFiled name s)
    → All (λ name. IsFiled name s) names
All-IsFiled s [] h = tt
All-IsFiled s (name ∷ names) h = (h name (inl refl), All-IsFiled s names (λ k m. h k (inr m)))

-- After a Check that reaches Redis, of a consistent registry, the report of `mkqd check` has a row for
-- each queue that Queues gives, in that order, whether or not Check succeeded: the loop skips none. The
-- sort must not make up names.
pub check_rows-queues_of :
    (sorted : List Bytes → List Bytes) (fs : List (Bytes × Factory)) (c : Config) (s : Queues)
    → ((names : List Bytes) (name : Bytes) → In name (sorted names) → In name names)
    → IsConsistent s
    → map
        (λ (r : Row). r.0)
        (check_rows c (check none fs c s).0 (queues_of sorted (check none fs c s).0))
      ≡ queues_of sorted (check none fs c s).0
unfolding queues_of check
check_rows-queues_of sorted fs c s p v =
    let t = (build_configured_queues fs s c.queues).0 in
    let listed = (registered_queues-IsFiled t (build-IsConsistent fs c.queues s v)).1 in
    check_rows-names c t (sorted (registered_queues t)) (
      All-IsFiled t (sorted (registered_queues t))
        (λ name m. (listed name).0 (p (registered_queues t) name m)))
