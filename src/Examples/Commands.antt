-- ===== src/Examples/Commands.antt =====
-- The commands on a Redis of a few lists: the queues, the jobs that all of them share, and whether
-- they are paused.
use mkqd.Base.{
  ℕ, suc, ◌-◌, ◌*◌, ◌≡◌, ◌⊎◌, refl, Bool, true, false, Option, none, some, List, [], ◌∷◌, ◌++◌,
  Bytes, codes, mem_bytes, length, take, drop, map, inr, arith, if◌then◌else◌, bytes_eq,
}
use mkqd.Base.Int.{ℤ, pos, ltb_ℤ}
use mkqd.Cli.Admin.{EnqueueFlags, max_priority, cmd_enqueue, cmd_retry, cmd_drain}
use mkqd.Cli.Confirmed.{Confirmed, typed_drain_outcome}
use mkqd.Cli.Flags.{given, parse_flags, parse_bool}
use mkqd.Cli.Typed.{Numbers, Plain, parsed, typed_drain, typed_list, typed_enqueue, typed_retry}
use mkqd.Cli.Printed.{
  words_of, with_shared, list_settings, enqueue_settings, drain_settings, typed_printed,
}
use mkqd.Cli.Changes.{single_pause, asked, run_single, Changed, Refused, single_outcome}
use mkqd.Cli.Enqueue.{Enqueued, enqueue_outcome}
use mkqd.Cli.Inspect.{ListFlags, view_of, cmd_queues, cmd_counts, cmd_list, cmd_job}
use mkqd.Cli.LateFlags.{late_flags_refused}
use mkqd.Cli.Paging.{pages, pages-prefix}
use mkqd.Cli.ReadOnly.{OnlyDefines, or_all, inspect-OnlyDefines}
use mkqd.Cli.Redis.{Answer, got, error, Change, Counts, Redis, pause, drain_pending}
use mkqd.Cli.View.{Job, JobState, zero_time}
use mkqd.RetryAfter.Errors.{message}

record Bench : Type 0 where
  names : List Bytes
  jobs : List (Job × Option JobState)
  paused : Bool

abbrev counts_of : ℕ → Counts
counts_of n = record {
  wait = pos n;
  active = pos 0;
  delayed = pos 0;
  prioritized = pos 0;
  completed = pos 0;
  failed = pos 0;
  paused = pos 0;
}

abbrev job_of : Bytes → Bytes → Job
job_of id payload = record {
  id = id;
  name = codes "mail";
  timestamp = zero_time;
  attempts_made = pos 0;
  attempts_started = pos 0;
  stalled_counter = pos 0;
  processed_by = [];
  payload = some payload;
}

abbrev bench_list : ℤ → ℤ → Bench → Answer (List (Job × Option JobState))
bench_list (pos first) (pos last) s = got (take (suc last - first) (drop first s.jobs))
bench_list _ _ s = error (message (codes "range"))

abbrev bench_change : Change → Bench → Answer (Unit {0}) × Bench
bench_change pause s = (got tt, record s { paused = true })
bench_change (drain_pending with_delayed) s = (got tt, record s { jobs = [] })
bench_change _ s = (error (message (codes "no such job")), s)

abbrev bench : Redis
bench = record {
  State = Bench;
  discover = λ s. got s.names;
  define =
      λ name s. if mem_bytes name s.names then s else record s { names = s.names ++ (name ∷ []) };
  is_paused = λ name s. got s.paused;
  counts = λ name s. got (counts_of (length s.jobs));
  list_jobs = λ name bucket first last asc s. bench_list first last s;
  get = λ name id s. error (message (codes "no such job"));
  get_logs = λ name id s. got (pos 0, none);
  add = λ name payload opts s.
      (got (codes "9"), record s { jobs = (job_of (codes "9") payload, none) ∷ s.jobs });
  change = λ name ch s. bench_change ch s;
}

abbrev two : Bench
two = record {
  names = codes "mail" ∷ codes "push" ∷ [];
  jobs = (job_of (codes "1") (codes "{}"), none) ∷ (job_of (codes "2") (codes "{}"), none) ∷ [];
  paused = false;
}

abbrev mail : List Bytes
mail = codes "mail" ∷ []

abbrev listing : List Bytes
listing = codes "mail" ∷ codes "wait" ∷ []

abbrev two_each : ListFlags
two_each = record { page = pos 0; size = pos 2; asc = true }

-- A Redis where another program has made a queue that mkq does not know of.
abbrev shared : Redis
shared = record bench { discover = λ s. got (codes "foreign" ∷ s.names) }

inspect-OnlyDefines_example :
    OnlyDefines shared two (λ present. present) (cmd_queues shared (got []) listing two)
    × (OnlyDefines shared two (or_all shared listing) (cmd_counts shared (got []) listing two)
        × (OnlyDefines shared two
              (λ present. take 1 listing)
              (cmd_list shared (got []) two_each listing two)
            × OnlyDefines shared two
                (λ present. take 1 listing)
                (cmd_job shared (got []) listing two)))
inspect-OnlyDefines_example = inspect-OnlyDefines shared two (got []) two_each listing

-- A listing of all queues writes the queue of the other program.
foreign_defined :
    (cmd_queues shared (got []) [] two).1.names ≡ codes "mail" ∷ codes "push" ∷ codes "foreign" ∷ []
unfolding cmd_queues mkqd.Cli.Inspect.open_inspector mkqd.Cli.Inspect.queue_rows
    mkqd.Cli.Inspect.queue bytes_eq
foreign_defined = refl

single_outcome_example :
    Refused bench two (run_single bench two (got []) single_pause mail)
    ⊎ ((name : Bytes) × (ch : Change) × (asked single_pause mail ≡ some (name, ch))
        × Changed bench two name ch (run_single bench two (got []) single_pause mail))
single_outcome_example = single_outcome bench two (got []) single_pause mail

abbrev create_it : EnqueueFlags
create_it = record {
  create = true;
  name = [];
  id = [];
  hold = pos 0;
  rank = pos 0;
  tries = pos 3;
  at_head = false;
}

enqueue_outcome_example :
    Refused bench two
      (cmd_enqueue bench (λ s. true) (got []) create_it (codes "new" ∷ codes "{}" ∷ []) two)
    ⊎ (((λ (s : Bytes). true) (codes "{}") ≡ true)
        × ((ltb_ℤ max_priority create_it.rank ≡ false)
            × Enqueued bench two create_it (codes "new") (codes "{}") (
                cmd_enqueue bench
                  (λ s. true)
                  (got [])
                  create_it
                  (codes "new" ∷ codes "{}" ∷ [])
                  two)))
enqueue_outcome_example =
    enqueue_outcome bench two (λ s. true) (got []) create_it (codes "new") (codes "{}")

abbrev no_numbers : Numbers
no_numbers = record { int = λ s. none; uint = λ s. none; duration = λ s. none }

abbrev confirmed : List Bytes
confirmed = codes "-yes" ∷ mail

typed_drain_outcome_example :
    Refused bench two (typed_drain bench no_numbers [] (λ path. got []) confirmed two)
    ⊎ Confirmed bench two no_numbers []
        (λ path. got [])
        confirmed
        (typed_drain bench no_numbers [] (λ path. got []) confirmed two)
typed_drain_outcome_example = typed_drain_outcome bench two no_numbers [] (λ path. got []) confirmed

abbrev behind : List Bytes
behind = codes "{}" ∷ codes "--yes" ∷ []

late_flags_refused_example :
    (typed_drain bench no_numbers [] (λ path. got []) (mail ++ (codes "--yes" ∷ [])) two
      ≡ (error (message (codes "usage")), two))
    × ((typed_list bench no_numbers [] (λ path. got []) (mail ++ behind) two
          ≡ (error (message (codes "usage")), two))
        × ((typed_enqueue bench no_numbers [] (λ path. got []) (λ t. true) (mail ++ behind) two
              ≡ (error (message (codes "usage")), two))
            × (typed_retry bench no_numbers [] (λ path. got []) (mail ++ behind) two
                ≡ (error (message (codes "usage")), two))))
unfolding mkqd.Cli.Flags.word_of
late_flags_refused_example =
    late_flags_refused bench no_numbers [] (λ path. got []) two (λ t. true) (codes "mail")
      (codes "{}") (codes "--yes") [] refl

-- A number is typed as its one digit.
abbrev one_digit : Bytes → Option ℤ
one_digit (b ∷ []) = some (pos (b - 48))
one_digit s = none

abbrev digits : Numbers
digits = record { int = one_digit; uint = one_digit; duration = one_digit }

abbrev typed : List (Bytes × Bytes) → List Bytes
typed own = words_of (with_shared (codes "f") true own) mail

typed_printed_example :
    (parsed bench digits [] (λ path. got []) {F = Plain} [] tt (typed [])
      ≡ given (record { config = codes "f"; as_json = true; own = tt }) mail)
    × ((typed_list bench digits []
            (λ path. got [])
            (typed (list_settings (codes "0") (codes "2") two_each))
          ≡ cmd_list bench (got []) two_each mail)
        × ((typed_enqueue bench digits []
                (λ path. got [])
                (λ t. true)
                (typed (enqueue_settings (codes "0") (codes "0") (codes "3") create_it))
              ≡ cmd_enqueue bench (λ t. true) (got []) create_it mail)
            × ((typed_retry bench digits []
                    (λ path. got [])
                    (typed ((codes "from", codes "failed") ∷ []))
                  ≡ cmd_retry bench (got []) (codes "failed") mail)
                × (typed_drain bench digits [] (λ path. got []) (typed (drain_settings true false))
                    ≡ cmd_drain bench (got []) true false mail))))
unfolding mkqd.Cli.Flags.word_of
typed_printed_example =
    typed_printed bench digits [] (λ path. got []) (codes "f") true mail mail (inr (refl, refl))
      (λ t. true) (codes "0") (codes "2") (codes "0") (codes "0") (codes "3") (codes "failed")
      two_each create_it true false refl refl refl refl refl

pages-prefix_example :
    pages bench two (got []) (codes "mail") (codes "wait") true 1 2
    ≡ got (map view_of (take (2 * 1) two.jobs))
unfolding bytes_eq
pages-prefix_example =
    pages-prefix bench two [] two.names (codes "mail") (codes "wait") true two.jobs refl refl refl
      (λ first last h. refl) 1 2 (omega arith) (omega arith)
