-- ===== src/Cli/Typed.antt =====
-- The flags of the subcommands of cmd/mkqd, and the subcommands from the words that are typed on.
use mkqd.Base.{
  Bool, true, false, Option, none, some, List, [], ◌∷◌, Bytes, codes, is_empty, if◌then◌else◌,
}
use mkqd.Base.Int.{ℤ, pos}
use mkqd.Cli.Admin.{
  EnqueueFlags, MutationResult, DrainResult, cmd_enqueue, cmd_pause, cmd_resume, cmd_retry,
  cmd_promote, cmd_rm, cmd_drain,
}
use mkqd.Cli.Dispatch.{cmd_keys}
use mkqd.Cli.Flags.{Flag, switch, valued, Parsed, given, help_asked, bad_flags, parse_flags}
use mkqd.Cli.Inspect.{
  ListFlags, ListOutput, JobOutput, QueueRow, CountsRow, cmd_queues, cmd_counts, cmd_list, cmd_job,
}
use mkqd.Cli.Redis.{Answer, Cmd, Redis, fail}
use mkqd.RetryAfter.Errors.{message}

-- strconv's integers and time.ParseDuration, as the flags of these types read them.
pub record Numbers : Type 0 where
  pub int : Bytes → Option ℤ
  pub uint : Bytes → Option ℤ
  pub duration : Bytes → Option ℤ

-- The variables of a subcommand: -c, -json, and its own.
pub record Flags (F : Type 0) : Type 0 where
  pub config : Bytes
  pub as_json : Bool
  pub own : F

pub record DrainFlags : Type 0 where
  pub yes : Bool
  pub with_delayed : Bool

-- configFlag: its default, from MKQD_CONFIG.
unfoldable pub config_default : Bytes → Bytes
config_default env = if is_empty env then codes "mkqd.yaml" else env

module _ {F : Type 0} where
  abbrev pub text_flag : (Bytes → F → F) → Flag F
  text_flag set = valued (λ s v. some (set s v))

  abbrev pub or_refused : (ℤ → F → F) → F → Option ℤ → Option F
  or_refused set v none = none
  or_refused set v (some n) = some (set n v)

  abbrev pub number_flag : (Bytes → Option ℤ) → (ℤ → F → F) → Flag F
  number_flag read set = valued (λ s v. or_refused set v (read s))

  abbrev pub in_own : (F → F) → Flags F → Flags F
  in_own set v = record v { own = set v.own }

  abbrev pub own_or_none : Flags F → Option F → Option (Flags F)
  own_or_none v none = none
  own_or_none v (some f) = some (record v { own = f })

  abbrev pub lifted : Flag F → Flag (Flags F)
  lifted (switch set) = switch (λ b. in_own (set b))
  lifted (valued set) = valued (λ s v. own_or_none v (set s v.own))

  abbrev all_lifted : List (Bytes × Flag F) → List (Bytes × Flag (Flags F))
  all_lifted [] = []
  all_lifted ((name, f) ∷ rest) = (name, lifted f) ∷ all_lifted rest

  -- configFlag.
  abbrev config_flag : Bytes × Flag (Flags F)
  config_flag = (codes "c", valued (λ s v. some (record v { config = s })))

  -- jsonFlag.
  abbrev json_flag : Bytes × Flag (Flags F)
  json_flag = (codes "json", switch (λ b v. record v { as_json = b }))

  -- The flags that all of these subcommands share, and its own.
  unfoldable pub flag_set : List (Bytes × Flag F) → List (Bytes × Flag (Flags F))
  flag_set own = config_flag ∷ json_flag ∷ all_lifted own

  abbrev pub defaults : Bytes → F → Flags F
  defaults env own = record { config = config_default env; as_json = false; own = own }

-- A subcommand behind its flags.
unfoldable pub with_flags :
    {S A F : Type 0} → Parsed (Flags F) → (Flags F → List Bytes → Cmd S A) → Cmd S A
with_flags (given v args) run = run v args
with_flags help_asked run = fail (message (codes "help requested"))
with_flags bad_flags run = fail (message (codes "bad flags"))

-- No flags of its own.
abbrev pub Plain : Type 0
Plain = Unit {0}

abbrev pub list_flags : Numbers → List (Bytes × Flag ListFlags)
list_flags n =
    (codes "page", number_flag n.int (λ x f. record f { page = x }))
    ∷ (codes "size", number_flag n.int (λ x f. record f { size = x }))
    ∷ (codes "asc", switch (λ b f. record f { asc = b }))
    ∷ []

abbrev pub list_defaults : ListFlags
list_defaults = record { page = pos 0; size = pos 20; asc = true }

abbrev pub enqueue_flags : Numbers → List (Bytes × Flag EnqueueFlags)
enqueue_flags n =
    (codes "create", switch (λ b f. record f { create = b }))
    ∷ (codes "name", text_flag (λ s f. record f { name = s }))
    ∷ (codes "id", text_flag (λ s f. record f { id = s }))
    ∷ (codes "delay", number_flag n.duration (λ x f. record f { hold = x }))
    ∷ (codes "priority", number_flag n.uint (λ x f. record f { rank = x }))
    ∷ (codes "attempts", number_flag n.int (λ x f. record f { tries = x }))
    ∷ (codes "lifo", switch (λ b f. record f { at_head = b }))
    ∷ []

abbrev pub enqueue_defaults : EnqueueFlags
enqueue_defaults = record {
  create = false;
  name = [];
  id = [];
  hold = pos 0;
  rank = pos 0;
  tries = pos 0;
  at_head = false;
}

abbrev pub retry_flags : List (Bytes × Flag Bytes)
retry_flags = (codes "from", text_flag (λ s f. s)) ∷ []

abbrev pub drain_flags : List (Bytes × Flag DrainFlags)
drain_flags =
    (codes "yes", switch (λ b f. record f { yes = b }))
    ∷ (codes "delayed", switch (λ b f. record f { with_delayed = b }))
    ∷ []

abbrev pub drain_defaults : DrainFlags
drain_defaults = record { yes = false; with_delayed = false }

-- `env` is MKQD_CONFIG, and `conf` gives the queues' names of the configuration at a path.
module _ (R : Redis) (n : Numbers) (env : Bytes) (conf : Bytes → Answer (List Bytes)) where
  unfoldable pub parsed : {F : Type 0} → List (Bytes × Flag F) → F → List Bytes → Parsed (Flags F)
  unfolding flag_set
  parsed own f words = parse_flags (flag_set own) (defaults env f) words

  abbrev pub plain :
      {A : Type 0} → (Answer (List Bytes) → List Bytes → Cmd R.State A) → List Bytes → Cmd R.State A
  plain run words = with_flags (parsed {F = Plain} [] tt words) (λ v args. run (conf v.config) args)

  abbrev pub typed_queues : List Bytes → Cmd R.State (List QueueRow)
  typed_queues = plain (cmd_queues R)

  abbrev pub typed_counts : List Bytes → Cmd R.State (List CountsRow)
  typed_counts = plain (cmd_counts R)

  abbrev pub typed_job : List Bytes → Cmd R.State JobOutput
  typed_job = plain (cmd_job R)

  abbrev pub typed_pause : List Bytes → Cmd R.State MutationResult
  typed_pause = plain (cmd_pause R)

  abbrev pub typed_resume : List Bytes → Cmd R.State MutationResult
  typed_resume = plain (cmd_resume R)

  abbrev pub typed_promote : List Bytes → Cmd R.State MutationResult
  typed_promote = plain (cmd_promote R)

  abbrev pub typed_rm : List Bytes → Cmd R.State MutationResult
  typed_rm = plain (cmd_rm R)

  abbrev pub typed_list : List Bytes → Cmd R.State ListOutput
  typed_list words =
      with_flags (parsed (list_flags n) list_defaults words)
        (λ v args. cmd_list R (conf v.config) v.own args)

  abbrev pub typed_enqueue : (Bytes → Bool) → List Bytes → Cmd R.State MutationResult
  typed_enqueue json_valid words =
      with_flags (parsed (enqueue_flags n) enqueue_defaults words)
        (λ v args. cmd_enqueue R json_valid (conf v.config) v.own args)

  abbrev pub typed_retry : List Bytes → Cmd R.State MutationResult
  typed_retry words =
      with_flags (parsed retry_flags (codes "failed") words)
        (λ v args. cmd_retry R (conf v.config) v.own args)

  abbrev pub typed_drain : List Bytes → Cmd R.State DrainResult
  typed_drain words =
      with_flags (parsed drain_flags drain_defaults words)
        (λ v args. cmd_drain R (conf v.config) v.own.yes v.own.with_delayed args)

-- The flag of `mkqd run` and `mkqd check`: the path of the configuration.
unfoldable pub typed_path : Bytes → List Bytes → Parsed Bytes
typed_path env words =
    parse_flags ((codes "c", text_flag (λ s path. s)) ∷ []) (config_default env) words

abbrev keys_of : (Bytes → Bytes → Bytes) → (Bytes → Bytes) → Parsed Bytes → Option Bytes
unfolding cmd_keys
keys_of join file_name (given dir args) = cmd_keys join file_name dir args
keys_of join file_name r = none

-- cmdKeys: what it prints.
unfoldable pub typed_keys : (Bytes → Bytes → Bytes) → (Bytes → Bytes) → List Bytes → Option Bytes
unfolding keys_of
typed_keys join file_name words =
    keys_of join file_name (parse_flags ((codes "dir", text_flag (λ s dir. s)) ∷ []) [] words)

abbrev version_of : Bytes → Parsed Plain → Option Bytes
version_of version (given v args) = some version
version_of version r = none

-- cmdVersion: what it prints.
unfoldable pub typed_version : Bytes → List Bytes → Option Bytes
typed_version version words = version_of version (parse_flags [] tt words)
