-- ===== src/Cli/Dispatch.antt =====
-- cmd/mkqd/main.go: the table of commands, and what the process ends with.
use mkqd.Base.{
  ℕ, ◌≡◌, refl, Bool, true, false, ◌||◌, Option, none, some, List, [], ◌∷◌, Bytes, codes, bytes_eq,
  bytes_eq_iff, is_empty, lookup, All, arith, if◌then◌else◌,
}
use mkqd.Base.Int.{ℤ, pos, eqb_ℤ}
use mkqd.Config.{Config}
use mkqd.RetryAfter.Errors.{Error, message}

pub data Command : Type 0 where
  run_command check queues counts list job enqueue pause resume retry promote rm drain keys
        version :
      Command

-- The names and the functions of `commands()`, in its order.
abbrev pub commands : List (Bytes × Command)
commands =
    (codes "run", run_command)
    ∷ (codes "check", check)
    ∷ (codes "queues", queues)
    ∷ (codes "counts", counts)
    ∷ (codes "list", list)
    ∷ (codes "job", job)
    ∷ (codes "enqueue", enqueue)
    ∷ (codes "pause", pause)
    ∷ (codes "resume", resume)
    ∷ (codes "retry", retry)
    ∷ (codes "promote", promote)
    ∷ (codes "rm", rm)
    ∷ (codes "drain", drain)
    ∷ (codes "keys", keys)
    ∷ (codes "version", version)
    ∷ []

-- The error that a subcommand or dispatch returns: nil, one that errors.Is finds flag.ErrHelp in, or
-- another.
pub data Status : Type 0 where
  ok : Status
  help : Status
  failed : Error → Status

abbrev pub is_help_word : Bytes → Bool
is_help_word w =
    bytes_eq w (codes "-h") || (bytes_eq w (codes "--help") || bytes_eq w (codes "help"))

-- What dispatch did: whether it printed the usage, and the error.
pub record Dispatched : Type 0 where
  pub usage_shown : Bool
  pub status : Status

module _ (run : Command → List Bytes → Status) where
  -- The loop over the commands.
  unfoldable pub find_command : List (Bytes × Command) → Bytes → List Bytes → Dispatched
  find_command [] word args = record {
    usage_shown = true;
    status = failed (message (codes "unknown command"));
  }
  find_command ((name, c) ∷ rest) word args =
      if bytes_eq name word
      then record { usage_shown = false; status = run c args }
      else find_command rest word args

  unfoldable pub dispatch : List Bytes → Dispatched
  unfolding find_command
  dispatch [] = record { usage_shown = true; status = help }
  dispatch (word ∷ args) =
      if is_help_word word
      then record { usage_shown = true; status = ok }
      else find_command commands word args

-- The exit code of main, and whether it prints the error.
unfoldable pub exit_code : Status → ℕ
exit_code ok = 0
exit_code help = 2
exit_code (failed e) = 1

-- poolDescription; `print` is fmt.Sprint.
unfoldable pub pool_description : (ℤ → Bytes) → Config → Bytes
pool_description print c =
    if eqb_ℤ c.redis.pool_size (pos 0) then codes "auto" else print c.redis.pool_size

-- keyPrefixDescription.
unfoldable pub key_prefix_description : Config → Bytes
key_prefix_description c =
    if is_empty c.key_prefix then codes "bull (BullMQ default)" else c.key_prefix

-- cmdKeys, on its flag and arguments: what it prints. `file_name` is KeyFileName.
unfoldable pub cmd_keys :
    (Bytes → Bytes → Bytes) → (Bytes → Bytes) → Bytes → List Bytes → Option Bytes
cmd_keys join file_name dir (key_id ∷ []) =
    some (if is_empty dir then file_name key_id else join dir (file_name key_id))
cmd_keys join file_name dir _ = none

module _ (run : Command → List Bytes → Status) where
  -- What dispatch does with what its table holds under the word.
  abbrev pub looked_up : Option Command → List Bytes → Dispatched
  looked_up (some c) args = record { usage_shown = false; status = run c args }
  looked_up none args = record {
    usage_shown = true;
    status = failed (message (codes "unknown command"));
  }

  find_command-lookup :
      (word : Bytes) (args : List Bytes) (table : List (Bytes × Command))
      → find_command run table word args ≡ looked_up (lookup word table) args
  unfolding find_command lookup
  find_command-lookup word args [] = refl
  find_command-lookup word args ((name, c) ∷ rest) =
      ground
        (arith, find_command-lookup word args rest, bytes_eq_iff name word, bytes_eq_iff word name)

  -- A command of the table runs, alone, on the arguments behind its name.
  known :
      (args : List Bytes)
      → All
          (λ (r : Bytes × Command).
            dispatch run (r.0 ∷ args) ≡ record { usage_shown = false; status = run r.1 args })
          commands
  unfolding dispatch bytes_eq
  known args = ground arith

  -- dispatch runs what the table of commands holds under the first word, and each command is found
  -- under its name.
  pub dispatch_lem :
      (word : Bytes) (args : List Bytes)
      → (dispatch run (word ∷ args) ≡ (
          if is_help_word word
          then record { usage_shown = true; status = ok }
          else looked_up (lookup word commands) args))
        × All
            (λ (r : Bytes × Command).
              dispatch run (r.0 ∷ args) ≡ record { usage_shown = false; status = run r.1 args })
            commands
  unfolding dispatch
  dispatch_lem word args = (rw (find_command-lookup word args commands), known args)
