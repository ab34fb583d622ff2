-- ===== src/Cli/Flags.antt =====
-- Package flag, as cmd/mkqd uses it: FlagSet.Parse of a set of flags whose variables are the fields of a
-- value of type V. The rest of the words is read one after the other, by a state in place of the slice
-- that Parse shortens.
use mkqd.Base.{
  Bool, true, false, not, ◌||◌, Option, none, some, List, [], ◌∷◌, ◌++◌, Bytes, codes, ◌==◌,
  bytes_eq, mem_bytes, lookup, if◌then◌else◌,
}

-- A boolean flag needs no value; the others read theirs, and may refuse it.
pub data Flag (V : Type 0) : Type 0 where
  switch : (Bool → V → V) → Flag V
  valued : (Bytes → V → Option V) → Flag V

-- One word before any positional argument.
pub data Word : Type 0 where
  positional terminator malformed : Word
  named : Bytes → Option Bytes → Word

-- A name up to the first equals sign, and the value behind that.
unfoldable pub split_value : Bytes → Bytes × Option Bytes
split_value [] = ([], none)
split_value (c ∷ s) =
    let rest = split_value s in if c == b'=' then ([], some s) else (c ∷ rest.0, rest.1)

abbrev named_of : Bytes → Word
unfolding split_value
named_of [] = malformed
named_of (c ∷ s) =
    if c == b'-' || c == b'=' then malformed else named (c ∷ (split_value s).0) (split_value s).1

abbrev behind_two : Bytes → Word
behind_two [] = terminator
behind_two s = named_of s

unfoldable pub word_of : Bytes → Word
unfolding split_value
word_of (c ∷ d ∷ s) =
    if not (c == b'-') then positional else if d == b'-' then behind_two s else named_of (d ∷ s)
word_of s = positional

-- strconv.ParseBool.
unfoldable pub parse_bool : Bytes → Option Bool
parse_bool s =
    if mem_bytes s
      (codes "1" ∷ codes "t" ∷ codes "T" ∷ codes "true" ∷ codes "TRUE" ∷ codes "True" ∷ [])
    then some true
    else if mem_bytes s
        (codes "0" ∷ codes "f" ∷ codes "F" ∷ codes "false" ∷ codes "FALSE" ∷ codes "False" ∷ [])
    then some false
    else none

-- What Parse gives: the variables and the arguments that are left, flag.ErrHelp, or another error.
pub data Parsed (V : Type 0) : Type 0 where
  given : V → List Bytes → Parsed V
  help_asked bad_flags : Parsed V

-- Where Parse stands: at a flag or an argument, at the value of a flag, or at its end.
pub data Scan (V : Type 0) : Type 0 where
  reading : V → Scan V
  awaiting : (Bytes → V → Option V) → V → Scan V
  ended : Parsed V → Scan V

module _ {V : Type 0} where
  abbrev pub of_value : Option V → Scan V
  of_value none = ended bad_flags
  of_value (some v) = reading v

  abbrev pub of_bool : (Bool → V → V) → V → Option Bool → Scan V
  of_bool set v none = ended bad_flags
  of_bool set v (some b) = reading (set b v)

  unfoldable pub set_flag : Flag V → Option Bytes → V → Scan V
  unfolding parse_bool
  set_flag (switch set) none v = reading (set true v)
  set_flag (switch set) (some s) v = of_bool set v (parse_bool s)
  set_flag (valued set) none v = awaiting set v
  set_flag (valued set) (some s) v = of_value (set s v)

  abbrev pub of_lookup : Bytes → Option Bytes → V → Option (Flag V) → Scan V
  of_lookup name value v none =
      if bytes_eq name (codes "help") || bytes_eq name (codes "h")
      then ended help_asked
      else ended bad_flags
  of_lookup name value v (some f) = set_flag f value v

  abbrev pub of_word : List (Bytes × Flag V) → V → Bytes → Word → Scan V
  of_word flags v s positional = ended (given v (s ∷ []))
  of_word flags v s terminator = ended (given v [])
  of_word flags v s malformed = ended bad_flags
  of_word flags v s (named name value) = of_lookup name value v (lookup name flags)

  abbrev pub with_argument : Bytes → Parsed V → Parsed V
  with_argument s (given v args) = given v (args ++ (s ∷ []))
  with_argument s r = r

  -- One word.
  unfoldable pub scan_word : List (Bytes × Flag V) → Scan V → Bytes → Scan V
  unfolding word_of
  scan_word flags (reading v) s = of_word flags v s (word_of s)
  scan_word flags (awaiting set v) s = of_value (set s v)
  scan_word flags (ended r) s = ended (with_argument s r)

  unfoldable pub scan : List (Bytes × Flag V) → Scan V → List Bytes → Scan V
  unfolding scan_word
  scan flags st [] = st
  scan flags st (s ∷ words) = scan flags (scan_word flags st s) words

  unfoldable pub finish : Scan V → Parsed V
  finish (reading v) = given v []
  finish (awaiting set v) = bad_flags
  finish (ended r) = r

  -- (*FlagSet).Parse, from the variables' defaults.
  unfoldable pub parse_flags : List (Bytes × Flag V) → V → List Bytes → Parsed V
  unfolding scan finish
  parse_flags flags v words = finish (scan flags (reading v) words)
