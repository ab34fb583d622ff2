-- ===== src/Cli/Arguments.antt =====
-- The arguments that (*FlagSet).Parse leaves are the last of the words.
use mathlib.Core.List.{append-nil, append_assoc}
use mkqd.Base.{
  ◌≡◌, sym, ap, ◌∙◌, ◌||◌, Bool, Option, none, some, List, [], ◌∷◌, ◌++◌, Bytes, codes, bytes_eq,
  lookup, if-elim,
}
use mkqd.Cli.Flags.{
  Flag, switch, valued, Word, positional, terminator, malformed, named, word_of, parse_bool, Parsed,
  given, help_asked, bad_flags, Scan, reading, awaiting, ended, of_value, of_bool, of_lookup,
  of_word, set_flag, scan_word, scan, finish, parse_flags,
}

abbrev pub IsEndOf : List Bytes → List Bytes → Type 0
IsEndOf args words = (before : List Bytes) × (words ≡ before ++ args)

module _ {V : Type 0} (flags : List (Bytes × Flag V)) where
  abbrev args_of : Parsed V → List Bytes
  args_of (given v args) = args
  args_of r = []

  -- Where Parse stands, `args` will be the arguments once the words have been read.
  abbrev Leads : List Bytes → List Bytes → Scan V → Type 0
  Leads args words (ended (given v found)) = args ≡ found ++ words
  Leads args words (ended r) = ⊥
  Leads args words st = IsEndOf args words

  one_before : (args words : List Bytes) (w : Bytes) → IsEndOf args words → IsEndOf args (w ∷ words)
  one_before args words w (before, e) = (w ∷ before, ap (λ l. w ∷ l) e)

  of_value-Leads :
      (args words : List Bytes) (o : Option V) → Leads args words (of_value o) → IsEndOf args words
  of_value-Leads args words none h = absurd h
  of_value-Leads args words (some v) h = h

  of_bool-Leads :
      (args words : List Bytes) (set : Bool → V → V) (v : V) (o : Option Bool)
      → Leads args words (of_bool set v o)
      → IsEndOf args words
  of_bool-Leads args words set v none h = absurd h
  of_bool-Leads args words set v (some b) h = h

  set_flag-Leads :
      (args words : List Bytes) (f : Flag V) (value : Option Bytes) (v : V)
      → Leads args words (set_flag f value v)
      → IsEndOf args words
  unfolding set_flag
  set_flag-Leads args words (switch set) none v h = h
  set_flag-Leads args words (switch set) (some s) v h =
      of_bool-Leads args words set v (parse_bool s) h
  set_flag-Leads args words (valued set) none v h = h
  set_flag-Leads args words (valued set) (some s) v h = of_value-Leads args words (set s v) h

  of_lookup-Leads :
      (args words : List Bytes) (name : Bytes) (value : Option Bytes) (v : V) (o : Option (Flag V))
      → Leads args words (of_lookup name value v o)
      → IsEndOf args words
  of_lookup-Leads args words name value v none h =
      if-elim (λ st. Leads args words st → IsEndOf args words)
        (bytes_eq name (codes "help") || bytes_eq name (codes "h")) _ _ (λ _ x. absurd x)
        (λ _ x. absurd x) h
  of_lookup-Leads args words name value v (some f) h = set_flag-Leads args words f value v h

  of_word-Leads :
      (args words : List Bytes) (v : V) (w : Bytes) (kind : Word)
      → Leads args words (of_word flags v w kind)
      → IsEndOf args (w ∷ words)
  of_word-Leads args words v w positional h = ([], sym h)
  of_word-Leads args words v w terminator h = (w ∷ [], ap (λ l. w ∷ l) (sym h))
  of_word-Leads args words v w malformed h = absurd h
  of_word-Leads args words v w (named name value) h =
      one_before args words w (of_lookup-Leads args words name value v (lookup name flags) h)

  scan_word-Leads :
      (args words : List Bytes) (st : Scan V) (w : Bytes)
      → Leads args words (scan_word flags st w)
      → Leads args (w ∷ words) st
  unfolding scan_word
  scan_word-Leads args words (reading v) w h = of_word-Leads args words v w (word_of w) h
  scan_word-Leads args words (awaiting set v) w h =
      one_before args words w (of_value-Leads args words (set w v) h)
  scan_word-Leads args words (ended (given v found)) w h = h ∙ append_assoc found (w ∷ []) words
  scan_word-Leads args words (ended help_asked) w h = absurd h
  scan_word-Leads args words (ended bad_flags) w h = absurd h

  finish-Leads :
      (args : List Bytes) (v : V) (st : Scan V) → finish st ≡ given v args → Leads args [] st
  unfolding finish
  finish-Leads args v (reading u) h = ([], ap args_of h)
  finish-Leads args v (awaiting set u) h = absurd (cc h)
  finish-Leads args v (ended (given u found)) h = sym (ap args_of h) ∙ sym (append-nil found)
  finish-Leads args v (ended help_asked) h = absurd (cc h)
  finish-Leads args v (ended bad_flags) h = absurd (cc h)

  scan-Leads :
      (args words : List Bytes) (v : V) (st : Scan V)
      → finish (scan flags st words) ≡ given v args
      → Leads args words st
  unfolding scan
  scan-Leads args [] v st h = finish-Leads args v st h
  scan-Leads args (w ∷ words) v st h =
      scan_word-Leads args words st w (scan-Leads args words v (scan_word flags st w) h)

  pub parse_flags-IsEndOf :
      (args words : List Bytes) (u v : V)
      → parse_flags flags u words ≡ given v args
      → IsEndOf args words
  unfolding parse_flags
  parse_flags-IsEndOf args words u v h = scan-Leads args words v (reading u) h
