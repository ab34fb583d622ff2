-- ===== src/Cli/Typing.antt =====
-- What (*FlagSet).Parse reads of words that spell values of flags.
use mathlib.Core.List.{append-nil, append_assoc}
use mkqd.Base.{
  some_inj, ◌⊎◌, ◌≡◌, refl, sym, ap, ◌∙◌, Bool, true, false, Option, none, some, List, [], ◌∷◌,
  ◌++◌, Bytes, codes, ◌==◌, lookup, map, All, arith, inl, inr,
}
use mkqd.Cli.Redis.{Cmd}
use mkqd.Cli.Typed.{Flags, flag_set, defaults, with_flags}
use mkqd.Cli.Flags.{
  Flag, switch, valued, positional, named, split_value, word_of, parse_bool, given, reading, ended,
  of_value, of_bool, of_lookup, of_word, set_flag, scan_word, scan, finish, parse_flags,
}

-- `-name=value`.
abbrev pub spelled : Bytes × Bytes → Bytes
spelled (name, value) = b'-' ∷ (name ++ (b'=' ∷ value))

abbrev starts_dash : Bytes → Bool
starts_dash [] = true
starts_dash (c ∷ s) = c == b'-'

-- A name that Parse reads back: not empty, without an equals sign, and with another first byte than '-'.
abbrev pub IsFlagName : Bytes → Type 0
IsFlagName name = (starts_dash name ≡ false) × All (λ c. (c == b'=') ≡ false) name

split_value-spelled :
    (name value : Bytes)
    → All (λ c. (c == b'=') ≡ false) name
    → split_value (name ++ (b'=' ∷ value)) ≡ (name, some value)
unfolding split_value
split_value-spelled [] value h = refl
split_value-spelled (c ∷ name) value (h, hs) = rw (h, split_value-spelled name value hs) refl

word_of-spelled :
    (name value : Bytes)
    → IsFlagName name
    → word_of (spelled (name, value)) ≡ named name (some value)
unfolding word_of
word_of-spelled [] value (d, h) = absurd (ground (arith, d))
word_of-spelled (c ∷ name) value (d, (h, hs)) = rw (d, h, split_value-spelled name value hs) refl

-- The words that may stand behind the flags: two dashes and the arguments, or the arguments alone
-- where the first of them cannot be taken for a flag.
abbrev pub AreBehind : List Bytes → List Bytes → Type 0
AreBehind args [] = args ≡ []
AreBehind args (s ∷ words) =
    ((s ≡ codes "--") × (args ≡ words)) ⊎ ((word_of s ≡ positional) × (args ≡ s ∷ words))

abbrev pub and_then : {A B : Type 0} → Option A → (A → Option B) → Option B
and_then none f = none
and_then (some x) f = f x

module _ {V : Type 0} (flags : List (Bytes × Flag V)) where
  -- What a flag makes of a value.
  unfoldable pub assign_one : Option (Flag V) → Bytes → V → Option V
  unfolding parse_bool
  assign_one none s v = none
  assign_one (some (switch set)) s v = elim (parse_bool s) [ none ↦ none | some b ↦ some (set b v) ]
  assign_one (some (valued set)) s v = set s v

  -- The variables after the values of the settings, in their order; `none` where a flag is not known
  -- or refuses its value.
  unfoldable pub assigned : V → List (Bytes × Bytes) → Option V
  unfolding assign_one
  assigned v [] = some v
  assigned v ((name, s) ∷ rest) =
      and_then (assign_one (lookup name flags) s v) (λ w. assigned w rest)

  pub assigned_none : (v : V) → assigned v [] ≡ some v
  unfolding assigned
  assigned_none v = refl

  -- The first setting, and the others behind it.
  pub assigned_next :
      (name s : Bytes) (v w : V) (rest : List (Bytes × Bytes)) (o : Option V)
      → assign_one (lookup name flags) s v ≡ some w
      → assigned w rest ≡ o
      → assigned v ((name, s) ∷ rest) ≡ o
  unfolding assigned
  assigned_next name s v w rest o e h = ap (λ x. and_then x (λ u. assigned u rest)) e ∙ h

  assign_one-scan :
      (name s : Bytes) (v w : V) (f : Option (Flag V))
      → assign_one f s v ≡ some w
      → of_lookup name (some s) v f ≡ reading w
  unfolding set_flag parse_bool assign_one
  assign_one-scan name s v w none h = absurd (cc h)
  assign_one-scan name s v w (some (switch set)) h = by_bool (parse_bool s) h
    where
      by_bool :
          (o : Option Bool)
          → (elim o [ none ↦ none | some b ↦ some (set b v) ]) ≡ some w
          → of_bool set v o ≡ reading w
      by_bool none h = absurd (cc h)
      by_bool (some b) h = cc h
  assign_one-scan name s v w (some (valued set)) h = ap of_value h

  scan_word-spelled :
      (name s : Bytes) (v w : V)
      → IsFlagName name
      → assign_one (lookup name flags) s v ≡ some w
      → scan_word flags (reading v) (spelled (name, s)) ≡ reading w
  unfolding scan_word
  scan_word-spelled name s v w n h =
      ap (of_word flags v (spelled (name, s))) (word_of-spelled name s n)
      ∙ assign_one-scan name s v w (lookup name flags) h

  scan-spelled :
      (settings : List (Bytes × Bytes)) (words : List Bytes) (v w : V)
      → All (λ (x : Bytes × Bytes). IsFlagName x.0) settings
      → assigned v settings ≡ some w
      → scan flags (reading v) (map spelled settings ++ words) ≡ scan flags (reading w) words
  unfolding scan assigned assign_one
  scan-spelled [] words v w n h = ap (λ u. scan flags (reading u) words) (some_inj v w h)
  scan-spelled ((name, s) ∷ rest) words v w (n, ns) h =
      by_value (λ u. scan-spelled rest words u w ns) (assign_one (lookup name flags) s v) refl h
    where
      by_value :
          ((u : V)
            → assigned u rest ≡ some w
            → scan flags (reading u) (map spelled rest ++ words) ≡ scan flags (reading w) words)
          → (o : Option V) → assign_one (lookup name flags) s v ≡ o
          → and_then o (λ u. assigned u rest) ≡ some w
          → scan flags (scan_word flags (reading v) (spelled (name, s))) (map spelled rest ++ words)
            ≡ scan flags (reading w) words
      by_value later none e k = absurd (cc k)
      by_value later (some u) e k =
          ap (λ st. scan flags st (map spelled rest ++ words)) (scan_word-spelled name s v u n e)
          ∙ later u k

  scan-ended :
      (w : V) (args words : List Bytes)
      → finish (scan flags (ended (given w args)) words) ≡ given w (args ++ words)
  unfolding scan scan_word finish
  scan-ended w args [] = ap (given w) (sym (append-nil args))
  scan-ended w args (s ∷ words) =
      scan-ended w (args ++ (s ∷ [])) words ∙ ap (given w) (append_assoc args (s ∷ []) words)

  scan_word-dashes :
      (w : V) (words : List Bytes)
      → finish (scan flags (scan_word flags (reading w) (codes "--")) words)
        ≡ finish (scan flags (ended (given w [])) words)
  unfolding scan_word word_of
  scan_word-dashes w words = refl

  scan-behind :
      (w : V) (args words : List Bytes)
      → AreBehind args words
      → finish (scan flags (reading w) words) ≡ given w args
  unfolding scan scan_word finish
  scan-behind w args [] h = ap (given w) (sym h)
  scan-behind w args (s ∷ words) (inl (e, h)) =
      ap (λ x. finish (scan flags (scan_word flags (reading w) x) words)) e
      ∙ (scan_word-dashes w words ∙ (scan-ended w [] words ∙ ap (given w) (sym h)))
  scan-behind w args (s ∷ words) (inr (e, h)) =
      ap (λ x. finish (scan flags (of_word flags w s x) words)) e
      ∙ (scan-ended w (s ∷ []) words ∙ ap (given w) (sym h))

  -- Parse reads settings back as their values, and what stands behind them as the arguments.
  pub parse_flags-spelled :
      (settings : List (Bytes × Bytes)) (args words : List Bytes) (v w : V)
      → All (λ (x : Bytes × Bytes). IsFlagName x.0) settings
      → assigned v settings ≡ some w
      → AreBehind args words
      → parse_flags flags v (map spelled settings ++ words) ≡ given w args
  unfolding parse_flags
  parse_flags-spelled settings args words v w n h b =
      ap finish (scan-spelled settings words v w n h) ∙ scan-behind w args words b

-- A subcommand that is typed with settings as -name=value runs with their values over the defaults,
-- the last one of a name counting, on the arguments behind them: behind two dashes any words,
-- without them words of which the first cannot be taken for a flag. What looks like a flag behind
-- the first argument is an argument. Each name is that of a flag which takes the value, and has no
-- equals sign.
pub with_flags-spelled :
    {S A F : Type 0} (own : List (Bytes × Flag F)) (f : F) (env : Bytes)
    (run : Flags F → List Bytes → Cmd S A) (settings : List (Bytes × Bytes))
    (args words : List Bytes) (v : Flags F)
    → All (λ (x : Bytes × Bytes). IsFlagName x.0) settings
    → assigned (flag_set own) (defaults env f) settings ≡ some v
    → AreBehind args words
    → with_flags (parse_flags (flag_set own) (defaults env f) (map spelled settings ++ words)) run
      ≡ run v args
unfolding with_flags
with_flags-spelled own f env run settings args words v n h b =
    ap (λ p. with_flags p run)
      (parse_flags-spelled (flag_set own) settings args words (defaults env f) v n h b)
