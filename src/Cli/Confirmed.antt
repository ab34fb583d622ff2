-- ===== src/Cli/Confirmed.antt =====
-- `mkqd drain` from the words that are typed on.
use mkqd.Base.{
  ◌≡◌, refl, sym, ap, ◌∙◌, ◌⊎◌, ◌||◌, inl, inr, Bool, true, false, Option, none, some, List, [],
  ◌∷◌, Bytes, codes, bytes_eq, bytes_eq_iff, some_inj, lookup, Any, if-elim,
}
use mkqd.Cli.Admin.{DrainResult, cmd_drain}
use mkqd.Cli.Changes.{Refused}
use mkqd.Cli.Drain.{Drained, drain_outcome}
use mathlib.Core.Path.{subst}
use mkqd.Cli.Arguments.{IsEndOf, parse_flags-IsEndOf}
use mkqd.Cli.Redis.{Cmd, Answer, Redis}
use mkqd.Cli.Flags.{
  Flag, switch, valued, Word, positional, terminator, malformed, named, word_of, parse_bool, Parsed,
  given, help_asked, bad_flags, Scan, reading, awaiting, ended, of_value, of_bool, of_lookup,
  of_word, set_flag, scan_word, scan, finish, parse_flags,
}
use mkqd.Cli.Typed.{
  Flags, Numbers, DrainFlags, drain_flags, drain_defaults, defaults, flag_set, with_flags,
  typed_drain,
}

abbrev Vars : Type 0
Vars = Flags DrainFlags

-- `-name`, `--name`, or one of the two with a value that means true.
abbrev pub Asks : Bytes → Bytes → Type 0
Asks name w =
    (word_of w ≡ named name none)
    ⊎ ((s : Bytes) × (word_of w ≡ named name (some s)) × (parse_bool s ≡ some true))

-- A value that sets a switch.
abbrev IsTrue : Option Bytes → Type 0
IsTrue none = Unit {0}
IsTrue (some s) = parse_bool s ≡ some true

Asks-true :
    (name w : Bytes) (value : Option Bytes)
    → word_of w ≡ named name value
    → IsTrue value
    → Asks name w
Asks-true name w none e t = inl e
Asks-true name w (some s) e t = inr (s, e, t)

-- What Parse does with one of the variables, a switch.
module _ (get : Vars → Bool) where
  -- The variable is set where Parse stands, or will be by the value that it waits for.
  abbrev SetAt : Scan Vars → Type 0
  SetAt (reading v) = get v ≡ true
  SetAt (awaiting set v) = (s : Bytes) × (u : Vars) × (set s v ≡ some u) × (get u ≡ true)
  SetAt (ended (given v args)) = get v ≡ true
  SetAt (ended r) = ⊥

  abbrev SetIn : Parsed Vars → Type 0
  SetIn (given v args) = get v ≡ true
  SetIn r = ⊥

  -- What a flag that leaves the variable alone does to it.
  abbrev Leaves : Flag Vars → Type 0
  Leaves (switch set) = (b : Bool) (v : Vars) → get (set b v) ≡ get v
  Leaves (valued set) = (s : Bytes) (v u : Vars) → set s v ≡ some u → get u ≡ get v

  of_bool-Leaves :
      (set : Bool → Vars → Vars) (v : Vars) (o : Option Bool)
      → Leaves (switch set)
      → SetAt (of_bool set v o)
      → get v ≡ true
  of_bool-Leaves set v none l y = absurd y
  of_bool-Leaves set v (some b) l y = sym (l b v) ∙ y

  of_value-SetAt :
      (o : Option Vars) → SetAt (of_value o) → (u : Vars) × (o ≡ some u) × (get u ≡ true)
  of_value-SetAt none y = absurd y
  of_value-SetAt (some u) y = (u, refl, y)

  set_flag-Leaves :
      (f : Flag Vars) (o : Option Bytes) (v : Vars)
      → Leaves f
      → SetAt (set_flag f o v)
      → get v ≡ true
  unfolding set_flag
  set_flag-Leaves (switch set) none v l y = sym (l true v) ∙ y
  set_flag-Leaves (switch set) (some s) v l y = of_bool-Leaves set v (parse_bool s) l y
  set_flag-Leaves (valued set) none v l (s, u, e, y) = sym (l s v u e) ∙ y
  set_flag-Leaves (valued set) (some s) v l y =
      let (u, e, z) = of_value-SetAt (set s v) y in sym (l s v u e) ∙ z

  -- What the flag of the variable does: it stores the value.
  abbrev Stores : (Bool → Vars → Vars) → Type 0
  Stores set = (b : Bool) (v : Vars) → get (set b v) ≡ b

  set_flag-Stores :
      (set : Bool → Vars → Vars) (value : Option Bytes) (v : Vars)
      → Stores set
      → SetAt (set_flag (switch set) value v)
      → IsTrue value
  unfolding set_flag
  set_flag-Stores set none v l y = tt
  set_flag-Stores set (some s) v l y = by_bool (parse_bool s) refl y
    where
      by_bool :
          (o : Option Bool) → parse_bool s ≡ o → SetAt (of_bool set v o) → parse_bool s ≡ some true
      by_bool none e z = absurd z
      by_bool (some b) e z = e ∙ ap some (sym (l b v) ∙ z)

  abbrev Said : Bytes → Bytes → Option Bytes → Vars → Type 0
  Said switch_name name value v = (get v ≡ true) ⊎ ((name ≡ switch_name) × IsTrue value)

  not_known :
      (switch_name name : Bytes) (value : Option Bytes) (v : Vars)
      → SetAt (of_lookup name value v none)
      → Said switch_name name value v
  not_known switch_name name value v =
      if-elim (λ (st : Scan Vars). SetAt st → Said switch_name name value v)
        (bytes_eq name (codes "help") || bytes_eq name (codes "h")) _ _ (λ _ y. absurd y)
        (λ _ y. absurd y)

  module _ (switch_name : Bytes)
      (law : (name : Bytes) (value : Option Bytes) (v : Vars)
        → SetAt (of_lookup name value v (lookup name (flag_set drain_flags)))
        → Said switch_name name value v) where
    of_word-Asks :
        (v : Vars) (w : Bytes) (kind : Word)
        → word_of w ≡ kind
        → SetAt (of_word (flag_set drain_flags) v w kind)
        → (get v ≡ true) ⊎ Asks switch_name w
    of_word-Asks v w positional e y = inl y
    of_word-Asks v w terminator e y = inl y
    of_word-Asks v w malformed e y = absurd y
    of_word-Asks v w (named name value) e y = elim (law name value v y) [
      | inl h ↦ inl h
      | inr (n, t) ↦ inr (Asks-true switch_name w value (e ∙ ap (λ x. named x value) n) t)
    ]

    scan_word-Asks :
        (st : Scan Vars) (w : Bytes)
        → SetAt (scan_word (flag_set drain_flags) st w)
        → SetAt st ⊎ Asks switch_name w
    unfolding scan_word
    scan_word-Asks (reading v) w y = of_word-Asks v w (word_of w) refl y
    scan_word-Asks (awaiting set v) w y =
        let (u, e, z) = of_value-SetAt (set w v) y in inl (w, u, e, z)
    scan_word-Asks (ended (given v args)) w y = inl y
    scan_word-Asks (ended help_asked) w y = absurd y
    scan_word-Asks (ended bad_flags) w y = absurd y

    scan-Asks :
        (words : List Bytes) (st : Scan Vars)
        → SetAt (scan (flag_set drain_flags) st words)
        → SetAt st ⊎ Any (Asks switch_name) words
    unfolding scan
    scan-Asks [] st y = inl y
    scan-Asks (w ∷ words) st y = elim (scan-Asks words (scan_word (flag_set drain_flags) st w) y) [
      | inr a ↦ inr (inr a)
      | inl z ↦ elim (scan_word-Asks st w z) [ inl h ↦ inl h | inr i ↦ inr (inl i) ]
    ]

    -- Without a word that sets the switch, it is not set.
    parse_flags-Asks :
        (words : List Bytes) (v : Vars)
        → get v ≡ false
        → SetIn (parse_flags (flag_set drain_flags) v words)
        → Any (Asks switch_name) words
    unfolding parse_flags
    parse_flags-Asks words v unset y = elim (scan-Asks words (reading v) (at_end _ y)) [
      | inr a ↦ a
      | inl h ↦ absurd (cc (unset, h))
    ]
      where
        at_end : (st : Scan Vars) → SetIn (finish st) → SetAt st
        at_end (reading u) z = z
        at_end (awaiting set u) z = absurd z
        at_end (ended (given u args)) z = z
        at_end (ended help_asked) z = z
        at_end (ended bad_flags) z = z

abbrev yes_of : Vars → Bool
yes_of v = v.own.yes

abbrev delayed_of : Vars → Bool
delayed_of v = v.own.with_delayed

-- A value of -c leaves a switch alone.
path-Leaves :
    (get : Vars → Bool) (path : Bytes → Vars → Vars)
    → ((s : Bytes) (v : Vars) → get (path s v) ≡ get v)
    → Leaves get (valued (λ s v. some (path s v)))
path-Leaves get path l s v u e = ap get (sym (some_inj (path s v) u e)) ∙ l s v

of_lookup-yes :
    (name : Bytes) (value : Option Bytes) (v : Vars)
    → SetAt yes_of (of_lookup name value v (lookup name (flag_set drain_flags)))
    → Said yes_of (codes "yes") name value v
unfolding flag_set lookup
of_lookup-yes name value v =
    if-elim P (bytes_eq name (codes "c")) _ _
      (λ _ y. inl (set_flag-Leaves yes_of _ value v (path-Leaves yes_of _ (λ s u. refl)) y))
      (λ _.
        if-elim P (bytes_eq name (codes "json")) _ _
          (λ _ y. inl (set_flag-Leaves yes_of _ value v (λ b u. refl) y))
          (λ _.
            if-elim P (bytes_eq name (codes "yes")) _ _
              (λ e y. inr (
                (bytes_eq_iff name (codes "yes")).0 e,
                set_flag-Stores yes_of _ value v (λ b u. refl) y,
              ))
              (λ _.
                if-elim P (bytes_eq name (codes "delayed")) _ _
                  (λ _ y. inl (set_flag-Leaves yes_of _ value v (λ b u. refl) y))
                  (λ _. not_known yes_of (codes "yes") name value v))))
  where
    P : Option (Flag Vars) → Type 0
    P o = SetAt yes_of (of_lookup name value v o) → Said yes_of (codes "yes") name value v

of_lookup-delayed :
    (name : Bytes) (value : Option Bytes) (v : Vars)
    → SetAt delayed_of (of_lookup name value v (lookup name (flag_set drain_flags)))
    → Said delayed_of (codes "delayed") name value v
unfolding flag_set lookup
of_lookup-delayed name value v =
    if-elim P (bytes_eq name (codes "c")) _ _
      (λ _ y. inl (set_flag-Leaves delayed_of _ value v (path-Leaves delayed_of _ (λ s u. refl)) y))
      (λ _.
        if-elim P (bytes_eq name (codes "json")) _ _
          (λ _ y. inl (set_flag-Leaves delayed_of _ value v (λ b u. refl) y))
          (λ _.
            if-elim P (bytes_eq name (codes "yes")) _ _
              (λ _ y. inl (set_flag-Leaves delayed_of _ value v (λ b u. refl) y))
              (λ _.
                if-elim P (bytes_eq name (codes "delayed")) _ _
                  (λ e y. inr (
                    (bytes_eq_iff name (codes "delayed")).0 e,
                    set_flag-Stores delayed_of _ value v (λ b u. refl) y,
                  ))
                  (λ _. not_known delayed_of (codes "delayed") name value v))))
  where
    P : Option (Flag Vars) → Type 0
    P o =
        SetAt delayed_of (of_lookup name value v o) → Said delayed_of (codes "delayed") name value v

module _ (R : Redis) (s : R.State) (n : Numbers) (env : Bytes)
    (conf : Bytes → Answer (List Bytes)) where
  -- The drain of the queue that the last word names, with delayed jobs only where a word asks for it.
  abbrev pub Confirmed : List Bytes → Answer DrainResult × R.State → Type 0
  Confirmed words r =
      Any (Asks (codes "yes")) words
      × ((name : Bytes) × (with_delayed : Bool) × IsEndOf (name ∷ []) words
          × (((with_delayed ≡ false) ⊎ ((with_delayed ≡ true) × Any (Asks (codes "delayed")) words))
              × Drained R s name with_delayed r))

  run_parsed : Parsed Vars → Cmd R.State DrainResult
  run_parsed p =
      with_flags p (λ v args. cmd_drain R (conf v.config) v.own.yes v.own.with_delayed args)

  switched :
      (words : List Bytes) (b : Bool)
      → (b ≡ true → Any (Asks (codes "delayed")) words)
      → (b ≡ false) ⊎ ((b ≡ true) × Any (Asks (codes "delayed")) words)
  switched words false h = inl refl
  switched words true h = inr (refl, h refl)

  by_flags :
      (words : List Bytes) (p : Parsed Vars)
      → (SetIn yes_of p → Any (Asks (codes "yes")) words)
      → (SetIn delayed_of p → Any (Asks (codes "delayed")) words)
      → ((v : Vars) (args : List Bytes) → p ≡ given v args → IsEndOf args words)
      → Refused R s (run_parsed p s) ⊎ Confirmed words (run_parsed p s)
  unfolding with_flags run_parsed
  by_flags words (given v args) said delays last =
      elim (drain_outcome R s (conf v.config) v.own.yes v.own.with_delayed args) [
        | inl h ↦ inl h
        | inr (name, e, (y, d)) ↦ inr (
          said y,
          (
            name,
            v.own.with_delayed,
            subst (λ l. IsEndOf l words) e (last v args refl),
            (switched words v.own.with_delayed delays, d),
          ),
        )
      ]
  by_flags words help_asked said delays last = inl (_, refl)
  by_flags words bad_flags said delays last = inl (_, refl)

  -- `mkqd drain`, from the words that are typed on: it either fails with the state as it was, or
  -- one of the words is -yes or --yes, alone or with a value that means true, and the queue that
  -- the last word names is there. Then it was defined, and either the command fails before the
  -- drain, or the state is what one DrainPending of that queue leaves, with delayed jobs only if
  -- one of the words asks for it by -delayed in the same way; and it either ends in an error or
  -- reports the difference of the counts read before and after that call.
  pub typed_drain_outcome :
      (words : List Bytes)
      → Refused R s (typed_drain R n env conf words s)
        ⊎ Confirmed words (typed_drain R n env conf words s)
  unfolding parse_flags flag_set mkqd.Cli.Typed.parsed run_parsed
  typed_drain_outcome words =
      by_flags words (parse_flags (flag_set drain_flags) (defaults env drain_defaults) words)
        (parse_flags-Asks yes_of (codes "yes") of_lookup-yes words (defaults env drain_defaults)
          refl)
        (parse_flags-Asks delayed_of (codes "delayed") of_lookup-delayed words
          (defaults env drain_defaults) refl)
        (λ v args h.
          parse_flags-IsEndOf (flag_set drain_flags) args words (defaults env drain_defaults) v h)
