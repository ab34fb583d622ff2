-- ===== src/Cli/Printed.antt =====
-- The flags of the subcommands, printed and typed again.
use mkqd.Base.{
  ◌≡◌, refl, ap, ◌∙◌, Bool, true, false, Option, some, List, [], ◌∷◌, ◌++◌, Bytes, codes, bytes_eq,
  lookup, map,
}
use mkqd.Base.Int.{ℤ}
use mkqd.Cli.Admin.{EnqueueFlags, cmd_enqueue, cmd_retry, cmd_drain}
use mkqd.Cli.Flags.{Flag, switch, valued, parse_bool, given}
use mkqd.Cli.Inspect.{ListFlags, cmd_list}
use mkqd.Cli.Redis.{Answer, Redis}
use mkqd.Cli.Typed.{
  Flags, lifted, number_flag, own_or_none, or_refused, Numbers, Plain, parsed, flag_set, list_flags,
  list_defaults, enqueue_flags, enqueue_defaults, retry_flags, drain_flags, drain_defaults,
  defaults, typed_list, typed_enqueue, typed_retry, typed_drain,
}
use mkqd.Cli.Typing.{
  assigned, assigned_next, assigned_none, assign_one, spelled, AreBehind, with_flags-spelled,
  parse_flags-spelled,
}

abbrev pub bool_text : Bool → Bytes
bool_text true = codes "true"
bool_text b = codes "false"

-- The settings of -c and -json, before those of a subcommand's own flags.
abbrev pub with_shared : Bytes → Bool → List (Bytes × Bytes) → List (Bytes × Bytes)
with_shared path as_json own = (codes "c", path) ∷ (codes "json", bool_text as_json) ∷ own

-- The words of settings with what stands behind them.
abbrev pub words_of : List (Bytes × Bytes) → List Bytes → List Bytes
words_of settings behind = map spelled settings ++ behind

abbrev pub list_settings : Bytes → Bytes → ListFlags → List (Bytes × Bytes)
list_settings page_text size_text f =
    (codes "page", page_text) ∷ (codes "size", size_text) ∷ (codes "asc", bool_text f.asc) ∷ []

abbrev pub enqueue_settings : Bytes → Bytes → Bytes → EnqueueFlags → List (Bytes × Bytes)
enqueue_settings hold_text rank_text tries_text f =
    (codes "create", bool_text f.create)
    ∷ (codes "name", f.name)
    ∷ (codes "id", f.id)
    ∷ (codes "delay", hold_text)
    ∷ (codes "priority", rank_text)
    ∷ (codes "attempts", tries_text)
    ∷ (codes "lifo", bool_text f.at_head)
    ∷ []

abbrev pub drain_settings : Bool → Bool → List (Bytes × Bytes)
drain_settings yes_given with_delayed =
    (codes "yes", bool_text yes_given) ∷ (codes "delayed", bool_text with_delayed) ∷ []

module _ {F : Type 0} (flags : List (Bytes × Flag (Flags F))) where
  assigned_text :
      (name s : Bytes) (set : Bytes → Flags F → Option (Flags F)) (v w : Flags F)
      (rest : List (Bytes × Bytes)) (o : Option (Flags F))
      → lookup name flags ≡ some (valued set)
      → set s v ≡ some w
      → assigned flags w rest ≡ o
      → assigned flags v ((name, s) ∷ rest) ≡ o
  unfolding assign_one
  assigned_text name s set v w rest o l e h =
      assigned_next flags name s v w rest o (ap (λ f. assign_one flags f s v) l ∙ e) h

  assigned_switch :
      (name : Bytes) (b : Bool) (set : Bool → Flags F → Flags F) (v : Flags F)
      (rest : List (Bytes × Bytes)) (o : Option (Flags F))
      → lookup name flags ≡ some (switch set)
      → assigned flags (set b v) rest ≡ o
      → assigned flags v ((name, bool_text b) ∷ rest) ≡ o
  unfolding assign_one parse_bool bytes_eq
  assigned_switch name b set v rest o l h =
      assigned_next flags name (bool_text b) v (set b v) rest o
        (ap (λ f. assign_one flags f (bool_text b) v) l ∙ stored b) h
    where
      stored : (c : Bool) → assign_one flags (some (switch set)) (bool_text c) v ≡ some (set c v)
      stored true = refl
      stored false = refl

  assigned_number :
      (name s : Bytes) (read : Bytes → Option ℤ) (x : ℤ) (set : ℤ → F → F) (v : Flags F)
      (rest : List (Bytes × Bytes)) (o : Option (Flags F))
      → lookup name flags ≡ some (lifted (number_flag read set))
      → read s ≡ some x
      → assigned flags (record v { own = set x v.own }) rest ≡ o
      → assigned flags v ((name, s) ∷ rest) ≡ o
  unfolding assign_one
  assigned_number name s read x set v rest o l e h =
      assigned_next flags name s v (record v { own = set x v.own }) rest o
        (ap (λ f. assign_one flags f s v) l ∙ ap (λ y. own_or_none v (or_refused set v.own y)) e) h

module _ (R : Redis) (n : Numbers) (env : Bytes) (conf : Bytes → Answer (List Bytes)) (path : Bytes)
    (as_json : Bool) (args behind : List Bytes) (b : AreBehind args behind) where
  list-printed :
      (page_text size_text : Bytes) (f : ListFlags)
      → n.int page_text ≡ some f.page
      → n.int size_text ≡ some f.size
      → typed_list R n env conf (
          words_of
            (with_shared path as_json (
              (codes "page", page_text)
              ∷ (codes "size", size_text)
              ∷ (codes "asc", bool_text f.asc)
              ∷ []))
            behind)
        ≡ cmd_list R (conf path) f args
  unfolding parsed flag_set lookup bytes_eq
  list-printed page_text size_text f p q =
      with_flags-spelled (list_flags n) list_defaults env _
        (with_shared path as_json (
          (codes "page", page_text)
          ∷ (codes "size", size_text)
          ∷ (codes "asc", bool_text f.asc)
          ∷ []))
        args behind (record { config = path; as_json = as_json; own = f })
        (
          (refl, (refl, tt)),
          (
            (refl, (refl, (refl, (refl, (refl, tt))))),
            (
              (refl, (refl, (refl, (refl, (refl, tt))))),
              (
                (refl, (refl, (refl, (refl, (refl, tt))))),
                ((refl, (refl, (refl, (refl, tt)))), tt),
              ),
            ),
          ),
        )
        (assigned_text (flag_set (list_flags n)) (codes "c") path
          (λ s v. some (record v { config = s })) _ _ _ _ refl refl
          (assigned_switch (flag_set (list_flags n)) _ _ _ _ _ _ refl (
            assigned_number (flag_set (list_flags n)) _ _ n.int _ (λ x f. record f { page = x }) _ _
              _ refl p
              (assigned_number (flag_set (list_flags n)) _ _ n.int _ (λ x f. record f { size = x })
                _ _ _ refl q
                (assigned_switch (flag_set (list_flags n)) _ _ _ _ _ _ refl
                  (assigned_none (flag_set (list_flags n)) _))))))
        b

  enqueue-printed :
      (json_valid : Bytes → Bool) (hold_text rank_text tries_text : Bytes) (f : EnqueueFlags)
      → n.duration hold_text ≡ some f.hold
      → n.uint rank_text ≡ some f.rank
      → n.int tries_text ≡ some f.tries
      → typed_enqueue R n env conf json_valid (
          words_of
            (with_shared path as_json (
              (codes "create", bool_text f.create)
              ∷ (codes "name", f.name)
              ∷ (codes "id", f.id)
              ∷ (codes "delay", hold_text)
              ∷ (codes "priority", rank_text)
              ∷ (codes "attempts", tries_text)
              ∷ (codes "lifo", bool_text f.at_head)
              ∷ []))
            behind)
        ≡ cmd_enqueue R json_valid (conf path) f args
  unfolding parsed flag_set lookup bytes_eq
  enqueue-printed json_valid hold_text rank_text tries_text f p q r =
      with_flags-spelled (enqueue_flags n) enqueue_defaults env _
        (with_shared path as_json (
          (codes "create", bool_text f.create)
          ∷ (codes "name", f.name)
          ∷ (codes "id", f.id)
          ∷ (codes "delay", hold_text)
          ∷ (codes "priority", rank_text)
          ∷ (codes "attempts", tries_text)
          ∷ (codes "lifo", bool_text f.at_head)
          ∷ []))
        args behind (record { config = path; as_json = as_json; own = f })
        (
          (refl, (refl, tt)),
          (
            (refl, (refl, (refl, (refl, (refl, tt))))),
            (
              (refl, (refl, (refl, (refl, (refl, (refl, (refl, tt))))))),
              (
                (refl, (refl, (refl, (refl, (refl, tt))))),
                (
                  (refl, (refl, (refl, tt))),
                  (
                    (refl, (refl, (refl, (refl, (refl, (refl, tt)))))),
                    (
                      (refl, (refl, (refl, (refl, (refl, (refl, (refl, (refl, (refl, tt))))))))),
                      (
                        (refl, (refl, (refl, (refl, (refl, (refl, (refl, (refl, (refl, tt))))))))),
                        ((refl, (refl, (refl, (refl, (refl, tt))))), tt),
                      ),
                    ),
                  ),
                ),
              ),
            ),
          ),
        )
        (assigned_text (flag_set (enqueue_flags n)) (codes "c") path
          (λ s v. some (record v { config = s })) _ _ _ _ refl refl
          (assigned_switch (flag_set (enqueue_flags n)) _ _ _ _ _ _ refl (
            assigned_switch (flag_set (enqueue_flags n)) _ _ _ _ _ _ refl (
              assigned_text (flag_set (enqueue_flags n)) _ _ _ _ _ _ _ refl refl (
                assigned_text (flag_set (enqueue_flags n)) _ _ _ _ _ _ _ refl refl (
                  assigned_number (flag_set (enqueue_flags n)) _ _ n.duration _
                    (λ x f. record f { hold = x }) _ _ _ refl p
                    (assigned_number (flag_set (enqueue_flags n)) _ _ n.uint _
                      (λ x f. record f { rank = x }) _ _ _ refl q
                      (assigned_number (flag_set (enqueue_flags n)) _ _ n.int _
                        (λ x f. record f { tries = x }) _ _ _ refl r
                        (assigned_switch (flag_set (enqueue_flags n)) _ _ _ _ _ _ refl
                          (assigned_none (flag_set (enqueue_flags n)) _))))))))))
        b

  retry-printed :
      (from : Bytes)
      → typed_retry R n env conf
          (words_of (with_shared path as_json ((codes "from", from) ∷ [])) behind)
        ≡ cmd_retry R (conf path) from args
  unfolding parsed flag_set lookup bytes_eq
  retry-printed from =
      with_flags-spelled retry_flags (codes "failed") env _
        (with_shared path as_json ((codes "from", from) ∷ [])) args behind
        (record { config = path; as_json = as_json; own = from })
        (
          (refl, (refl, tt)),
          (
            (refl, (refl, (refl, (refl, (refl, tt))))),
            ((refl, (refl, (refl, (refl, (refl, tt))))), tt),
          ),
        )
        (assigned_text (flag_set retry_flags) (codes "c") path
          (λ s v. some (record v { config = s })) _ _ _ _ refl refl
          (assigned_switch (flag_set retry_flags) _ _ _ _ _ _ refl (
            assigned_text (flag_set retry_flags) _ _ _ _ _ _ _ refl refl
              (assigned_none (flag_set retry_flags) _))))
        b

  drain-printed :
      (yes_given with_delayed : Bool)
      → typed_drain R n env conf (
          words_of
            (with_shared path as_json
              ((codes "yes", bool_text yes_given) ∷ (codes "delayed", bool_text with_delayed) ∷ []))
            behind)
        ≡ cmd_drain R (conf path) yes_given with_delayed args
  unfolding parsed flag_set lookup bytes_eq
  drain-printed yes_given with_delayed =
      with_flags-spelled drain_flags drain_defaults env _
        (with_shared path as_json
          ((codes "yes", bool_text yes_given) ∷ (codes "delayed", bool_text with_delayed) ∷ []))
        args behind
        (record {
          config = path;
          as_json = as_json;
          own = record { yes = yes_given; with_delayed = with_delayed };
        })
        (
          (refl, (refl, tt)),
          (
            (refl, (refl, (refl, (refl, (refl, tt))))),
            (
              (refl, (refl, (refl, (refl, tt)))),
              ((refl, (refl, (refl, (refl, (refl, (refl, (refl, (refl, tt)))))))), tt),
            ),
          ),
        )
        (assigned_text (flag_set drain_flags) (codes "c") path
          (λ s v. some (record v { config = s })) _ _ _ _ refl refl
          (assigned_switch (flag_set drain_flags) _ _ _ _ _ _ refl (
            assigned_switch (flag_set drain_flags) _ _ _ _ _ _ refl (
              assigned_switch (flag_set drain_flags) _ _ _ _ _ _ refl
                (assigned_none (flag_set drain_flags) _)))))
        b

  shared-printed :
      parsed R n env conf {F = Plain} [] tt (words_of (with_shared path as_json []) behind)
      ≡ given (record { config = path; as_json = as_json; own = tt }) args
  unfolding parsed flag_set lookup bytes_eq
  shared-printed =
      parse_flags-spelled (flag_set {F = Plain} []) (with_shared path as_json []) args behind
        (defaults env tt) (record { config = path; as_json = as_json; own = tt })
        ((refl, (refl, tt)), ((refl, (refl, (refl, (refl, (refl, tt))))), tt))
        (assigned_text (flag_set {F = Plain} []) _ _ _ _ _ _ _ refl refl (
          assigned_switch (flag_set {F = Plain} []) _ _ _ _ _ _ refl
            (assigned_none (flag_set {F = Plain} []) _)))
        b

  -- list, enqueue, retry and drain, typed with -c, -json and their own flags as -name=value, run
  -- with the configuration at that path and with exactly these values, each in its place, on the
  -- arguments behind the flags, and -json is read as what is printed; a number or a duration is
  -- printed as any text that package flag reads back as it. Behind the flags stand two dashes and
  -- the arguments, or the arguments alone where the first of them cannot be taken for a flag.
  pub typed_printed :
      (json_valid : Bytes → Bool)
      (page_text size_text hold_text rank_text tries_text origin : Bytes) (l : ListFlags)
      (e : EnqueueFlags) (yes_given with_delayed : Bool)
      → n.int page_text ≡ some l.page
      → n.int size_text ≡ some l.size
      → n.duration hold_text ≡ some e.hold
      → n.uint rank_text ≡ some e.rank
      → n.int tries_text ≡ some e.tries
      → (parsed R n env conf {F = Plain} [] tt (words_of (with_shared path as_json []) behind)
          ≡ given (record { config = path; as_json = as_json; own = tt }) args)
        × ((typed_list R n env conf
                (words_of (with_shared path as_json (list_settings page_text size_text l)) behind)
              ≡ cmd_list R (conf path) l args)
            × ((typed_enqueue R n env conf json_valid (
                    words_of
                      (with_shared path as_json (enqueue_settings hold_text rank_text tries_text e))
                      behind)
                  ≡ cmd_enqueue R json_valid (conf path) e args)
                × ((typed_retry R n env conf
                        (words_of (with_shared path as_json ((codes "from", origin) ∷ [])) behind)
                      ≡ cmd_retry R (conf path) origin args)
                    × (typed_drain R n env conf (
                          words_of
                            (with_shared path as_json (drain_settings yes_given with_delayed))
                            behind)
                        ≡ cmd_drain R (conf path) yes_given with_delayed args))))
  typed_printed json_valid page_text size_text hold_text rank_text tries_text origin l e yes_given
        with_delayed p q h k t =
      (
        shared-printed,
        (
          list-printed page_text size_text l p q,
          (
            enqueue-printed json_valid hold_text rank_text tries_text e h k t,
            (retry-printed origin, drain-printed yes_given with_delayed),
          ),
        ),
      )
