-- ===== src/Cli/LateFlags.antt =====
-- Flags typed behind the arguments of a subcommand.
use mkqd.Base.{◌≡◌, refl, ap, inr, Bool, List, [], ◌∷◌, Bytes, codes}
use mkqd.Cli.Admin.{cmd_enqueue, cmd_retry, cmd_drain}
use mkqd.Cli.Flags.{Flag, word_of, positional}
use mkqd.Cli.Inspect.{cmd_list, usage_error}
use mkqd.Cli.Redis.{Answer, Cmd, error, Redis}
use mkqd.Cli.Typed.{
  Flags, Numbers, defaults, with_flags, parsed, list_flags, list_defaults, enqueue_flags,
  enqueue_defaults, retry_flags, drain_flags, drain_defaults, typed_list, typed_enqueue,
  typed_retry, typed_drain,
}
use mkqd.Cli.Typing.{with_flags-spelled}

module _ (R : Redis) (n : Numbers) (env : Bytes) (conf : Bytes → Answer (List Bytes))
    (s : R.State) where
  -- Words of which the first cannot be taken for a flag are all arguments.
  with_flags-arguments :
      {A F : Type 0} (own : List (Bytes × Flag F)) (f : F)
      (run : Flags F → List Bytes → Cmd R.State A) (q : Bytes) (words : List Bytes)
      → word_of q ≡ positional
      → with_flags (parsed R n env conf own f (q ∷ words)) run s
        ≡ run (defaults env f) (q ∷ words) s
  unfolding parsed mkqd.Cli.Typing.assigned
  with_flags-arguments own f run q words p =
      ap (λ c. c s)
        (with_flags-spelled own f env run [] (q ∷ words) (q ∷ words) (defaults env f) tt refl
          (inr (p, refl)))

  -- drain, list, enqueue and retry, typed with their arguments first and any more words behind
  -- them, as -yes, -page, -create or -from, end in a usage error with the state as it was, where
  -- the first argument cannot be taken for a flag.
  pub late_flags_refused :
      (json_valid : Bytes → Bool) (q second w : Bytes) (words : List Bytes)
      → word_of q ≡ positional
      → (typed_drain R n env conf (q ∷ w ∷ words) s ≡ (error usage_error, s))
        × ((typed_list R n env conf (q ∷ second ∷ w ∷ words) s ≡ (error usage_error, s))
            × ((typed_enqueue R n env conf json_valid (q ∷ second ∷ w ∷ words) s
                  ≡ (error usage_error, s))
                × (typed_retry R n env conf (q ∷ second ∷ w ∷ words) s ≡ (error usage_error, s))))
  unfolding cmd_drain cmd_list cmd_enqueue cmd_retry
  late_flags_refused json_valid q second w words p = (
    with_flags-arguments drain_flags drain_defaults _ q (w ∷ words) p,
    (
      with_flags-arguments (list_flags n) list_defaults _ q (second ∷ w ∷ words) p,
      (
        with_flags-arguments (enqueue_flags n) enqueue_defaults _ q (second ∷ w ∷ words) p,
        with_flags-arguments retry_flags (codes "failed") _ q (second ∷ w ∷ words) p,
      ),
    ),
  )
