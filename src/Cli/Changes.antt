-- ===== src/Cli/Changes.antt =====
-- What the commands of admin.go do to Redis: nothing, or the one change that was asked for.
use mkqd.Base.{
  refl, sym, inl, inr, ◌⊎◌, Bool, true, false, Option, none, some, List, [], ◌∷◌, not, ◌&&◌, ◌||◌,
  ◌≡◌, codes, bytes_eq, Bytes, mem_bytes, arith, if◌then◌else◌,
}
use mathlib.Core.Path.{subst}
use mkqd.Cli.Admin.{
  MutationResult, with_queue, cmd_pause, cmd_resume, cmd_retry, cmd_promote, cmd_rm,
}
use mkqd.RetryAfter.Errors.{Error, message}
use mkqd.Cli.Opening.{open-elim, queue-elim, refuse-elim}
use mkqd.Cli.Redis.{
  Answer, got, error, next, Change, Redis, pause, resume, retry_job, promote_job, remove_job,
}

-- The commands that make one change to one queue or job; retry has the bucket of -from.
pub data Single : Type 0 where
  single_pause single_resume single_promote single_rm : Single
  single_retry : Bytes → Single

-- What the arguments ask for: the queue and the change.
abbrev pub asked : Single → List Bytes → Option (Bytes × Change)
asked single_pause (name ∷ []) = some (name, pause)
asked single_resume (name ∷ []) = some (name, resume)
asked single_promote (name ∷ id ∷ []) = some (name, promote_job id)
asked single_rm (name ∷ id ∷ []) = some (name, remove_job id)
asked (single_retry from) (name ∷ id ∷ []) =
    if bytes_eq from (codes "failed") || bytes_eq from (codes "completed")
    then some (name, retry_job id from)
    else none
asked _ _ = none

-- The answer of a command whose last step gave `r`.
abbrev pub answered : {S A M : Type 0} → (A → M) → Answer A × S → Answer M × S
answered f r = next r (λ a t. (got (f a), t))

module _ (R : Redis) (s : R.State) where
  abbrev pub run_single :
      Answer (List Bytes) → Single → List Bytes → Answer MutationResult × R.State
  run_single conf single_pause args = cmd_pause R conf args s
  run_single conf single_resume args = cmd_resume R conf args s
  run_single conf single_promote args = cmd_promote R conf args s
  run_single conf single_rm args = cmd_rm R conf args s
  run_single conf (single_retry from) args = cmd_retry R conf from args s

  -- The queue is there, and the command ended as the change did behind its Define, in the state that
  -- the change left.
  abbrev pub Changed : Bytes → Change → Answer MutationResult × R.State → Type 0
  Changed name ch r =
      (present : List Bytes) × (m : MutationResult) × (R.discover s ≡ got present)
      × ((mem_bytes name present ≡ true)
          × ((m.queue ≡ name) × (r ≡ answered (λ _. m) (R.change name ch (R.define name s)))))

  -- The command failed and changed nothing.
  abbrev pub Refused : {M : Type 0} → Answer M × R.State → Type 0
  Refused r = (e : Error) × (r ≡ (error e, s))

  abbrev Outcome : Option (Bytes × Change) → Answer MutationResult × R.State → Type 0
  Outcome want r =
      Refused r ⊎ ((name : Bytes) × (ch : Change) × (want ≡ some (name, ch)) × Changed name ch r)

  with_queue_outcome :
      (conf : Answer (List Bytes)) (action name id : Bytes) (ch : Change)
      → Outcome (some (name, ch)) (with_queue R conf action name id ch s)
  unfolding with_queue
  with_queue_outcome conf action name id ch =
      open-elim R s (Outcome (some (name, ch))) (λ e. inl (e, refl)) conf _
        (λ i c.
          queue-elim R s (Outcome (some (name, ch))) (λ e. inl (e, refl)) i name _
            (λ m. inr (name, ch, refl, (i.present, _, c, (m, (refl, refl))))))

  retry_want :
      (a b : Bool) (w : Bytes × Change)
      → (not a && not b) ≡ false
      → (if a || b then some w else none) ≡ some w
  retry_want a b w h = ground arith

  -- Each of pause, resume, retry, promote and rm either fails with the state as it was, or its
  -- arguments ask for a change (retry only of a failed or a completed job), the queue is there, and
  -- the command ended as that one call of mkq did, in the state which the call left, behind the
  -- Define of that queue.
  pub single_outcome :
      (conf : Answer (List Bytes)) (op : Single) (args : List Bytes)
      → Refused (run_single conf op args)
        ⊎ ((name : Bytes) × (ch : Change) × (asked op args ≡ some (name, ch))
            × Changed name ch (run_single conf op args))
  unfolding cmd_pause cmd_resume cmd_promote cmd_rm cmd_retry
  single_outcome conf single_pause [] = inl (_, refl)
  single_outcome conf single_pause (n ∷ []) = with_queue_outcome conf _ n _ _
  single_outcome conf single_pause (_ ∷ _ ∷ _) = inl (_, refl)
  single_outcome conf single_resume [] = inl (_, refl)
  single_outcome conf single_resume (n ∷ []) = with_queue_outcome conf _ n _ _
  single_outcome conf single_resume (_ ∷ _ ∷ _) = inl (_, refl)
  single_outcome conf single_promote [] = inl (_, refl)
  single_outcome conf single_promote (_ ∷ []) = inl (_, refl)
  single_outcome conf single_promote (n ∷ id ∷ []) = with_queue_outcome conf _ n id _
  single_outcome conf single_promote (_ ∷ _ ∷ _ ∷ _) = inl (_, refl)
  single_outcome conf single_rm [] = inl (_, refl)
  single_outcome conf single_rm (_ ∷ []) = inl (_, refl)
  single_outcome conf single_rm (n ∷ id ∷ []) = with_queue_outcome conf _ n id _
  single_outcome conf single_rm (_ ∷ _ ∷ _ ∷ _) = inl (_, refl)
  single_outcome conf (single_retry from) [] = inl (_, refl)
  single_outcome conf (single_retry from) (_ ∷ []) = inl (_, refl)
  single_outcome conf (single_retry from) (n ∷ id ∷ []) =
      refuse-elim R s (Outcome (asked (single_retry from) (n ∷ id ∷ []))) (λ e. inl (e, refl))
        (not (bytes_eq from (codes "failed")) && not (bytes_eq from (codes "completed")))
        (message (codes "-from")) _
        (λ h.
          subst (λ w. Outcome w (with_queue R conf (codes "retry") n id (retry_job id from) s))
            (sym (retry_want _ _ (n, retry_job id from) h))
            (with_queue_outcome conf (codes "retry") n id (retry_job id from)))
  single_outcome conf (single_retry from) (_ ∷ _ ∷ _ ∷ _) = inl (_, refl)
