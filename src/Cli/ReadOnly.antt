-- ===== src/Cli/ReadOnly.antt =====
-- What the commands of inspect.go write to Redis: Define of queues that DiscoverQueues gave.
use mathlib.Core.Path.{subst}
use mkqd.Base.Int.{pos, ltb_ℤ}
use mkqd.RetryAfter.Errors.{Error, message}
use mkqd.Base.{
  ℕ, suc, codes, mem_bytes, not, ◌≡◌, refl, ◌⊎◌, inl, inr, true, List, [], ◌∷◌, Bytes, All, take,
}
use mkqd.Cli.Inspect.{
  buckets, ListOutput, Inspector, ListFlags, queue_rows, counts_rows, resolve_queues, cmd_queues,
  cmd_counts, cmd_list, cmd_job, list_page, first_index, last_index,
}
use mkqd.Cli.Opening.{open-elim, queue-elim, refuse-elim}
use mkqd.Cli.Redis.{Answer, got, error, Cmd, next, Redis}

module _ (R : Redis) where
  abbrev pub define_all : List Bytes → R.State → R.State
  define_all [] t = t
  define_all (name ∷ names) t = define_all names (R.define name t)

  -- Behind a command that ended in `r`, all of the names were defined where it succeeded, and the first of
  -- them where it failed; those that were are present.
  abbrev pub Defines :
      {B : Type 0} → List Bytes → List Bytes → R.State → Answer B × R.State → Type 0
  Defines present names t (got x, u) =
      All (λ name. mem_bytes name present ≡ true) names × (u ≡ define_all names t)
  Defines present names t (error e, u) =
      (k : ℕ) × All (λ name. mem_bytes name present ≡ true) (take k names)
      × (u ≡ define_all (take k names) t)

  -- A read, and the rest of a command behind it.
  after_read :
      {A B : Type 0} (P : Answer B × R.State → Type 0) (t : R.State) (a : Answer A)
      (f : A → Cmd R.State B)
      → ((e : Error) → P (error e, t))
      → ((x : A) → P (f x t))
      → P (next (a, t) f)
  after_read P t (got x) f p h = h x
  after_read P t (error e) f p h = p e

  -- One more name, and what a row adds to the rows behind it.
  one_more :
      {A B : Type 0} (present names : List Bytes) (name : Bytes) (t : R.State)
      (r : Answer A × R.State) (f : A → B)
      → mem_bytes name present ≡ true
      → Defines present names (R.define name t) r
      → Defines present (name ∷ names) t (next r (λ a u. (got (f a), u)))
  one_more present names name t (got x, u) f m (a, e) = ((m, a), e)
  one_more present names name t (error x, u) f m (k, a, e) = (suc k, (m, a), e)

  queue_rows-Defines :
      (i : Inspector) (names : List Bytes) (t : R.State)
      → Defines i.present names t (queue_rows R i names t)
  unfolding queue_rows
  queue_rows-Defines i [] t = (tt, refl)
  queue_rows-Defines i (name ∷ names) t =
      queue-elim R t (Defines i.present (name ∷ names) t) (λ _. (0, tt, refl)) i name _
        (λ m.
          after_read (Defines i.present (name ∷ names) t) (R.define name t)
            (R.is_paused name (R.define name t)) _ (λ _. (1, (m, tt), refl))
            (λ _.
              one_more i.present names name t (queue_rows R i names (R.define name t)) _ m
                (queue_rows-Defines i names (R.define name t))))

  counts_rows-Defines :
      (i : Inspector) (names : List Bytes) (t : R.State)
      → Defines i.present names t (counts_rows R i names t)
  unfolding counts_rows
  counts_rows-Defines i [] t = (tt, refl)
  counts_rows-Defines i (name ∷ names) t =
      queue-elim R t (Defines i.present (name ∷ names) t) (λ _. (0, tt, refl)) i name _
        (λ m.
          after_read (Defines i.present (name ∷ names) t) (R.define name t)
            (R.counts name (R.define name t)) _ (λ _. (1, (m, tt), refl))
            (λ _.
              after_read (Defines i.present (name ∷ names) t) (R.define name t)
                (R.is_paused name (R.define name t)) _ (λ _. (1, (m, tt), refl))
                (λ _.
                  one_more i.present names name t (counts_rows R i names (R.define name t)) _ m
                    (counts_rows-Defines i names (R.define name t)))))

  -- What the arguments of counts name: all queues where there are none.
  abbrev pub or_all : List Bytes → List Bytes → List Bytes
  or_all [] present = present
  or_all (a ∷ args) present = a ∷ args

  resolve_queues-or_all :
      (i : Inspector) (args : List Bytes) → resolve_queues R i args ≡ or_all args i.present
  unfolding resolve_queues
  resolve_queues-or_all i [] = refl
  resolve_queues-or_all i (a ∷ args) = refl

  module _ (s : R.State) where
    -- The command failed with the state as it was, or DiscoverQueues gave the queues that are present and
    -- those asked for were defined, as far as the command came.
    abbrev pub OnlyDefines : {B : Type 0} → (List Bytes → List Bytes) → Answer B × R.State → Type 0
    OnlyDefines wanted r =
        ((e : Error) × (r ≡ (error e, s)))
        ⊎ ((present : List Bytes) × (R.discover s ≡ got present)
            × Defines present (wanted present) s r)

    cmd_queues-OnlyDefines :
        (conf : Answer (List Bytes)) (args : List Bytes)
        → OnlyDefines (λ present. present) (cmd_queues R conf args s)
    unfolding cmd_queues
    cmd_queues-OnlyDefines conf [] =
        open-elim R s (OnlyDefines (λ present. present)) (λ e. inl (e, refl)) conf _
          (λ i c. inr (i.present, c, queue_rows-Defines i i.present s))
    cmd_queues-OnlyDefines conf (a ∷ args) = inl (_, refl)

    cmd_counts-OnlyDefines :
        (conf : Answer (List Bytes)) (args : List Bytes)
        → OnlyDefines (or_all args) (cmd_counts R conf args s)
    unfolding cmd_counts
    cmd_counts-OnlyDefines conf args =
        open-elim R s (OnlyDefines (or_all args)) (λ e. inl (e, refl)) conf _
          (λ i c. inr (
            i.present,
            c,
            subst (λ names. Defines i.present names s (counts_rows R i (resolve_queues R i args) s))
                (resolve_queues-or_all i args) (counts_rows-Defines i (resolve_queues R i args) s),
          ))

    list_page-OnlyDefines :
        (conf : Answer (List Bytes)) (f : ListFlags) (name bucket : Bytes)
        → OnlyDefines (λ present. name ∷ []) (list_page R conf f name bucket s)
    unfolding list_page
    list_page-OnlyDefines conf f name bucket =
        open-elim R s (OnlyDefines (λ present. name ∷ [])) (λ e. inl (e, refl)) conf _
          (λ i c.
            queue-elim R s (OnlyDefines (λ present. name ∷ [])) (λ e. inl (e, refl)) i name _
              (λ m.
                after_read (OnlyDefines (λ present. name ∷ [])) (R.define name s)
                  (R.list_jobs name bucket (first_index f) (last_index f) f.asc (R.define name s)) _
                  (λ _. inr (i.present, c, (1, (m, tt), refl)))
                  (λ _. inr (i.present, c, ((m, tt), refl)))))

    cmd_list-OnlyDefines :
        (conf : Answer (List Bytes)) (f : ListFlags) (args : List Bytes)
        → OnlyDefines (λ present. take 1 args) (cmd_list R conf f args s)
    unfolding cmd_list
    cmd_list-OnlyDefines conf f [] = inl (_, refl)
    cmd_list-OnlyDefines conf f (name ∷ []) = inl (_, refl)
    cmd_list-OnlyDefines conf f (name ∷ bucket ∷ []) =
        refuse-elim R s Kept (λ e. inl (e, refl)) (ltb_ℤ f.page (pos 0)) (message (codes "-page")) _
          (λ _.
            refuse-elim R s Kept (λ e. inl (e, refl)) (ltb_ℤ f.size (pos 1))
              (message (codes "-size")) _
              (λ _.
                refuse-elim R s Kept (λ e. inl (e, refl)) (not (mem_bytes bucket buckets))
                  (message (codes "unknown bucket")) _
                  (λ _. list_page-OnlyDefines conf f name bucket)))
      where
        Kept : Answer ListOutput × R.State → Type 0
        Kept r = OnlyDefines (λ present. name ∷ []) r
    cmd_list-OnlyDefines conf f (name ∷ bucket ∷ _ ∷ _) = inl (_, refl)

    cmd_job-OnlyDefines :
        (conf : Answer (List Bytes)) (args : List Bytes)
        → OnlyDefines (λ present. take 1 args) (cmd_job R conf args s)
    unfolding cmd_job
    cmd_job-OnlyDefines conf [] = inl (_, refl)
    cmd_job-OnlyDefines conf (name ∷ []) = inl (_, refl)
    cmd_job-OnlyDefines conf (name ∷ id ∷ []) =
        open-elim R s (OnlyDefines (λ present. name ∷ [])) (λ e. inl (e, refl)) conf _
          (λ i c.
            queue-elim R s (OnlyDefines (λ present. name ∷ [])) (λ e. inl (e, refl)) i name _
              (λ m.
                after_read (OnlyDefines (λ present. name ∷ [])) (R.define name s)
                  (R.get name id (R.define name s)) _ (λ _. inr (i.present, c, (1, (m, tt), refl)))
                  (λ _.
                    after_read (OnlyDefines (λ present. name ∷ [])) (R.define name s)
                      (R.get_logs name id (R.define name s)) _
                      (λ _. inr (i.present, c, (1, (m, tt), refl)))
                      (λ _. inr (i.present, c, ((m, tt), refl))))))
    cmd_job-OnlyDefines conf (name ∷ id ∷ _ ∷ _) = inl (_, refl)

    -- Each of queues, counts, list and job either fails with the state as it was, or DiscoverQueues
    -- gave the queues that are present and the command defined those asked for: all of them for
    -- queues, the arguments of counts or else all, the first argument of list and of job. A command
    -- that succeeds has defined exactly these, in their order; one that fails has defined the first
    -- of them; and each that was defined is present. Of the calls of mkq that they make, only
    -- Define can write.
    pub inspect-OnlyDefines :
        (conf : Answer (List Bytes)) (f : ListFlags) (args : List Bytes)
        → OnlyDefines (λ present. present) (cmd_queues R conf args s)
          × (OnlyDefines (or_all args) (cmd_counts R conf args s)
              × (OnlyDefines (λ present. take 1 args) (cmd_list R conf f args s)
                  × OnlyDefines (λ present. take 1 args) (cmd_job R conf args s)))
    inspect-OnlyDefines conf f args = (
      cmd_queues-OnlyDefines conf args,
      (
        cmd_counts-OnlyDefines conf args,
        (cmd_list-OnlyDefines conf f args, cmd_job-OnlyDefines conf args),
      ),
    )
