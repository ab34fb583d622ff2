-- ===== src/Cli/Admin.antt =====
-- cmd/mkqd/admin.go: the commands that change queues and jobs.
use mkqd.Base.{
  ◌++◌, Bool, true, false, not, ◌&&◌, List, [], ◌∷◌, Bytes, codes, mem_bytes, is_empty, bytes_eq,
  if◌then◌else◌,
}
use mkqd.Base.Int.{ℤ, pos, ltb_ℤ, ◌-ℤ◌, wrap64}
use mkqd.Cli.Inspect.{Inspector, queue, open_inspector, usage_error}
use mkqd.Cli.Redis.{
  Answer, got, error, Cmd, ◌>>=◌, ◌>>◌, pure, fail, refuse, read, Counts, AddOption, Change, Redis,
  job_name, job_id, delay, priority, attempts, lifo, pause, resume, retry_job, promote_job,
  remove_job, drain_pending,
}
use mkqd.RetryAfter.Errors.{message}

-- The flags of `mkqd enqueue`; a uint and the durations are integers.
pub record EnqueueFlags : Type 0 where
  pub create : Bool
  pub name : Bytes
  pub id : Bytes
  pub hold : ℤ
  pub rank : ℤ
  pub tries : ℤ
  pub at_head : Bool

-- ^uint32(0).
abbrev pub max_priority : ℤ
max_priority = pos 4294967295

-- mutationResult.
pub record MutationResult : Type 0 where
  pub queue : Bytes
  pub action : Bytes
  pub id : Bytes

-- drainResult, whose map of removed jobs is an association list.
pub record DrainResult : Type 0 where
  pub queue : Bytes
  pub removed : List (Bytes × ℤ)
  pub included_delayed : Bool

abbrev pub when : Bool → AddOption → List AddOption
when true o = o ∷ []
when false o = []

-- The options that cmdEnqueue passes on.
unfoldable pub add_options : EnqueueFlags → List AddOption
add_options f =
    when (not (is_empty f.name)) (job_name f.name)
    ++ (when (not (is_empty f.id)) (job_id f.id)
        ++ (when (ltb_ℤ (pos 0) f.hold) (delay f.hold)
            ++ (when (ltb_ℤ (pos 0) f.rank) (priority f.rank)
                ++ (when (ltb_ℤ (pos 0) f.tries) (attempts f.tries) ++ when f.at_head lifo))))

-- One entry of cmdDrain's difference, in int64.
unfoldable pub delta : Bytes → ℤ → ℤ → List (Bytes × ℤ)
delta name before after =
    let d = wrap64 (before -ℤ after) in if ltb_ℤ (pos 0) d then (name, d) ∷ [] else []

unfoldable pub removed_of : Counts → Counts → List (Bytes × ℤ)
unfolding delta
removed_of before after =
    delta (codes "wait") before.wait after.wait
    ++ (delta (codes "prioritized") before.prioritized after.prioritized
        ++ delta (codes "delayed") before.delayed after.delayed)

module _ (R : Redis) where
  abbrev define_new : Bytes → Cmd R.State (Unit {0})
  define_new name s = (got tt, R.define name s)

  -- The queue of cmdEnqueue: one that is there, or with -create one that Define makes.
  unfoldable pub enqueue_target : Inspector → Bool → Bytes → Cmd R.State (Unit {0})
  enqueue_target i create name s =
      if mem_bytes name i.present
      then queue R i name s
      else if not create
      then (error (message (codes "does not exist")), s)
      else define_new name s

  -- cmdEnqueue; `json_valid` is json.Valid.
  unfoldable pub cmd_enqueue :
      (Bytes → Bool) → Answer (List Bytes) → EnqueueFlags → List Bytes → Cmd R.State MutationResult
  cmd_enqueue json_valid conf f (name ∷ payload ∷ []) = do
    refuse (not (json_valid payload)) (message (codes "not valid JSON"))
    refuse (ltb_ℤ max_priority f.rank) (message (codes "-priority"))
    i ← open_inspector R conf
    enqueue_target i f.create name
    id ← R.add name payload (add_options f)
    pure (record { queue = name; action = codes "enqueue"; id = id })
  cmd_enqueue json_valid conf f _ = fail usage_error

  -- withJob and the body of pauseResumeCmd: one call of mkq on a queue that is there.
  unfoldable pub with_queue :
      Answer (List Bytes) → Bytes → Bytes → Bytes → Change → Cmd R.State MutationResult
  with_queue conf action name id ch = do
    i ← open_inspector R conf
    queue R i name
    R.change name ch
    pure (record { queue = name; action = action; id = id })

  unfoldable pub cmd_pause : Answer (List Bytes) → List Bytes → Cmd R.State MutationResult
  cmd_pause conf (name ∷ []) = with_queue conf (codes "pause") name [] pause
  cmd_pause conf _ = fail usage_error

  unfoldable pub cmd_resume : Answer (List Bytes) → List Bytes → Cmd R.State MutationResult
  cmd_resume conf (name ∷ []) = with_queue conf (codes "resume") name [] resume
  cmd_resume conf _ = fail usage_error

  -- cmdRetry, with its flag -from.
  unfoldable pub cmd_retry : Answer (List Bytes) → Bytes → List Bytes → Cmd R.State MutationResult
  cmd_retry conf from (name ∷ id ∷ []) = do
    refuse (not (bytes_eq from (codes "failed")) && not (bytes_eq from (codes "completed")))
        (message (codes "-from"))
    with_queue conf (codes "retry") name id (retry_job id from)
  cmd_retry conf from _ = fail usage_error

  unfoldable pub cmd_promote : Answer (List Bytes) → List Bytes → Cmd R.State MutationResult
  cmd_promote conf (name ∷ id ∷ []) = with_queue conf (codes "promote") name id (promote_job id)
  cmd_promote conf _ = fail usage_error

  unfoldable pub cmd_rm : Answer (List Bytes) → List Bytes → Cmd R.State MutationResult
  cmd_rm conf (name ∷ id ∷ []) = with_queue conf (codes "rm") name id (remove_job id)
  cmd_rm conf _ = fail usage_error

  -- cmdDrain, with its flags -yes and -delayed.
  unfoldable pub cmd_drain :
      Answer (List Bytes) → Bool → Bool → List Bytes → Cmd R.State DrainResult
  cmd_drain conf yes_given with_delayed (name ∷ []) = do
    refuse (not yes_given) (message (codes "-yes"))
    i ← open_inspector R conf
    queue R i name
    before ← read (R.counts name)
    R.change name (drain_pending with_delayed)
    after ← read (R.counts name)
    pure (record {
      queue = name;
      removed = removed_of before after;
      included_delayed = with_delayed;
    })
  cmd_drain conf yes_given with_delayed _ = fail usage_error
