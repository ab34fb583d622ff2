-- ===== src/Cli/Inspect.antt =====
-- cmd/mkqd/inspect.go: the commands that look at queues and jobs.
use mkqd.Base.{
  ◌*◌, Bool, not, Option, none, some, List, [], ◌∷◌, Bytes, codes, mem_bytes, map, if◌then◌else◌,
}
use mkqd.Base.Int.{ℤ, pos, ltb_ℤ, ◌+ℤ◌, ◌-ℤ◌, wrap64}
use mkqd.Cli.Redis.{Answer, got, error, Cmd, ◌>>=◌, ◌>>◌, pure, fail, refuse, read, Counts, Redis}
use mkqd.Cli.View.{Job, JobState, JobView, new_job_view}
use mkqd.RetryAfter.Errors.{Error, message}

-- buckets.
abbrev pub buckets : List Bytes
buckets =
    codes "wait"
    ∷ codes "active"
    ∷ codes "delayed"
    ∷ codes "prioritized"
    ∷ codes "completed"
    ∷ codes "failed"
    ∷ codes "paused"
    ∷ []

pub record Inspector : Type 0 where
  pub present : List Bytes
  pub conf_names : List Bytes

pub record QueueRow : Type 0 where
  pub name : Bytes
  pub configured : Bool
  pub paused : Bool

pub record CountsRow : Type 0 where
  pub name : Bytes
  pub paused : Bool
  pub counts : Counts

pub record ListOutput : Type 0 where
  pub queue : Bytes
  pub bucket : Bytes
  pub page : ℤ
  pub size : ℤ
  pub jobs : List JobView

pub record JobOutput : Type 0 where
  pub queue : Bytes
  pub job : JobView
  pub log_count : ℤ
  pub log_lines : List Bytes

-- The flags of `mkqd list`.
pub record ListFlags : Type 0 where
  pub page : ℤ
  pub size : ℤ
  pub asc : Bool

abbrev pub usage_error : Error
usage_error = message (codes "usage")

abbrev pub lines_of : Option (List Bytes) → List Bytes
lines_of none = []
lines_of (some l) = l

abbrev pub view_of : Job × Option JobState → JobView
view_of (j, st) = new_job_view (some j) st

-- int64(page) * int64(size), in int64; a negative page or size is refused before.
abbrev pub times : ℤ → ℤ → ℤ
times (pos m) (pos n) = wrap64 (pos (m * n))
times _ _ = pos 0

unfoldable pub first_index : ListFlags → ℤ
first_index f = times f.page f.size

unfoldable pub last_index : ListFlags → ℤ
unfolding first_index
last_index f = wrap64 (wrap64 (first_index f +ℤ f.size) -ℤ pos 1)

module _ (R : Redis) where
  -- inspector.queue, with the write of Define.
  unfoldable pub queue : Inspector → Bytes → Cmd R.State (Unit {0})
  queue i name s =
      if mem_bytes name i.present
      then (got tt, R.define name s)
      else (error (message (codes "does not exist")), s)

  -- openInspector; `conf` are the queues of the configuration, where that loads.
  unfoldable pub open_inspector : Answer (List Bytes) → Cmd R.State Inspector
  open_inspector conf = do
    names ← λ s. (conf, s)
    present ← read R.discover
    pure (record { present = present; conf_names = names })

  -- The loop of cmdQueues.
  unfoldable pub queue_rows : Inspector → List Bytes → Cmd R.State (List QueueRow)
  queue_rows i [] = pure []
  queue_rows i (name ∷ names) = do
    queue i name
    paused ← read (R.is_paused name)
    rest ← queue_rows i names
    pure (record { name = name; configured = mem_bytes name i.conf_names; paused = paused } ∷ rest)

  unfoldable pub cmd_queues : Answer (List Bytes) → List Bytes → Cmd R.State (List QueueRow)
  cmd_queues conf [] = do i ← open_inspector conf; queue_rows i i.present
  cmd_queues conf (_ ∷ _) = fail usage_error

  -- resolveQueues.
  unfoldable pub resolve_queues : Inspector → List Bytes → List Bytes
  resolve_queues i [] = i.present
  resolve_queues i (name ∷ names) = name ∷ names

  -- The loop of cmdCounts.
  unfoldable pub counts_rows : Inspector → List Bytes → Cmd R.State (List CountsRow)
  counts_rows i [] = pure []
  counts_rows i (name ∷ names) = do
    queue i name
    c ← read (R.counts name)
    paused ← read (R.is_paused name)
    rest ← counts_rows i names
    pure (record { name = name; paused = paused; counts = c } ∷ rest)

  unfoldable pub cmd_counts : Answer (List Bytes) → List Bytes → Cmd R.State (List CountsRow)
  unfolding resolve_queues
  cmd_counts conf args = do i ← open_inspector conf; counts_rows i (resolve_queues i args)

  -- cmdList, from its checked arguments on.
  unfoldable pub list_page :
      Answer (List Bytes) → ListFlags → Bytes → Bytes → Cmd R.State ListOutput
  list_page conf f name bucket = do
    i ← open_inspector conf
    queue i name
    listed ← read (R.list_jobs name bucket (first_index f) (last_index f) f.asc)
    pure (record {
      queue = name;
      bucket = bucket;
      page = f.page;
      size = f.size;
      jobs = map view_of listed;
    })

  unfoldable pub cmd_list : Answer (List Bytes) → ListFlags → List Bytes → Cmd R.State ListOutput
  cmd_list conf f (name ∷ bucket ∷ []) = do
    refuse (ltb_ℤ f.page (pos 0)) (message (codes "-page"))
    refuse (ltb_ℤ f.size (pos 1)) (message (codes "-size"))
    refuse (not (mem_bytes bucket buckets)) (message (codes "unknown bucket"))
    list_page conf f name bucket
  cmd_list conf f _ = fail usage_error

  unfoldable pub cmd_job : Answer (List Bytes) → List Bytes → Cmd R.State JobOutput
  cmd_job conf (name ∷ id ∷ []) = do
    i ← open_inspector conf
    queue i name
    found ← read (R.get name id)
    logs ← read (R.get_logs name id)
    pure (record {
      queue = name;
      job = view_of found;
      log_count = logs.0;
      log_lines = lines_of logs.1;
    })
  cmd_job conf _ = fail usage_error
