-- ===== src/Cli/Tables.antt =====
-- cmd/mkqd: what the commands print for people, as lines. `print` is %d, `time` formats a time.Time by
-- RFC 3339, `align` is text/tabwriter on rows of cells, and `json_indent` is json.Indent under two blanks. Texts are
-- lists of runes, as in Cli/Text.
use mkqd.Base.{
  suc, ◌+◌, ◌≡◌, refl, ap, ◌∙◌, Bool, true, false, Option, none, some, List, [], ◌∷◌, ◌++◌, Bytes,
  codes, is_empty, map, any, length, All, lookup, arith, if◌then◌else◌,
}
use mkqd.Base.Int.{ℤ}
use mkqd.Cli.Admin.{MutationResult, DrainResult}
use mkqd.Cli.Inspect.{QueueRow, CountsRow, ListOutput, JobOutput}
use mkqd.Cli.Text.{summarise, summarise_lem, yes_no, status, IsOneLine}
use mkqd.Cli.View.{Time, at_time, JobView}

abbrev no_queues_found : List Bytes
no_queues_found = codes "no queues found under this key prefix" ∷ []

-- indentJSON; `none` where the text is not JSON.
unfoldable pub indent_json : (Bytes → Option Bytes) → Bytes → Bytes
indent_json json_indent raw =
    if is_empty raw
    then codes "  (empty)"
    else elim (json_indent raw) [ none ↦ codes "  " ++ raw | some text ↦ codes "  " ++ text ]

abbrev section : Bytes → List Bytes → List Bytes
section title lines = [] ∷ title ∷ lines

abbrev indented : List Bytes → List Bytes
indented = map (λ (line : Bytes). codes "  " ++ line)

abbrev no_lines : List Bytes → Bool
no_lines [] = true
no_lines (l ∷ ls) = false

-- A row that is shown where its text is not empty.
abbrev row_unless_empty : Bytes → Bytes → List (List Bytes)
row_unless_empty title text = if is_empty text then [] else (title ∷ text ∷ []) ∷ []

module _ (print : ℤ → Bytes) (time : Time → Bytes) (align : List (List Bytes) → List Bytes)
    (json_indent : Bytes → Option Bytes) where
  abbrev queue_cells : QueueRow → List Bytes
  queue_cells r = r.name ∷ yes_no r.configured ∷ status r.paused ∷ []

  -- The end of cmdQueues.
  unfoldable pub print_queues : List QueueRow → List Bytes
  print_queues [] = no_queues_found
  print_queues (r ∷ rs) =
      align ((codes "QUEUE" ∷ codes "CONFIGURED" ∷ codes "STATUS" ∷ []) ∷ map queue_cells (r ∷ rs))

  abbrev counts_cells : CountsRow → List Bytes
  counts_cells r =
      r.name
      ∷ print r.counts.wait
      ∷ print r.counts.active
      ∷ print r.counts.delayed
      ∷ print r.counts.prioritized
      ∷ print r.counts.completed
      ∷ print r.counts.failed
      ∷ status r.paused
      ∷ []

  abbrev counts_header : List Bytes
  counts_header =
      codes "QUEUE"
      ∷ codes "WAIT"
      ∷ codes "ACTIVE"
      ∷ codes "DELAYED"
      ∷ codes "PRIO"
      ∷ codes "COMPLETED"
      ∷ codes "FAILED"
      ∷ codes "STATUS"
      ∷ []

  -- The end of cmdCounts, with its note where a queue is paused.
  unfoldable pub print_counts : List CountsRow → List Bytes
  print_counts [] = no_queues_found
  print_counts (r ∷ rs) =
      align (counts_header ∷ map counts_cells (r ∷ rs))
      ++ (if any (λ (c : CountsRow). c.paused) (r ∷ rs)
          then [] ∷ codes "WAIT on a paused queue is held back, not being worked." ∷ []
          else [])

  abbrev job_cells : JobView → List Bytes
  job_cells j = j.id ∷ j.name ∷ time j.timestamp ∷ print j.attempts_made ∷ summarise j ∷ []

  abbrev jobs_table : List Bytes → List JobView → List Bytes
  jobs_table nothing [] = nothing
  jobs_table nothing (j ∷ js) = align (
      (codes "ID" ∷ codes "NAME" ∷ codes "CREATED" ∷ codes "ATTEMPTS" ∷ codes "DETAIL" ∷ [])
      ∷ map job_cells (j ∷ js))

  -- The end of cmdList.
  unfoldable pub print_list : ListOutput → List Bytes
  print_list out =
      jobs_table
        ((codes "no jobs in "
            ++ (out.queue ++ (codes "/" ++ (out.bucket ++ (codes " at page " ++ print out.page)))))
          ∷ [])
        out.jobs

  abbrev time_row : Bytes → Option ℤ → List (List Bytes)
  time_row title none = []
  time_row title (some t) = (title ∷ time (at_time t) ∷ []) ∷ []

  abbrev attempts_text : JobView → Bytes
  attempts_text j =
      codes "made="
      ++ (print j.attempts_made
          ++ (codes " started="
              ++ (print j.attempts_started ++ (codes " stalled=" ++ print j.stalled_counter))))

  -- The table of printJob.
  unfoldable pub job_rows : JobOutput → List (List Bytes)
  job_rows out =
      (codes "queue" ∷ out.queue ∷ [])
      ∷ (codes "id" ∷ out.job.id ∷ [])
      ∷ (codes "name" ∷ out.job.name ∷ [])
      ∷ (codes "created" ∷ time out.job.timestamp ∷ [])
      ∷ (codes "attempts" ∷ attempts_text out.job ∷ [])
      ∷ (row_unless_empty (codes "processed by") out.job.processed_by
          ++ (time_row (codes "processed on") out.job.state.processed_on
              ++ (time_row (codes "finished on") out.job.state.finished_on
                  ++ row_unless_empty (codes "failed reason") out.job.state.failed_reason)))

  abbrev json_section : Bytes → Bytes → List Bytes
  json_section title raw =
      if is_empty raw then [] else section title (indent_json json_indent raw ∷ [])

  abbrev lines_section : Bytes → List Bytes → List Bytes
  lines_section title lines = if no_lines lines then [] else section title (indented lines)

  -- printJob. A text that has line feeds of its own stands as one line here.
  unfoldable pub print_job : JobOutput → List Bytes
  unfolding job_rows indent_json
  print_job out =
      align (job_rows out)
      ++ (section (codes "data") (indent_json json_indent out.job.payload ∷ [])
          ++ (json_section (codes "opts") out.job.state.opts
              ++ (json_section (codes "return value") out.job.state.return_value
                  ++ (lines_section (codes "stacktrace") out.job.state.stacktrace
                      ++ lines_section (codes "logs (" ++ (print out.log_count ++ codes ")"))
                          out.log_lines))))

  abbrev removed_text : DrainResult → Bytes → Bytes
  removed_text r name = elim (lookup name r.removed) [
    | none ↦ []
    | some n ↦ codes " " ++ (name ++ (codes "=" ++ print n))
  ]

  abbrev nothing_removed : List (Bytes × ℤ) → Bool
  nothing_removed [] = true
  nothing_removed (e ∷ es) = false

  -- The end of cmdDrain.
  unfoldable pub print_drain : DrainResult → Bytes
  print_drain r =
      if nothing_removed r.removed
      then codes "drained " ++ (r.queue ++ codes ": nothing was queued")
      else codes "drained "
        ++ (r.queue
            ++ (codes ":"
                ++ (removed_text r (codes "wait")
                    ++ (removed_text r (codes "prioritized") ++ removed_text r (codes "delayed")))))

-- emitMutation, without -json, of enqueue, of pause and resume, and of the commands on one job.
unfoldable pub print_enqueue : MutationResult → Bytes
print_enqueue r = codes "enqueued " ++ (r.queue ++ (codes " job " ++ r.id))

unfoldable pub print_pause_resume : MutationResult → Bytes
print_pause_resume r = r.action ++ (codes "d " ++ r.queue)

unfoldable pub print_on_job : MutationResult → Bytes
print_on_job r = r.action ++ (codes " " ++ (r.queue ++ (codes " job " ++ r.id)))

length-map : {A B : Type 0} (f : A → B) (l : List A) → length (map f l) ≡ length l
length-map f [] = refl
length-map f (a ∷ l) = omega (arith, length-map f l)

module _ (print : ℤ → Bytes) (time : Time → Bytes) (align : List (List Bytes) → List Bytes)
    (json_indent : Bytes → Option Bytes) where
  abbrev IsTable : List (List Bytes) → Type 0
  IsTable = All (All IsOneLine)

  jobs-IsTable :
      (jobs : List JobView)
      → ((n : ℤ) → IsOneLine (print n))
      → ((t : Time) → IsOneLine (time t))
      → All (λ (j : JobView). IsOneLine j.id × IsOneLine j.name) jobs
      → IsTable (map (job_cells print time align json_indent) jobs)
  jobs-IsTable [] p t h = tt
  jobs-IsTable (j ∷ jobs) p t h = (
    (h.0.0, (h.0.1, (t j.timestamp, (p j.attempts_made, ((summarise_lem j).1, tt))))),
    jobs-IsTable jobs p t h.1,
  )

  -- The table of `mkqd list` has a line for its head and one for each job, whatever the failure reasons and
  -- the return values of the jobs hold, given that ids and names have no line feed, nor have numbers and
  -- times, and that text/tabwriter gives a line for each row of cells without line feeds.
  print_list_lines :
      (out : ListOutput) (j : JobView) (jobs : List JobView)
      → ((rows : List (List Bytes)) → IsTable rows → length (align rows) ≡ length rows)
      → ((n : ℤ) → IsOneLine (print n))
      → ((t : Time) → IsOneLine (time t))
      → out.jobs ≡ j ∷ jobs
      → All (λ (k : JobView). IsOneLine k.id × IsOneLine k.name) (j ∷ jobs)
      → length (print_list print time align json_indent out) ≡ 1 + length out.jobs
  unfolding print_list
  print_list_lines out j jobs law p t e h = rw e (
      law _ (heads, jobs-IsTable (j ∷ jobs) p t h)
      ∙ ap suc (length-map (job_cells print time align json_indent) (j ∷ jobs))
      ∙ omega arith)
    where
      heads :
          All IsOneLine
            (codes "ID" ∷ codes "NAME" ∷ codes "CREATED" ∷ codes "ATTEMPTS" ∷ codes "DETAIL" ∷ [])
      heads = omega arith
