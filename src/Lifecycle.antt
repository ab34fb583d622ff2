-- ===== src/Lifecycle.antt =====
-- runtime.go: Start and Shutdown, with the workers they launch and retire. Workers of mkq, the health
-- listener and the Redis clients are parameters. drain_all takes the drains one after the other;
-- Lifecycle/Goroutines has them side by side, and Lifecycle/Interleaving compares the two.
pub mod Accounting
pub mod Goroutines
pub mod Interleaving
pub mod Running
pub mod Serving
use mkqd.Base.{
  Bool, true, false, not, ◌&&◌, Option, none, some, List, [], ◌∷◌, ◌++◌, Bytes, codes, is_empty,
  map, is_some, if◌then◌else◌,
}
use mkqd.RetryAfter.Errors.{Error, nil, message, wrap, join}

-- How a worker ended: by Drain alone, by Drain and then Stop, or by Stop alone.
pub data Retirement : Type 0 where
  drained drained_and_stopped stopped_only : Retirement

-- The part of Runtime that Start and Shutdown change. `launched` and `retired` record the calls to mkq.
pub record Runtime : Type 0 where
  pub started : Bool
  pub stopped : Bool
  pub shut_down : Bool
  pub stop_err : List Error
  pub workers : List Bytes
  pub listening : Bool
  pub launched : List Bytes
  pub retired : List (Bytes × Retirement)

-- The calls out of Start and Shutdown: `none` is the nil error.
pub record Calls : Type 0 where
  pub build_queues : Option Error
  pub queues : List Bytes
  pub start_worker : Bytes → Option Error
  pub server_enabled : Bool
  pub listen : Option Error
  pub close_server : Option Error
  pub drain : Bytes → Option Error
  pub stop : Bytes → Option Error
  pub close_client : Option Error
  pub close_redis : Option Error

abbrev pub new_runtime : Runtime
new_runtime = record {
  started = false;
  stopped = false;
  shut_down = false;
  stop_err = [];
  workers = [];
  listening = false;
  launched = [];
  retired = [];
}

abbrev pub errors : Option Error → List Error
errors none = []
errors (some e) = e ∷ []

-- drainWorker: how the worker ended, and the error.
unfoldable pub drain_worker : Calls → Bytes → Retirement × Option Error
drain_worker c name = elim (c.drain name) [
  | none ↦ (drained, none)
  | some e ↦ (drained_and_stopped, c.stop name)
]

-- The waits of stopWorkers: what each worker's end was, and the errors in the workers' order.
unfoldable pub drain_all : Calls → List Bytes → List (Bytes × Retirement) × List Error
drain_all c [] = ([], [])
drain_all c (name ∷ rest) =
    let ended = drain_worker c name in
    let others = drain_all c rest in ((name, ended.0) ∷ others.0, errors ended.1 ++ others.1)

-- stopWorkers, with takeWorkers.
unfoldable pub stop_workers : Calls → Runtime → Runtime × List Error
stop_workers c rt =
    let ended = drain_all c rt.workers in
    (record rt { workers = []; retired = rt.retired ++ ended.0 }, ended.1)

-- abortWorkers.
unfoldable pub abort_workers : Runtime → Runtime
abort_workers rt = record rt {
  workers = [];
  retired = rt.retired ++ map (λ name. (name, stopped_only)) rt.workers;
}

-- What Start does with the answer of one worker's start.
unfoldable pub after_worker :
    Option Error → Runtime → Runtime × Option Error → Runtime × Option Error
after_worker (some e) rt next = (abort_workers rt, some (wrap (codes "start worker") e))
after_worker none rt next = next

abbrev pub with_worker : Bytes → Runtime → Runtime
with_worker name rt = record rt {
  workers = rt.workers ++ (name ∷ []);
  launched = rt.launched ++ (name ∷ []);
}

-- The loop of Start over the registered queues.
unfoldable pub launch : Calls → List Bytes → Runtime → Runtime × Option Error
unfolding after_worker
launch c [] rt = (rt, none)
launch c (name ∷ rest) rt =
    after_worker (c.start_worker name) rt (launch c rest (with_worker name rt))

-- What Start does with the answer of the health listener.
unfoldable pub after_listen : Option Error → Runtime → Runtime × Option Error
after_listen (some e) rt = (abort_workers rt, some e)
after_listen none rt = (record rt { listening = true }, none)

-- The end of Start: the health listener.
unfoldable pub serve : Calls → Runtime × Option Error → Runtime × Option Error
unfolding after_listen
serve c (rt, some e) = (rt, some e)
serve c (rt, none) = if c.server_enabled then after_listen c.listen rt else (rt, none)

-- Start behind its first guard, from the answer of buildConfiguredQueues and the queues' names on.
unfoldable pub begin : Calls → Option Error → List Bytes → Runtime → Runtime × Option Error
unfolding serve launch
begin c (some e) names rt = (rt, some e)
begin c none [] rt = (rt, some (message (codes "no queues registered")))
begin c none (name ∷ names) rt = serve c (launch c (name ∷ names) rt)

-- Start.
unfoldable pub start : Calls → Runtime → Runtime × Option Error
unfolding begin
start c rt =
    if rt.started
    then (rt, some (message (codes "Start called twice")))
    else begin c c.build_queues c.queues (record rt { started = true })

-- The body that Shutdown runs once.
unfoldable pub shut : Calls → Runtime → Runtime × List Error
shut c rt =
    let server = if rt.listening then errors c.close_server else [] in
    let done = stop_workers c rt in
    let errs = server ++ (done.1 ++ (errors c.close_client ++ errors c.close_redis)) in
    (record done.0 { stopped = true; shut_down = true; stop_err = errs }, errs)

-- Shutdown; the errors are those that it joins.
unfoldable pub shutdown : Calls → Runtime → Runtime × List Error
unfolding shut
shutdown c rt = if rt.shut_down then (rt, rt.stop_err) else shut c rt

-- Run behind Start: where that went well, the signal comes and Shutdown follows.
unfoldable pub after_start : Calls → Runtime × Option Error → Runtime × List Error
unfolding shutdown
after_start c (rt, some e) = (rt, e ∷ [])
after_start c (rt, none) = shutdown c rt

-- Run; the errors are those that it returns.
unfoldable pub run : Calls → Runtime → Runtime × List Error
unfolding after_start
run c rt = after_start c (start c rt)

-- isServing.
unfoldable pub is_serving : Runtime → Bool
is_serving rt = rt.started && not rt.stopped

-- Calls of Start and Shutdown in any order, each with what the outside then answers.
pub data Op : Type 0 where
  do_start do_shutdown : Calls → Op

unfoldable pub step : Op → Runtime → Runtime
step (do_start c) rt = (start c rt).0
step (do_shutdown c) rt = (shutdown c rt).0

unfoldable pub run_ops : List Op → Runtime → Runtime
run_ops [] rt = rt
run_ops (op ∷ ops) rt = run_ops ops (step op rt)
