-- ===== src/Lifecycle/Accounting.antt =====
-- No worker is lost: each worker that Start launches is running or has ended exactly once.
use mathlib.Core.List.{append_assoc, append-nil}
use mkqd.Base.{
  ◌≡◌, refl, ap, ◌∙◌, true, false, Option, none, some, List, [], ◌∷◌, ◌++◌, Bytes, map, if-elim,
  if◌then◌else◌,
}
use mkqd.RetryAfter.Errors.{Error}
use mkqd.Lifecycle.{
  Retirement, Runtime, Calls, Op, new_runtime, after_worker, with_worker, after_listen, begin,
  drain_all, stop_workers, abort_workers, launch, serve, start, shut, shutdown, step, run_ops,
  do_start, do_shutdown, stopped_only,
}

abbrev pub ended : List (Bytes × Retirement) → List Bytes
ended = map (λ r. r.0)

-- What was launched is what ended, then what runs, in the order of launching.
unfoldable pub IsAccounted : Runtime → Type 0
IsAccounted rt = rt.launched ≡ ended rt.retired ++ rt.workers

ended-append : (xs ys : List (Bytes × Retirement)) → ended (xs ++ ys) ≡ ended xs ++ ended ys
ended-append [] ys = refl
ended-append (x ∷ xs) ys = ap (λ l. x.0 ∷ l) (ended-append xs ys)

ended-stopped : (names : List Bytes) → ended (map (λ name. (name, stopped_only)) names) ≡ names
ended-stopped [] = refl
ended-stopped (n ∷ names) = ap (λ l. n ∷ l) (ended-stopped names)

ended-drain_all : (c : Calls) (names : List Bytes) → ended (drain_all c names).0 ≡ names
unfolding drain_all
ended-drain_all c [] = refl
ended-drain_all c (n ∷ names) = ap (λ l. n ∷ l) (ended-drain_all c names)

abort_workers-IsAccounted : (rt : Runtime) → IsAccounted rt → IsAccounted (abort_workers rt)
unfolding abort_workers IsAccounted
abort_workers-IsAccounted rt h = simp (ended-append, ended-stopped, append-nil) h

stop_workers-IsAccounted :
    (c : Calls) (rt : Runtime) → IsAccounted rt → IsAccounted (stop_workers c rt).0
unfolding stop_workers IsAccounted
stop_workers-IsAccounted c rt h = simp (ended-append, ended-drain_all, append-nil) h

with_worker-IsAccounted :
    (n : Bytes) (rt : Runtime) → IsAccounted rt → IsAccounted (with_worker n rt)
unfolding IsAccounted
with_worker-IsAccounted n rt h =
    ap (λ l. l ++ (n ∷ [])) h ∙ append_assoc (ended rt.retired) rt.workers (n ∷ [])

after_worker-IsAccounted :
    (o : Option Error) (rt : Runtime) (next : Runtime × Option Error)
    → IsAccounted rt
    → IsAccounted next.0
    → IsAccounted (after_worker o rt next).0
unfolding after_worker
after_worker-IsAccounted (some e) rt next h k = abort_workers-IsAccounted rt h
after_worker-IsAccounted none rt next h k = k

launch-IsAccounted :
    (c : Calls) (names : List Bytes) (rt : Runtime)
    → IsAccounted rt
    → IsAccounted (launch c names rt).0
unfolding launch
launch-IsAccounted c [] rt h = h
launch-IsAccounted c (n ∷ names) rt h =
    after_worker-IsAccounted (c.start_worker n) rt (launch c names (with_worker n rt)) h
      (launch-IsAccounted c names (with_worker n rt) (with_worker-IsAccounted n rt h))

after_listen-IsAccounted :
    (o : Option Error) (rt : Runtime) → IsAccounted rt → IsAccounted (after_listen o rt).0
unfolding after_listen IsAccounted
after_listen-IsAccounted (some e) rt h = abort_workers-IsAccounted rt h
after_listen-IsAccounted none rt h = h

serve-IsAccounted :
    (c : Calls) (r : Runtime × Option Error) → IsAccounted r.0 → IsAccounted (serve c r).0
unfolding serve
serve-IsAccounted c (rt, some e) h = h
serve-IsAccounted c (rt, none) h =
    if-elim (λ (r : Runtime × Option Error). IsAccounted r.0) c.server_enabled
      (after_listen c.listen rt) (rt, none) (λ _. after_listen-IsAccounted c.listen rt h) (λ _. h)

begin-IsAccounted :
    (c : Calls) (o : Option Error) (names : List Bytes) (rt : Runtime)
    → IsAccounted rt
    → IsAccounted (begin c o names rt).0
unfolding begin
begin-IsAccounted c (some e) names rt h = h
begin-IsAccounted c none [] rt h = h
begin-IsAccounted c none (n ∷ names) rt h =
    serve-IsAccounted c (launch c (n ∷ names) rt) (launch-IsAccounted c (n ∷ names) rt h)

pub start-IsAccounted : (c : Calls) (rt : Runtime) → IsAccounted rt → IsAccounted (start c rt).0
unfolding start IsAccounted
start-IsAccounted c rt h =
    if-elim (λ (r : Runtime × Option Error). IsAccounted r.0) rt.started _ _ (λ _. h)
      (λ _. begin-IsAccounted c c.build_queues c.queues (record rt { started = true }) h)

shutdown-IsAccounted : (c : Calls) (rt : Runtime) → IsAccounted rt → IsAccounted (shutdown c rt).0
unfolding shutdown shut IsAccounted
shutdown-IsAccounted c rt h =
    if-elim (λ (r : Runtime × List Error). IsAccounted r.0) rt.shut_down _ _ (λ _. h)
      (λ _. stop_workers-IsAccounted c rt h)

step-IsAccounted : (op : Op) (rt : Runtime) → IsAccounted rt → IsAccounted (step op rt)
unfolding step
step-IsAccounted (do_start c) rt h = start-IsAccounted c rt h
step-IsAccounted (do_shutdown c) rt h = shutdown-IsAccounted c rt h

run_ops_from : (ops : List Op) (rt : Runtime) → IsAccounted rt → IsAccounted (run_ops ops rt)
unfolding run_ops
run_ops_from [] rt h = h
run_ops_from (op ∷ ops) rt h = run_ops_from ops (step op rt) (step-IsAccounted op rt h)

-- After any calls of Start and Shutdown on a new runtime, whatever the workers, the listener and
-- the clients answer, each worker that was launched either is held as running or has ended, exactly
-- once and in the order of launching, a Start that failed halfway included.
pub run_ops-IsAccounted : (ops : List Op) → IsAccounted (run_ops ops new_runtime)
unfolding IsAccounted
run_ops-IsAccounted ops = run_ops_from ops new_runtime refl

pub shutdown-first : (c : Calls) (rt : Runtime) → rt.shut_down ≡ false → shutdown c rt ≡ shut c rt
unfolding shutdown
shutdown-first c rt h = ap (λ b. if b then (rt, rt.stop_err) else shut c rt) h
