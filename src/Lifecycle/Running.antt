-- ===== src/Lifecycle/Running.antt =====
-- Run of runtime.go leaves no worker behind, however it ends.
use mathlib.Core.List.{append-nil, append_assoc}
use mathlib.Core.Path.{subst}
use mkqd.Base.{
  ◌≡◌, refl, sym, ap, ◌∙◌, true, false, Option, none, some, List, [], ◌∷◌, ◌++◌, Bytes, arith,
  if-elim,
}
use mkqd.Lifecycle.Accounting.{IsAccounted, ended, start-IsAccounted, shutdown-first}
use mkqd.Lifecycle.{
  Runtime, Calls, new_runtime, after_worker, with_worker, after_listen, begin, stop_workers,
  abort_workers, drain_all, launch, serve, start, shut, shutdown, is_serving, after_start, run,
}
use mkqd.RetryAfter.Errors.{Error}

-- A Start that fails has stopped what it launched.
abbrev NoneOnError : Runtime × Option Error → Type 0
NoneOnError (rt, none) = Unit {0}
NoneOnError (rt, some e) = rt.workers ≡ []

after_worker-NoneOnError :
    (o : Option Error) (rt : Runtime) (next : Runtime × Option Error)
    → NoneOnError next
    → NoneOnError (after_worker o rt next)
unfolding after_worker abort_workers
after_worker-NoneOnError (some e) rt next h = refl
after_worker-NoneOnError none rt next h = h

launch-NoneOnError :
    (c : Calls) (names : List Bytes) (rt : Runtime) → NoneOnError (launch c names rt)
unfolding launch
launch-NoneOnError c [] rt = tt
launch-NoneOnError c (n ∷ names) rt =
    after_worker-NoneOnError (c.start_worker n) rt (launch c names (with_worker n rt))
      (launch-NoneOnError c names (with_worker n rt))

after_listen-NoneOnError : (o : Option Error) (rt : Runtime) → NoneOnError (after_listen o rt)
unfolding after_listen abort_workers
after_listen-NoneOnError (some e) rt = refl
after_listen-NoneOnError none rt = tt

serve-NoneOnError :
    (c : Calls) (r : Runtime × Option Error) → NoneOnError r → NoneOnError (serve c r)
unfolding serve
serve-NoneOnError c (rt, some e) h = h
serve-NoneOnError c (rt, none) h =
    if-elim NoneOnError c.server_enabled (after_listen c.listen rt) (rt, none)
      (λ _. after_listen-NoneOnError c.listen rt) (λ _. tt)

begin-NoneOnError :
    (c : Calls) (o : Option Error) (names : List Bytes) (rt : Runtime)
    → rt.workers ≡ []
    → NoneOnError (begin c o names rt)
unfolding begin
begin-NoneOnError c (some e) names rt h = h
begin-NoneOnError c none [] rt h = h
begin-NoneOnError c none (n ∷ names) rt h =
    serve-NoneOnError c (launch c (n ∷ names) rt) (launch-NoneOnError c (n ∷ names) rt)

start-NoneOnError : (c : Calls) → NoneOnError (start c new_runtime)
unfolding start
start-NoneOnError c =
    begin-NoneOnError c c.build_queues c.queues (record new_runtime { started = true }) refl

-- A Start that goes well has launched every queue.
abbrev IsUp : List Bytes → Runtime → Type 0
IsUp names rt =
    (rt.workers ≡ names) × ((rt.launched ≡ names) × ((rt.retired ≡ []) × (rt.shut_down ≡ false)))

abbrev UpOnSuccess : List Bytes → Runtime × Option Error → Type 0
UpOnSuccess names (rt, none) = IsUp names rt
UpOnSuccess names (rt, some e) = Unit {0}

after_worker-UpOnSuccess :
    (names : List Bytes) (o : Option Error) (rt : Runtime) (next : Runtime × Option Error)
    → UpOnSuccess names next
    → UpOnSuccess names (after_worker o rt next)
unfolding after_worker
after_worker-UpOnSuccess names (some e) rt next h = tt
after_worker-UpOnSuccess names none rt next h = h

launch-UpOnSuccess :
    (c : Calls) (before names : List Bytes) (rt : Runtime)
    → IsUp before rt
    → UpOnSuccess (before ++ names) (launch c names rt)
unfolding launch
launch-UpOnSuccess c before [] rt h = subst (λ l. IsUp l rt) (sym (append-nil before)) h
launch-UpOnSuccess c before (n ∷ names) rt h =
    after_worker-UpOnSuccess (before ++ (n ∷ names)) (c.start_worker n) rt
      (launch c names (with_worker n rt))
      (subst (λ l. UpOnSuccess l (launch c names (with_worker n rt)))
        (append_assoc before (n ∷ []) names)
        (launch-UpOnSuccess c (before ++ (n ∷ [])) names (with_worker n rt)
          (ap (λ l. l ++ (n ∷ [])) h.0, (ap (λ l. l ++ (n ∷ [])) h.1.0, h.1.1))))

after_listen-UpOnSuccess :
    (names : List Bytes) (o : Option Error) (rt : Runtime)
    → IsUp names rt
    → UpOnSuccess names (after_listen o rt)
unfolding after_listen
after_listen-UpOnSuccess names (some e) rt h = tt
after_listen-UpOnSuccess names none rt h = h

serve-UpOnSuccess :
    (c : Calls) (names : List Bytes) (r : Runtime × Option Error)
    → UpOnSuccess names r
    → UpOnSuccess names (serve c r)
unfolding serve
serve-UpOnSuccess c names (rt, some e) h = tt
serve-UpOnSuccess c names (rt, none) h =
    if-elim (UpOnSuccess names) c.server_enabled (after_listen c.listen rt) (rt, none)
      (λ _. after_listen-UpOnSuccess names c.listen rt h) (λ _. h)

begin-UpOnSuccess :
    (c : Calls) (o : Option Error) (names : List Bytes) (rt : Runtime)
    → IsUp [] rt
    → UpOnSuccess names (begin c o names rt)
unfolding begin
begin-UpOnSuccess c (some e) names rt h = tt
begin-UpOnSuccess c none [] rt h = tt
begin-UpOnSuccess c none (n ∷ names) rt h =
    serve-UpOnSuccess c (n ∷ names) (launch c (n ∷ names) rt)
      (launch-UpOnSuccess c [] (n ∷ names) rt h)

start-UpOnSuccess : (c : Calls) → UpOnSuccess c.queues (start c new_runtime)
unfolding start
start-UpOnSuccess c =
    begin-UpOnSuccess c c.build_queues c.queues (record new_runtime { started = true })
      (refl, (refl, (refl, refl)))

-- How Run ends: Start failed, and what it launched has ended; or every queue was launched and drained.
abbrev pub RunOutcome : Calls → Option Error → Runtime × List Error → Type 0
RunOutcome c (some e) r = (r.1 ≡ e ∷ []) × ((r.0.workers ≡ []) × (r.0.launched ≡ ended r.0.retired))
RunOutcome c none r =
    (r.0.launched ≡ c.queues)
    × ((r.0.retired ≡ (drain_all c c.queues).0) × ((r.0.workers ≡ []) × (is_serving r.0 ≡ false)))

retired_up :
    (c : Calls) (rt : Runtime)
    → IsUp c.queues rt
    → rt.retired ++ (drain_all c rt.workers).0 ≡ (drain_all c c.queues).0
retired_up c rt h =
    ap (λ l. l ++ (drain_all c rt.workers).0) h.1.1.0 ∙ ap (λ l. (drain_all c l).0) h.0

shut_up : (c : Calls) (rt : Runtime) → IsUp c.queues rt → RunOutcome c none (shut c rt)
unfolding shut stop_workers is_serving
shut_up c rt h = (h.1.0, (retired_up c rt h, (refl, ground arith)))

shutdown_up : (c : Calls) (rt : Runtime) → IsUp c.queues rt → RunOutcome c none (shutdown c rt)
shutdown_up c rt h = subst (RunOutcome c none) (sym (shutdown-first c rt h.1.1.1)) (shut_up c rt h)

after_start-RunOutcome :
    (c : Calls) (r : Runtime × Option Error)
    → NoneOnError r
    → UpOnSuccess c.queues r
    → IsAccounted r.0
    → RunOutcome c r.1 (after_start c r)
unfolding after_start IsAccounted
after_start-RunOutcome c (rt, some e) n u a =
    (refl, (n, a ∙ ap (λ l. ended rt.retired ++ l) n ∙ append-nil (ended rt.retired)))
after_start-RunOutcome c (rt, none) n u a = shutdown_up c rt u

-- Run on a new runtime. If Start fails, Run returns that error alone, no worker runs and each
-- worker that was launched has ended. Otherwise every queue was launched, the workers have ended as
-- draining them one after the other gives, no worker runs and the runtime is not serving.
pub run-RunOutcome : (c : Calls) → RunOutcome c (start c new_runtime).1 (run c new_runtime)
unfolding run IsAccounted
run-RunOutcome c =
    after_start-RunOutcome c (start c new_runtime) (start-NoneOnError c) (start-UpOnSuccess c)
      (start-IsAccounted c new_runtime refl)
