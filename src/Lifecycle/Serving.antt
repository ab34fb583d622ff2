-- ===== src/Lifecycle/Serving.antt =====
-- What isServing and a repeated Shutdown of runtime.go answer, whatever was called before.
use mathlib.Core.Path.{subst}
use mkqd.Base.{
  ◌≡◌, refl, sym, ap, ◌∙◌, Bool, true, false, not, ◌&&◌, ◌||◌, Option, none, some, List, [], ◌∷◌,
  ◌++◌, map, Bytes, inl, inr, Option-cases, arith, if-elim, if◌then◌else◌,
}
use mkqd.Lifecycle.Accounting.{shutdown-first}
use mkqd.Lifecycle.{
  Retirement, drained, drained_and_stopped, drain_worker, drain_all, Runtime, Calls, Op,
  new_runtime, after_worker, with_worker, after_listen, begin, stop_workers, abort_workers, launch,
  serve, start, shut, shutdown, is_serving, step, run_ops, do_start, do_shutdown,
}
use mkqd.RetryAfter.Errors.{Error}

-- The fields that the workers and the listener do not touch.
abbrev Flags : Type 0
Flags = Bool × (Bool × (Bool × List Error))

abbrev flags : Runtime → Flags
flags rt = (rt.started, (rt.stopped, (rt.shut_down, rt.stop_err)))

after_worker-flags :
    (o : Option Error) (rt : Runtime) (next : Runtime × Option Error)
    → flags next.0 ≡ flags rt
    → flags (after_worker o rt next).0 ≡ flags rt
unfolding after_worker abort_workers
after_worker-flags (some e) rt next h = refl
after_worker-flags none rt next h = h

launch-flags :
    (c : Calls) (names : List Bytes) (rt : Runtime) → flags (launch c names rt).0 ≡ flags rt
unfolding launch
launch-flags c [] rt = refl
launch-flags c (n ∷ names) rt =
    after_worker-flags (c.start_worker n) rt (launch c names (with_worker n rt))
      (launch-flags c names (with_worker n rt))

after_listen-flags : (o : Option Error) (rt : Runtime) → flags (after_listen o rt).0 ≡ flags rt
unfolding after_listen abort_workers
after_listen-flags (some e) rt = refl
after_listen-flags none rt = refl

serve-flags : (c : Calls) (r : Runtime × Option Error) → flags (serve c r).0 ≡ flags r.0
unfolding serve
serve-flags c (rt, some e) = refl
serve-flags c (rt, none) =
    if-elim (λ (r : Runtime × Option Error). flags r.0 ≡ flags rt) c.server_enabled
      (after_listen c.listen rt) (rt, none) (λ _. after_listen-flags c.listen rt) (λ _. refl)

begin-flags :
    (c : Calls) (o : Option Error) (names : List Bytes) (rt : Runtime)
    → flags (begin c o names rt).0 ≡ flags rt
unfolding begin
begin-flags c (some e) names rt = refl
begin-flags c none [] rt = refl
begin-flags c none (n ∷ names) rt =
    serve-flags c (launch c (n ∷ names) rt) ∙ launch-flags c (n ∷ names) rt

-- A Start leaves all but `started` as it was, and that true.
start-flags : (c : Calls) (rt : Runtime) → flags (start c rt).0 ≡ (true, (flags rt).1)
unfolding start
start-flags c rt =
    if-elim (λ (r : Runtime × Option Error). flags r.0 ≡ (true, (flags rt).1)) rt.started _ _
      (λ h. ap (λ b. (b, (flags rt).1)) h)
      (λ _. begin-flags c c.build_queues c.queues (record rt { started = true }))

-- Behind a Shutdown both of its flags stand.
shutdown-flags :
    (c : Calls) (rt : Runtime)
    → rt.stopped ≡ rt.shut_down
    → ((shutdown c rt).0.started ≡ rt.started)
      × (((shutdown c rt).0.stopped ≡ true) × ((shutdown c rt).0.shut_down ≡ true))
unfolding shutdown shut stop_workers
shutdown-flags c rt h =
    if-elim
      (λ (r : Runtime × List Error).
        (r.0.started ≡ rt.started) × ((r.0.stopped ≡ true) × (r.0.shut_down ≡ true)))
      rt.shut_down _ _ (λ d. (refl, (h ∙ d, d))) (λ _. (refl, (refl, refl)))

-- Was Start called, and was Shutdown.
abbrev pub is_start : Op → Bool
is_start (do_start c) = true
is_start (do_shutdown c) = false

abbrev pub some_op : (Op → Bool) → List Op → Bool
some_op test [] = false
some_op test (op ∷ ops) = test op || some_op test ops

or_true : (b : Bool) → b || true ≡ true
or_true true = refl
or_true false = refl

or_false : (b : Bool) → b || false ≡ b
or_false true = refl
or_false false = refl

abbrev History : List Op → Runtime → Runtime → Type 0
History ops before rt =
    (rt.started ≡ before.started || some_op is_start ops)
    × (rt.stopped ≡ before.stopped || some_op (λ op. not (is_start op)) ops)

run_ops-History :
    (ops : List Op) (rt : Runtime) → rt.stopped ≡ rt.shut_down → History ops rt (run_ops ops rt)
unfolding run_ops step
run_ops-History [] rt h = (sym (or_false rt.started), sym (or_false rt.stopped))
run_ops-History (do_start c ∷ ops) rt h =
    let f = start-flags c rt in
    let later =
      run_ops-History ops (start c rt).0
        (ap (λ (v : Flags). v.1.0) f ∙ (h ∙ sym (ap (λ (v : Flags). v.1.1.0) f))) in
    (
      later.0 ∙ (ap (λ (v : Flags). v.0 || some_op is_start ops) f ∙ sym (or_true rt.started)),
      later.1 ∙ ap (λ (v : Flags). v.1.0 || some_op (λ op. not (is_start op)) ops) f,
    )
run_ops-History (do_shutdown c ∷ ops) rt h =
    let (s, (t, d)) = shutdown-flags c rt h in
    let later = run_ops-History ops (shutdown c rt).0 (t ∙ sym d) in
    (
      later.0 ∙ ap (λ b. b || some_op is_start ops) s,
      later.1 ∙ (ap (λ b. b || some_op (λ op. not (is_start op)) ops) t ∙ sym (or_true rt.stopped)),
    )

-- After any calls of Start and Shutdown on a new runtime, whatever they met and returned, isServing
-- answers whether a Start was among them and no Shutdown.
pub run_ops-is_serving :
    (ops : List Op)
    → is_serving (run_ops ops new_runtime)
      ≡ some_op is_start ops && not (some_op (λ op. not (is_start op)) ops)
unfolding is_serving
run_ops-is_serving ops = let h = run_ops-History ops new_runtime refl in rw (h.0, h.1) refl

-- What a Shutdown that has run answers, however Start and Shutdown are called behind it.
abbrev IsFinal : List Error → Runtime → Type 0
IsFinal errs rt = (rt.stopped ≡ true) × ((rt.shut_down ≡ true) × (rt.stop_err ≡ errs))

start-IsFinal :
    (errs : List Error) (c : Calls) (rt : Runtime) → IsFinal errs rt → IsFinal errs (start c rt).0
start-IsFinal errs c rt (s, (d, e)) =
    let f = start-flags c rt in
    (
      ap (λ (v : Flags). v.1.0) f ∙ s,
      (ap (λ (v : Flags). v.1.1.0) f ∙ d, ap (λ (v : Flags). v.1.1.1) f ∙ e),
    )

shutdown-IsFinal :
    (errs : List Error) (c : Calls) (rt : Runtime) → IsFinal errs rt → shutdown c rt ≡ (rt, errs)
unfolding shutdown
shutdown-IsFinal errs c rt (s, (d, e)) =
    ap (λ b. if b then (rt, rt.stop_err) else shut c rt) d ∙ ap (λ l. (rt, l)) e

run_ops-IsFinal :
    (errs : List Error) (ops : List Op) (rt : Runtime)
    → IsFinal errs rt
    → IsFinal errs (run_ops ops rt)
unfolding run_ops step
run_ops-IsFinal errs [] rt h = h
run_ops-IsFinal errs (do_start c ∷ ops) rt h =
    run_ops-IsFinal errs ops (start c rt).0 (start-IsFinal errs c rt h)
run_ops-IsFinal errs (do_shutdown c ∷ ops) rt h =
    run_ops-IsFinal errs ops (shutdown c rt).0 (
      subst (λ (r : Runtime × List Error). IsFinal errs r.0) (sym (shutdown-IsFinal errs c rt h)) h)

after_shut : (c : Calls) (rt : Runtime) → IsFinal (shut c rt).1 (shut c rt).0
unfolding shut stop_workers
after_shut c rt = (refl, (refl, refl))

-- How a worker ends: drained, and stopped where its Drain failed.
abbrev pub end_after : Option Error → Retirement
end_after none = drained
end_after (some e) = drained_and_stopped

drain_worker-end : (c : Calls) (name : Bytes) → (drain_worker c name).0 ≡ end_after (c.drain name)
unfolding drain_worker
drain_worker-end c name = elim (Option-cases (c.drain name)) [
  | inl h ↦ ground (arith, h)
  | inr (e, h) ↦ ground (arith, h)
]

drain_all-ends :
    (c : Calls) (names : List Bytes)
    → (drain_all c names).0 ≡ map (λ name. (name, end_after (c.drain name))) names
unfolding drain_all
drain_all-ends c [] = refl
drain_all-ends c (name ∷ names) =
    ap (λ r. (name, r) ∷ (drain_all c names).0) (drain_worker-end c name)
    ∙ ap (λ l. (name, end_after (c.drain name)) ∷ l) (drain_all-ends c names)

shut-workers :
    (c : Calls) (rt : Runtime)
    → ((shut c rt).0.workers ≡ [])
      × ((shut c rt).0.retired
          ≡ rt.retired ++ map (λ name. (name, end_after (c.drain name))) rt.workers)
unfolding shut stop_workers
shut-workers c rt = (refl, ap (λ l. rt.retired ++ l) (drain_all-ends c rt.workers))

-- A first Shutdown calls Drain of every worker that the runtime holds, in the order of launching,
-- and Stop of those whose Drain failed, and holds no worker behind that. However Start and Shutdown
-- are called behind it, the runtime is not serving, and each later Shutdown changes nothing, what a
-- Start in between has launched included, and reports the errors of the first.
pub shutdown_final :
    (c d : Calls) (ops : List Op) (rt : Runtime)
    → rt.shut_down ≡ false
    → (((shutdown c rt).0.workers ≡ [])
        × ((shutdown c rt).0.retired
            ≡ rt.retired ++ map (λ name. (name, end_after (c.drain name))) rt.workers))
      × ((is_serving (run_ops ops (shutdown c rt).0) ≡ false)
          × (shutdown d (run_ops ops (shutdown c rt).0)
              ≡ (run_ops ops (shutdown c rt).0, (shutdown c rt).1)))
unfolding is_serving
shutdown_final c d ops rt h = rw (shutdown-first c rt h) (
    let final = run_ops-IsFinal (shut c rt).1 ops (shut c rt).0 (after_shut c rt) in
    (
      shut-workers c rt,
      (
        rw final.0 (ground arith),
        shutdown-IsFinal (shut c rt).1 d (run_ops ops (shut c rt).0) final,
      ),
    ))
