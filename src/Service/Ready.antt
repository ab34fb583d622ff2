-- ===== src/Service/Ready.antt =====
-- /readyz of server.go in every state that Start and Shutdown reach.
use mkqd.Base.{◌≡◌, ◌↔◌, refl, true, false, Option, none, some, List, [], ◌∷◌, Bytes, arith}
use mkqd.Lifecycle.{
  Runtime, Calls, Op, new_runtime, after_worker, with_worker, after_listen, begin, stop_workers,
  abort_workers, launch, serve, start, shut, shutdown, is_serving, step, run_ops, do_start,
  do_shutdown,
}
use mkqd.RetryAfter.Errors.{Error}
use mkqd.Service.Health.{write_plain, readyz}

-- What Start leaves alone behind its first guard: `stopped` and the like; it has been called.
abbrev Same : Runtime → Runtime → Type 0
Same rt t = (t.started ≡ rt.started) × ((t.stopped ≡ rt.stopped) × (t.shut_down ≡ rt.shut_down))

launch-Same : (c : Calls) (names : List Bytes) (rt : Runtime) → Same rt (launch c names rt).0
unfolding launch after_worker abort_workers
launch-Same c [] rt = (refl, (refl, refl))
launch-Same c (n ∷ names) rt = ground (arith, launch-Same c names (with_worker n rt))

serve-Same : (c : Calls) (r : Runtime × Option Error) → Same r.0 (serve c r).0
unfolding serve after_listen abort_workers
serve-Same c (rt, some e) = (refl, (refl, refl))
serve-Same c (rt, none) = ground arith

begin-Same :
    (c : Calls) (o : Option Error) (names : List Bytes) (rt : Runtime)
    → Same rt (begin c o names rt).0
unfolding begin
begin-Same c (some e) names rt = (refl, (refl, refl))
begin-Same c none [] rt = (refl, (refl, refl))
begin-Same c none (n ∷ names) rt =
    ground (arith, launch-Same c (n ∷ names) rt, serve-Same c (launch c (n ∷ names) rt))

-- Shutdown has run exactly where the runtime is stopped, and only a started runtime listens.
pub record IsOrderly (rt : Runtime) : Type 0 where
  pub stopped : rt.stopped ≡ rt.shut_down
  pub listening : rt.listening ≡ true → rt.started ≡ true

start-IsOrderly : (c : Calls) (rt : Runtime) → IsOrderly rt → IsOrderly (start c rt).0
unfolding start
start-IsOrderly c rt v = record {
  stopped =
      ground
        (arith, v.stopped, begin-Same c c.build_queues c.queues (record rt { started = true }));
  listening =
      λ h. ground (arith, begin-Same c c.build_queues c.queues (record rt { started = true }));
}

shutdown-IsOrderly : (c : Calls) (rt : Runtime) → IsOrderly rt → IsOrderly (shutdown c rt).0
unfolding shutdown shut stop_workers
shutdown-IsOrderly c rt v = record {
  stopped = ground (arith, v.stopped);
  listening = λ h. ground (arith, v.listening, h);
}

step-IsOrderly : (op : Op) (rt : Runtime) → IsOrderly rt → IsOrderly (step op rt)
unfolding step
step-IsOrderly (do_start c) rt v = start-IsOrderly c rt v
step-IsOrderly (do_shutdown c) rt v = shutdown-IsOrderly c rt v

run_ops-IsOrderly : (ops : List Op) (rt : Runtime) → IsOrderly rt → IsOrderly (run_ops ops rt)
unfolding run_ops
run_ops-IsOrderly [] rt v = v
run_ops-IsOrderly (op ∷ ops) rt v = run_ops-IsOrderly ops (step op rt) (step-IsOrderly op rt v)

new_runtime-IsOrderly : IsOrderly new_runtime
new_runtime-IsOrderly = record { stopped = refl; listening = λ h. ground (arith, h) }

readyz_code :
    (print : Error → Bytes) (rt : Runtime) (ping : Option Error)
    → IsOrderly rt
    → rt.listening ≡ true
    → ((readyz print rt ping).code ≡ 200) ↔ ((rt.shut_down ≡ false) × (ping ≡ none))
unfolding readyz is_serving write_plain
readyz_code print rt ping v h = ground (arith, v.stopped, v.listening h)

-- In every state that calls of Start and Shutdown reach and in which the health listener was
-- opened, /readyz answers 200 exactly if Shutdown has not run and Redis answers the ping.
pub readyz_reachable :
    (print : Error → Bytes) (ops : List Op) (ping : Option Error)
    → (run_ops ops new_runtime).listening ≡ true
    → ((readyz print (run_ops ops new_runtime) ping).code ≡ 200)
      ↔ (((run_ops ops new_runtime).shut_down ≡ false) × (ping ≡ none))
readyz_reachable print ops ping h =
    readyz_code print (run_ops ops new_runtime) ping
      (run_ops-IsOrderly ops new_runtime new_runtime-IsOrderly) h
