-- ===== src/Lifecycle/Interleaving.antt =====
-- Every interleaving of the goroutines of stopWorkers ends, and with the same result.
use mkqd.Base.{
  ℕ, suc, ◌+◌, ◌*◌, ◌≤◌, ◌≡◌, ◌↔◌, refl, sym, ap, ◌∙◌, inl, inr, Option, none, some, List, [], ◌∷◌,
  ◌++◌, Bytes, length, Option-cases, arith,
}
use mkqd.Lifecycle.{
  Retirement, drained, drained_and_stopped, Calls, errors, drain_worker, drain_all,
}
use mkqd.Lifecycle.Goroutines.{
  Task, waiting, unwinding, over, Turn, drained_in_time, budget_expired, unwound, Step, first,
  later, Schedule, stay, go, IsOver, none_left, one_over, spawn, written,
}
use mkqd.RetryAfter.Errors.{Error}

abbrev End : Type 0
End = List (Bytes × Retirement) × List Error

abbrev with_end : Bytes → Retirement × Option Error → End → End
with_end name ended others = ((name, ended.0) ∷ others.0, errors ended.1 ++ others.1)

-- What a goroutine will have written when it is over.
abbrev bound_for : Calls → Task → End → End
bound_for c (waiting name) others = with_end name (drain_worker c name) others
bound_for c (unwinding name e) others = with_end name (drained_and_stopped, c.stop name) others
bound_for c (over name r e) others = with_end name (r, e) others

foreseen : Calls → List Task → End
foreseen c [] = ([], [])
foreseen c (t ∷ ts) = bound_for c t (foreseen c ts)

drain_worker-none :
    (c : Calls) (name : Bytes) → c.drain name ≡ none → drain_worker c name ≡ (drained, none)
unfolding drain_worker
drain_worker-none c name h = ground (arith, h)

drain_worker-some :
    (c : Calls) (name : Bytes) (e : Error)
    → c.drain name ≡ some e
    → drain_worker c name ≡ (drained_and_stopped, c.stop name)
unfolding drain_worker
drain_worker-some c name e h = ground (arith, h)

Turn-foreseen : (c : Calls) (o : End) {t u : Task} → Turn c t u → bound_for c t o ≡ bound_for c u o
Turn-foreseen c o (drained_in_time {name = name} h) =
    ap (λ d. with_end name d o) (drain_worker-none c name h)
Turn-foreseen c o (budget_expired {name = name} {e = e} h) =
    ap (λ d. with_end name d o) (drain_worker-some c name e h)
Turn-foreseen c o unwound = refl

Step-foreseen : (c : Calls) {ts us : List Task} → Step c ts us → foreseen c ts ≡ foreseen c us
unfolding foreseen
Step-foreseen c (first {ts = ts} h) = Turn-foreseen c (foreseen c ts) h
Step-foreseen c (later {t = t} h) = ap (bound_for c t) (Step-foreseen c h)

Schedule-foreseen :
    (c : Calls) {ts us : List Task} {n : ℕ} → Schedule c ts us n → foreseen c ts ≡ foreseen c us
Schedule-foreseen c stay = refl
Schedule-foreseen c (go h k) = Step-foreseen c h ∙ Schedule-foreseen c k

foreseen-spawn : (c : Calls) (names : List Bytes) → foreseen c (spawn names) ≡ drain_all c names
unfolding foreseen spawn drain_all
foreseen-spawn c [] = refl
foreseen-spawn c (name ∷ names) = ap (with_end name (drain_worker c name)) (foreseen-spawn c names)

written-foreseen : (c : Calls) {ts : List Task} → IsOver ts → written ts ≡ foreseen c ts
unfolding foreseen written
written-foreseen c none_left = refl
written-foreseen c (one_over {name = name} {r = r} {e = e} h) =
    ap (with_end name (r, e)) (written-foreseen c h)

-- The calls that retire a worker: Drain, and Stop where that fails.
abbrev calls_after : Option Error → ℕ
calls_after none = 1
calls_after (some e) = 2

abbrev pub calls_of : Calls → List Bytes → ℕ
calls_of c [] = 0
calls_of c (name ∷ names) = calls_after (c.drain name) + calls_of c names

-- The turns that a goroutine still has.
abbrev left : Calls → Task → ℕ
left c (waiting name) = calls_after (c.drain name)
left c (unwinding name e) = 1
left c (over name r e) = 0

all_left : Calls → List Task → ℕ
all_left c [] = 0
all_left c (t ∷ ts) = left c t + all_left c ts

Turn-left : (c : Calls) {t u : Task} → Turn c t u → suc (left c u) ≡ left c t
Turn-left c (drained_in_time h) = sym (ap calls_after h)
Turn-left c (budget_expired h) = sym (ap calls_after h)
Turn-left c unwound = refl

Step-left : (c : Calls) {ts us : List Task} → Step c ts us → suc (all_left c us) ≡ all_left c ts
unfolding all_left
Step-left c (first h) = omega (arith, Turn-left c h)
Step-left c (later h) = omega (arith, Step-left c h)

Schedule-left :
    (c : Calls) {ts us : List Task} {n : ℕ} → Schedule c ts us n → n + all_left c us ≡ all_left c ts
Schedule-left c stay = omega arith
Schedule-left c (go h k) = omega (arith, Step-left c h, Schedule-left c k)

all_left-spawn : (c : Calls) (names : List Bytes) → all_left c (spawn names) ≡ calls_of c names
unfolding all_left spawn
all_left-spawn c [] = refl
all_left-spawn c (name ∷ names) = ap (λ k. calls_after (c.drain name) + k) (all_left-spawn c names)

calls_after-bounds : (o : Option Error) → (1 ≤ calls_after o) × (calls_after o ≤ 2)
calls_after-bounds none = (omega arith, omega arith)
calls_after-bounds (some e) = (omega arith, omega arith)

calls_of-bound : (c : Calls) (names : List Bytes) → calls_of c names ≤ 2 * length names
calls_of-bound c [] = omega arith
calls_of-bound c (name ∷ names) =
    omega (arith, (calls_after-bounds (c.drain name)).1, calls_of-bound c names)

-- No turn is left exactly where all goroutines are over.
all_left-IsOver : (c : Calls) {ts : List Task} → IsOver ts → all_left c ts ≡ 0
unfolding all_left
all_left-IsOver c none_left = refl
all_left-IsOver c (one_over h) = omega (arith, all_left-IsOver c h)

IsOver-all_left : (c : Calls) (ts : List Task) → all_left c ts ≡ 0 → IsOver ts
unfolding all_left
IsOver-all_left c [] h = none_left
IsOver-all_left c (waiting name ∷ ts) h =
    absurd (omega (arith, h, (calls_after-bounds (c.drain name)).0))
IsOver-all_left c (unwinding name e ∷ ts) h = absurd (omega (arith, h))
IsOver-all_left c (over name r e ∷ ts) h = one_over (IsOver-all_left c ts (omega (arith, h)))

-- What goes on behind a goroutine that is over.
behind :
    (c : Calls) (t : Task) {ts us : List Task} {n : ℕ}
    → Schedule c ts us n
    → Schedule c (t ∷ ts) (t ∷ us) n
behind c t stay = stay
behind c t (go h k) = go (later h) (behind c t k)

abbrev pub Ends : Calls → List Task → Type 0
Ends c ts = (us : List Task) × (n : ℕ) × Schedule c ts us n × IsOver us

finish_later :
    (c : Calls) (name : Bytes) (r : Retirement) (e : Option Error) (ts : List Task)
    → Ends c ts
    → Ends c (over name r e ∷ ts)
finish_later c name r e ts (us, n, k, o) = (_, n, behind c (over name r e) k, one_over o)

turn_then :
    (c : Calls) {t u : Task} (ts : List Task) → Turn c t u → Ends c (u ∷ ts) → Ends c (t ∷ ts)
turn_then c ts h (us, n, k, o) = (us, suc n, go (first h) k, o)

finish_first : (c : Calls) (t : Task) (ts : List Task) → Ends c ts → Ends c (t ∷ ts)
finish_first c (over name r e) ts k = finish_later c name r e ts k
finish_first c (unwinding name e) ts k = turn_then c ts unwound (finish_later c name _ _ ts k)
finish_first c (waiting name) ts k = elim (Option-cases (c.drain name)) [
  | inl h ↦ turn_then c ts (drained_in_time h) (finish_later c name _ _ ts k)
  | inr (e, h) ↦
      turn_then c ts (budget_expired h) (turn_then c ts unwound (finish_later c name _ _ ts k))
]

finish : (c : Calls) (ts : List Task) → Ends c ts
finish c [] = ([], 0, stay, none_left)
finish c (t ∷ ts) = finish_first c t ts (finish c ts)

-- However the goroutines of stopWorkers interleave, once all of them are over they have written
-- what draining the workers one after the other gives: how each worker ended, and the errors in the
-- order of the workers.
pub Schedule-result :
    (c : Calls) (names : List Bytes) (ts : List Task) (n : ℕ)
    → Schedule c (spawn names) ts n
    → IsOver ts
    → written ts ≡ drain_all c names
Schedule-result c names ts n k o =
    written-foreseen c o ∙ sym (Schedule-foreseen c k) ∙ foreseen-spawn c names

-- In every interleaving of the goroutines of stopWorkers, the turns so far are at most one for each
-- worker whose Drain succeeds and two for each other one, and they are that many exactly where all
-- goroutines are over.
pub Schedule-bound :
    (c : Calls) (names : List Bytes) (ts : List Task) (n : ℕ)
    → Schedule c (spawn names) ts n
    → (n ≤ calls_of c names) × ((n ≡ calls_of c names) ↔ IsOver ts)
Schedule-bound c names ts n k = (
  omega (arith, Schedule-left c k, all_left-spawn c names),
  (
    λ h. IsOver-all_left c ts (omega (arith, h, Schedule-left c k, all_left-spawn c names)),
    λ o. omega (arith, all_left-IsOver c o, Schedule-left c k, all_left-spawn c names),
  ),
)

-- Wherever an interleaving of the goroutines of stopWorkers has come to, it can go on until all of
-- them are over, with the result of draining the workers one after the other, and within two turns
-- for each worker in all.
pub Schedule-completes :
    (c : Calls) (names : List Bytes) (ts : List Task) (n : ℕ)
    → Schedule c (spawn names) ts n
    → (us : List Task) × (m : ℕ) × Schedule c ts us m
      × (IsOver us × ((written us ≡ drain_all c names) × (n + m ≤ 2 * length names)))
Schedule-completes c names ts n k = extended (finish c ts)
  where
    extended :
        Ends c ts
        → (us : List Task) × (m : ℕ) × Schedule c ts us m
          × (IsOver us × ((written us ≡ drain_all c names) × (n + m ≤ 2 * length names)))
    extended (us, m, j, o) = (
      us,
      m,
      j,
      (
        o,
        (
          written-foreseen c o
              ∙ sym (Schedule-foreseen c j)
              ∙ sym (Schedule-foreseen c k)
              ∙ foreseen-spawn c names,
          omega (
            arith,
            Schedule-left c k,
            Schedule-left c j,
            all_left-spawn c names,
            calls_of-bound c names,
          ),
        ),
      ),
    )
