-- ===== src/Lifecycle/Goroutines.antt =====
-- runtime.go: the goroutines of stopWorkers, one for each worker, that run side by side. One turn of
-- one of them is a call of Drain or of Stop, and what it wrote is in its own place of `errs`.
use mkqd.Base.{ℕ, suc, ◌≡◌, Option, none, some, List, [], ◌∷◌, ◌++◌, Bytes}
use mkqd.Lifecycle.{Retirement, drained, drained_and_stopped, Calls, errors}
use mkqd.RetryAfter.Errors.{Error}

-- Where a goroutine stands: before Drain, between Drain and Stop, or behind wg.Done.
pub data Task : Type 0 where
  waiting : Bytes → Task
  unwinding : Bytes → Error → Task
  over : Bytes → Retirement → Option Error → Task

pub data Turn (c : Calls) : Task → Task → Type 0 where
  drained_in_time :
      {name : Bytes} → c.drain name ≡ none → Turn c (waiting name) (over name drained none)
  budget_expired :
      {name : Bytes} {e : Error} → c.drain name ≡ some e → Turn c (waiting name) (unwinding name e)
  unwound :
      {name : Bytes} {e : Error}
      → Turn c (unwinding name e) (over name drained_and_stopped (c.stop name))

-- Any one of the goroutines takes a turn.
pub data Step (c : Calls) : List Task → List Task → Type 0 where
  first : {t u : Task} {ts : List Task} → Turn c t u → Step c (t ∷ ts) (u ∷ ts)
  later : {t : Task} {ts us : List Task} → Step c ts us → Step c (t ∷ ts) (t ∷ us)

-- The turns of a schedule, with their number.
pub data Schedule (c : Calls) : List Task → List Task → ℕ → Type 0 where
  stay : {ts : List Task} → Schedule c ts ts 0
  go : {ts us vs : List Task} {n : ℕ} → Step c ts us → Schedule c us vs n → Schedule c ts vs (suc n)

-- wg.Wait returns.
pub data IsOver : List Task → Type 0 where
  none_left : IsOver []
  one_over :
      {name : Bytes} {r : Retirement} {e : Option Error} {ts : List Task}
      → IsOver ts
      → IsOver (over name r e ∷ ts)

-- The goroutines that the loop of stopWorkers starts.
unfoldable pub spawn : List Bytes → List Task
spawn [] = []
spawn (name ∷ names) = waiting name ∷ spawn names

-- What stands in `errs`, with how each worker ended.
unfoldable pub written : List Task → List (Bytes × Retirement) × List Error
written [] = ([], [])
written (over name r e ∷ ts) =
    let others = written ts in ((name, r) ∷ others.0, errors e ++ others.1)
written (t ∷ ts) = written ts
