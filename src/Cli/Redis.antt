-- ===== src/Cli/Redis.antt =====
-- Redis as package mkq shows it to the command line, and commands as functions on its state that may
-- fail.
use mkqd.Base.{Bool, true, Option, List, Bytes}
use mkqd.Base.Int.{ℤ}
use mkqd.Cli.View.{Job, JobState}
use mkqd.RetryAfter.Errors.{Error}

pub data Answer (A : Type 0) : Type 0 where
  got : A → Answer A
  error : Error → Answer A

abbrev pub Cmd : Type 0 → Type 0 → Type 0
Cmd S A = S → Answer A × S

abbrev pub next : {S A B : Type 0} → Answer A × S → (A → Cmd S B) → Answer B × S
next (got a, s) f = f a s
next (error e, s) f = (error e, s)

infixl 5 ◌>>=◌ ◌>>◌
abbrev pub ◌>>=◌ : {S A B : Type 0} → Cmd S A → (A → Cmd S B) → Cmd S B
◌>>=◌ m f s = next (m s) f

abbrev pub ◌>>◌ : {S B : Type 0} → Cmd S (Unit {0}) → Cmd S B → Cmd S B
◌>>◌ m k s = next (m s) (λ _. k)

abbrev pub pure : {S A : Type 0} → A → Cmd S A
pure a s = (got a, s)

abbrev pub fail : {S A : Type 0} → Error → Cmd S A
fail e s = (error e, s)

-- `if bad { return error }`.
abbrev pub refuse : {S : Type 0} → Bool → Error → Cmd S (Unit {0})
refuse true e = fail e
refuse _ e = pure tt

-- mkq.QueueCounts.
pub record Counts : Type 0 where
  pub wait : ℤ
  pub active : ℤ
  pub delayed : ℤ
  pub prioritized : ℤ
  pub completed : ℤ
  pub failed : ℤ
  pub paused : ℤ

-- The options of Queue.Add.
pub data AddOption : Type 0 where
  job_name job_id : Bytes → AddOption
  delay priority attempts : ℤ → AddOption
  lifo : AddOption

-- The calls of mkq that change a queue that is there.
pub data Change : Type 0 where
  pause resume : Change
  retry_job : Bytes → Bytes → Change
  promote_job remove_job : Bytes → Change
  drain_pending : Bool → Change

-- What the commands call. A call that only reads has no new state.
pub record Redis : Type 1 where
  pub State : Type 0
  pub discover : State → Answer (List Bytes)
  pub define : Bytes → State → State
  pub is_paused : Bytes → State → Answer Bool
  pub counts : Bytes → State → Answer Counts
  pub list_jobs : Bytes → Bytes → ℤ → ℤ → Bool → State → Answer (List (Job × Option JobState))
  pub get : Bytes → Bytes → State → Answer (Job × Option JobState)
  pub get_logs : Bytes → Bytes → State → Answer (ℤ × Option (List Bytes))
  pub add : Bytes → Bytes → List AddOption → State → Answer Bytes × State
  pub change : Bytes → Change → State → Answer (Unit {0}) × State

abbrev pub read : {S A : Type 0} → (S → Answer A) → Cmd S A
read f s = (f s, s)
