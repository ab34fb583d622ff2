-- ===== src/Cli/View.antt =====
-- cmd/mkqd/inspect.go: the documented shape of a job, made of what mkq gives.
use mkqd.Base.{Option, none, some, List, [], Bytes, codes}
use mkqd.Base.Int.{ℤ}

-- time.Time, with the zero value apart.
pub data Time : Type 0 where
  zero_time : Time
  at_time : ℤ → Time

abbrev pub shown : Time → Option ℤ
shown zero_time = none
shown (at_time t) = some t

-- mkq.Job of raw JSON; absent data is `none`.
pub record Job : Type 0 where
  pub id : Bytes
  pub name : Bytes
  pub timestamp : Time
  pub attempts_made : ℤ
  pub attempts_started : ℤ
  pub stalled_counter : ℤ
  pub processed_by : Bytes
  pub payload : Option Bytes

-- mkq.JobState.
pub record JobState : Type 0 where
  pub processed_on : Time
  pub finished_on : Time
  pub return_value : Bytes
  pub failed_reason : Bytes
  pub stacktrace : List Bytes
  pub progress : Bytes
  pub opts : Bytes
  pub delay : ℤ
  pub attempts_at : List ℤ

pub record StateView : Type 0 where
  pub processed_on : Option ℤ
  pub finished_on : Option ℤ
  pub return_value : Bytes
  pub failed_reason : Bytes
  pub stacktrace : List Bytes
  pub progress : Bytes
  pub opts : Bytes
  pub delay_millis : ℤ
  pub attempts_at : List ℤ

pub record JobView : Type 0 where
  pub id : Bytes
  pub name : Bytes
  pub timestamp : Time
  pub attempts_made : ℤ
  pub attempts_started : ℤ
  pub stalled_counter : ℤ
  pub processed_by : Bytes
  pub payload : Bytes
  pub state : StateView

abbrev pub empty_state : StateView
empty_state = record {
  processed_on = none;
  finished_on = none;
  return_value = [];
  failed_reason = [];
  stacktrace = [];
  progress = [];
  opts = [];
  delay_millis = ℤ.pos 0;
  attempts_at = [];
}

abbrev or_null : Option Bytes → Bytes
or_null none = codes "null"
or_null (some d) = d

unfoldable pub state_view : Option JobState → StateView
state_view none = empty_state
state_view (some s) = record {
  processed_on = shown s.processed_on;
  finished_on = shown s.finished_on;
  return_value = s.return_value;
  failed_reason = s.failed_reason;
  stacktrace = s.stacktrace;
  progress = s.progress;
  opts = s.opts;
  delay_millis = s.delay;
  attempts_at = s.attempts_at;
}

-- newJobView; a nil job is `none`.
unfoldable pub new_job_view : Option Job → Option JobState → JobView
unfolding state_view
new_job_view none st = record {
  id = [];
  name = [];
  timestamp = zero_time;
  attempts_made = ℤ.pos 0;
  attempts_started = ℤ.pos 0;
  stalled_counter = ℤ.pos 0;
  processed_by = [];
  payload = codes "null";
  state = state_view st;
}
new_job_view (some j) st = record {
  id = j.id;
  name = j.name;
  timestamp = j.timestamp;
  attempts_made = j.attempts_made;
  attempts_started = j.attempts_started;
  stalled_counter = j.stalled_counter;
  processed_by = j.processed_by;
  payload = or_null j.payload;
  state = state_view st;
}
