-- ===== src/KeyCache/Timely.antt =====
-- Loads of the "dir" signer that run side by side: what each of them gives was in its file meanwhile.
use mkqd.Base.{ℕ, zero, suc, ◌+◌, ◌≤◌, ◌≡◌, Option, List, [], ◌∷◌, Bytes, lookup, All, arith}
use mathlib.Core.Path.{subst}
use mkqd.KeyCache.Concurrent.{
  over, Call, State, Event, tick, call, turn_of, take_turn, step, run_events, idle,
}
use mkqd.KeyCache.{Entry, Key, Cache, Loaded}
use mkqd.KeyCache.Course.{
  Answers, under, IsSteady, IsBacked, IsOnCourse, IsBacked-later, IsOnCourse-later, turn-IsOnCourse,
}

module _ (file_name : Bytes → Bytes) (parse : Bytes → Option Key)
    (disk_at : ℕ → Bytes → Entry) where
  abbrev AreOnCourse : ℕ → List Call → Type 0
  AreOnCourse now calls =
      All (λ c. IsOnCourse file_name parse disk_at now c.key_id c.began c.progress) calls

  module _ (steady : IsSteady file_name parse disk_at) where
    IsSound : State → Type 0
    IsSound s = IsBacked file_name parse disk_at s.now s.cache × AreOnCourse s.now s.calls

    take_turn-IsSound :
        (now i : ℕ) (cache : Cache) (calls : List Call)
        → IsBacked file_name parse disk_at now cache
        → AreOnCourse now calls
        → IsBacked file_name parse disk_at now
            (take_turn file_name parse disk_at now i cache calls).1
          × AreOnCourse now (take_turn file_name parse disk_at now i cache calls).0
    unfolding take_turn
    take_turn-IsSound now i cache [] backed h = (backed, h)
    take_turn-IsSound now zero cache (c ∷ calls) backed h =
        let (on, kept) =
          turn-IsOnCourse file_name parse disk_at steady now c.key_id c.began cache c.progress
            backed h.0 in
        (kept, (on, h.1))
    take_turn-IsSound now (suc i) cache (c ∷ calls) backed h =
        let (kept, rest) = take_turn-IsSound now i cache calls backed h.1 in (kept, (h.0, rest))

    All-later : (now : ℕ) (calls : List Call) → AreOnCourse now calls → AreOnCourse (now + 1) calls
    All-later now [] h = tt
    All-later now (c ∷ calls) h = (
      IsOnCourse-later file_name parse disk_at now c.key_id c.began c.progress h.0,
      All-later now calls h.1,
    )

    step-IsSound : (e : Event) (s : State) → IsSound s → IsSound (step file_name parse disk_at e s)
    unfolding step IsSound IsOnCourse
    step-IsSound tick s h =
        (IsBacked-later file_name parse disk_at s.now s.cache h.0, All-later s.now s.calls h.1)
    step-IsSound (call key_id) s h = (h.0, (omega arith, h.1))
    step-IsSound (turn_of i) s h = take_turn-IsSound s.now i s.cache s.calls h.0 h.1

    run_events-IsSound :
        (es : List Event) (s : State)
        → IsSound s
        → IsSound (run_events file_name parse disk_at es s)
    unfolding run_events
    run_events-IsSound [] s h = h
    run_events-IsSound (e ∷ es) s h = run_events-IsSound es _ (step-IsSound e s h)

  -- What a call that is over gave was under its path at some time since it began.
  abbrev pub IsTimely : ℕ → Call → Type 0
  IsTimely now c =
      (r : Loaded)
      → c.progress ≡ over r
      → (w : ℕ) × (c.began ≤ w)
        × (w ≤ now)
        × Answers file_name parse r (under file_name parse disk_at w c.key_id)

  All-IsTimely : (now : ℕ) (calls : List Call) → AreOnCourse now calls → All (IsTimely now) calls
  unfolding IsOnCourse
  All-IsTimely now [] h = tt
  All-IsTimely now (c ∷ calls) h = (
    λ r e. subst (IsOnCourse file_name parse disk_at now c.key_id c.began) e h.0,
    All-IsTimely now calls h.1,
  )

  -- Loads run side by side in any way, while files change. A load that is over has given what
  -- os.Stat or os.ReadFile of its file led to at some time since it began, provided that a file
  -- which keeps, or has again, its time of change and its size has held the same all the while.
  pub run_events-IsTimely :
      IsSteady file_name parse disk_at
      → (es : List Event)
      → All
          (IsTimely (run_events file_name parse disk_at es idle).now)
          (run_events file_name parse disk_at es idle).calls
  unfolding IsSound IsBacked lookup
  run_events-IsTimely steady es =
      All-IsTimely _ _ (run_events-IsSound steady es idle (λ k hit e. absurd (cc), tt)).1
