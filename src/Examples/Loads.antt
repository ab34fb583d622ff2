-- ===== src/Examples/Loads.antt =====
-- Loads of the "dir" signer that run side by side, with a key that is rotated meanwhile.
use mkqd.Base.{
  ℕ, zero, suc, ◌≡◌, refl, Option, some, List, [], ◌∷◌, Bytes, codes, All, map, lookup, insert,
  arith, bytes_eq,
}
use mkqd.Base.Int.{pos}
use mkqd.KeyCache.Concurrent.{
  Progress, over, Call, State, Event, tick, call, turn_of, run_events, idle,
}
use mkqd.KeyCache.Course.{IsSteady}
use mkqd.KeyCache.Timely.{IsTimely, run_events-IsTimely}
use mkqd.KeyCache.{KeyFile, Entry, present, holds, loaded, Loaded}

abbrev name_of : Bytes → Bytes
name_of key_id = key_id

abbrev parse_key : Bytes → Option Bytes
parse_key pem = some pem

-- The old key at first, and the new one from then on.
abbrev rotated : ℕ → Bytes → Entry
rotated zero name =
    present (record { mod_time = pos 1; size = pos 3; content = holds (codes "old") })
rotated (suc t) name =
    present (record { mod_time = pos 2; size = pos 3; content = holds (codes "new") })

rotated-IsSteady : IsSteady name_of parse_key rotated
rotated-IsSteady key_id zero zero zero f g h a b p q r m s = cc
rotated-IsSteady key_id zero zero (suc v) f g h a b p q r m s = absurd (ground arith)
rotated-IsSteady key_id zero (suc u) zero f g h a b p q r m s = absurd (omega arith)
rotated-IsSteady key_id zero (suc u) (suc v) f g h a b p q r m s = cc
rotated-IsSteady key_id (suc t) zero v f g h a b p q r m s = absurd (omega arith)
rotated-IsSteady key_id (suc t) (suc u) zero f g h a b p q r m s = absurd (omega arith)
rotated-IsSteady key_id (suc t) (suc u) (suc v) f g h a b p q r m s = cc

-- The old key at first, then the new one, and then the old file again, with its time of change.
abbrev restored : ℕ → Bytes → Entry
restored (suc zero) name = rotated 1 name
restored t name = rotated 0 name

-- A load that is rotated between its os.Stat and its os.ReadFile leaves the new key under the old date,
-- and a load that begins when the old file is back gives the new key.
restored_stale :
    map
      (λ c. c.progress)
      (run_events name_of parse_key restored
        (call (codes "k")
          ∷ turn_of 0
          ∷ turn_of 0
          ∷ tick
          ∷ turn_of 0
          ∷ turn_of 0
          ∷ tick
          ∷ call (codes "k")
          ∷ turn_of 0
          ∷ turn_of 0
          ∷ [])
        idle).calls
    ≡ over (loaded (codes "new")) ∷ over (loaded (codes "new")) ∷ []
unfolding run_events mkqd.KeyCache.Concurrent.stat mkqd.KeyCache.Concurrent.look_up
    mkqd.KeyCache.Concurrent.after_read mkqd.KeyCache.Concurrent.read_file
    mkqd.KeyCache.read_content lookup insert bytes_eq
restored_stale = refl

-- Two loads at the rotation: the second begins between the os.Stat and the os.ReadFile of the first.
abbrev at_rotation : List Event
at_rotation =
    call (codes "k")
    ∷ turn_of 0
    ∷ turn_of 0
    ∷ tick
    ∷ call (codes "k")
    ∷ turn_of 1
    ∷ turn_of 1
    ∷ turn_of 0
    ∷ turn_of 0
    ∷ []

run_events-IsTimely_example :
    All
      (IsTimely name_of parse_key rotated
        (run_events name_of parse_key rotated at_rotation idle).now)
      (run_events name_of parse_key rotated at_rotation idle).calls
run_events-IsTimely_example =
    run_events-IsTimely name_of parse_key rotated rotated-IsSteady at_rotation
