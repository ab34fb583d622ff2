-- ===== src/KeyCache/Concurrent.antt =====
-- (*dirSigner).load, called by goroutines side by side. A call takes a turn at a time: os.Stat, the look
-- into the cache under RLock, os.ReadFile with ParsePrivateKey, and the write to the cache under Lock;
-- files change between any two turns.
use mkqd.Base.{
  ℕ, zero, suc, ◌+◌, Option, none, some, List, [], ◌∷◌, Bytes, codes, lookup, insert, if◌then◌else◌,
}
use mkqd.KeyCache.{
  Content, gone, read_error, KeyFile, Entry, absent, unreadable, present, Key, CachedKey, Cache,
  Loaded, loaded, not_loaded, same_file, read_content,
}
use mkqd.RetryAfter.Errors.{wrap, unknown_key}

-- Where a call of load stands.
pub data Progress : Type 0 where
  begun : Progress
  statted missed : KeyFile → Progress
  read : KeyFile → Key → Progress
  over : Loaded → Progress

pub record Call : Type 0 where
  pub key_id : Bytes
  pub began : ℕ
  pub progress : Progress

-- `calls` are all calls so far, the latest first, and `now` is the time.
pub record State : Type 0 where
  pub now : ℕ
  pub cache : Cache
  pub calls : List Call

pub data Event : Type 0 where
  tick : Event
  call : Bytes → Event
  turn_of : ℕ → Event

-- os.ReadFile on what stands under the path.
unfoldable pub read_file : Entry → Content
read_file absent = gone
read_file (unreadable e) = read_error e
read_file (present f) = f.content

unfoldable pub stat : Entry → Progress
stat absent = over (not_loaded (wrap (codes "absent") unknown_key))
stat (unreadable e) = over (not_loaded (wrap (codes "stat") e))
stat (present f) = statted f

unfoldable pub look_up : KeyFile → Option CachedKey → Progress
look_up f none = missed f
look_up f (some hit) = if same_file hit f then over (loaded hit.key) else missed f

unfoldable pub after_read : KeyFile → Loaded → Progress
after_read f (not_loaded e) = over (not_loaded e)
after_read f (loaded k) = read f k

abbrev pub dated : KeyFile → Key → CachedKey
dated f k = record { key = k; mod_time = f.mod_time; size = f.size }

module _ (file_name : Bytes → Bytes) (parse : Bytes → Option Key) where
  -- A turn of a call, on what then stands under its path.
  unfoldable pub turn : Bytes → Entry → Cache → Progress → Progress × Cache
  turn key_id x cache begun = (stat x, cache)
  turn key_id x cache (statted f) = (look_up f (lookup key_id cache), cache)
  turn key_id x cache (missed f) =
      (after_read f (read_content file_name parse (read_file x)), cache)
  turn key_id x cache (read f k) = (over (loaded k), insert key_id (dated f k) cache)
  turn key_id x cache (over r) = (over r, cache)

  abbrev turn_again : Bytes → Entry → Progress × Cache → Progress × Cache
  turn_again key_id x (p, cache) = turn key_id x cache p

  -- The turns of a call that nothing comes between.
  unfoldable pub undisturbed : ℕ → Bytes → Entry → Progress × Cache → Progress × Cache
  undisturbed zero key_id x r = r
  undisturbed (suc n) key_id x r = undisturbed n key_id x (turn_again key_id x r)

  -- Files over time.
  module _ (disk_at : ℕ → Bytes → Entry) where
    abbrev moved : Call → Progress × Cache → List Call → List Call × Cache
    moved c (p, cache) rest = (record c { progress = p } ∷ rest, cache)

    abbrev behind : Call → List Call × Cache → List Call × Cache
    behind c (rest, cache) = (c ∷ rest, cache)

    -- The call at an index takes a turn.
    unfoldable pub take_turn : ℕ → ℕ → Cache → List Call → List Call × Cache
    unfolding turn
    take_turn now i cache [] = ([], cache)
    take_turn now zero cache (c ∷ rest) =
        moved c (turn c.key_id (disk_at now (file_name c.key_id)) cache c.progress) rest
    take_turn now (suc i) cache (c ∷ rest) = behind c (take_turn now i cache rest)

    abbrev with_calls : State → List Call × Cache → State
    with_calls s (calls, cache) = record s { calls = calls; cache = cache }

    unfoldable pub step : Event → State → State
    unfolding take_turn
    step tick s = record s { now = s.now + 1 }
    step (call key_id) s = record s {
      calls = record { key_id = key_id; began = s.now; progress = begun } ∷ s.calls;
    }
    step (turn_of i) s = with_calls s (take_turn s.now i s.cache s.calls)

    unfoldable pub run_events : List Event → State → State
    unfolding step
    run_events [] s = s
    run_events (e ∷ es) s = run_events es (step e s)

abbrev pub idle : State
idle = record { now = 0; cache = []; calls = [] }
