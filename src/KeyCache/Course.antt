-- ===== src/KeyCache/Course.antt =====
-- What holds of a load of the "dir" signer at each of its turns, and of the cache between them.
use mkqd.Base.{
  ℕ, ◌+◌, ◌≤◌, ◌≡◌, refl, sym, ap, ◌∙◌, Bool-cases, inl, inr, ◌⊎◌, Option, none, some, Bytes,
  lookup, insert, lookup-insert, bytes_eq, bytes_eq_iff, arith, if-elim, and-eq_true,
}
use mathlib.Core.Path.{subst}
use mkqd.Base.Int.{eqb_ℤ}
use mkqd.KeyCache.Concurrent.{
  Progress, begun, statted, missed, read, over, read_file, stat, look_up, after_read, dated, turn,
}
use mkqd.KeyCache.Fresh.{eqb_ℤ-eq, same_entry}
use mkqd.KeyCache.{
  KeyFile, Entry, absent, unreadable, present, Key, CachedKey, Cache, Loaded, loaded, not_loaded,
  same_file, read_content, read_entry,
}
use native.Mathlib.Decide.{dec_lt}

module _ (file_name : Bytes → Bytes) (parse : Bytes → Option Key) where
  -- What a call may give for what stands under its path: it meets that by os.Stat or by os.ReadFile.
  abbrev pub Answers : Loaded → Entry → Type 0
  Answers r x =
      (r ≡ read_entry file_name parse x) ⊎ (r ≡ read_content file_name parse (read_file x))

  module _ (disk_at : ℕ → Bytes → Entry) where
    abbrev pub under : ℕ → Bytes → Entry
    under t key_id = disk_at t (file_name key_id)

    -- A file that keeps, or has again, its time of change and its size has held the same all the while.
    abbrev pub IsSteady : Type 0
    IsSteady =
        (key_id : Bytes) (t u v : ℕ) (f g h : KeyFile)
        → t ≤ u
        → u ≤ v
        → under t key_id ≡ present f
        → under u key_id ≡ present g
        → under v key_id ≡ present h
        → f.mod_time ≡ h.mod_time
        → f.size ≡ h.size
        → g.content ≡ h.content

    -- A key that was read after the os.Stat that dates it.
    pub record WasRead (now : ℕ) (key_id : Bytes) (f : KeyFile) (k : Key) : Type 0 where
      pub stat_at : ℕ
      pub read_at : ℕ
      pub in_order : stat_at ≤ read_at
      pub past : read_at ≤ now
      pub found : under stat_at key_id ≡ present f
      pub held : read_content file_name parse (read_file (under read_at key_id)) ≡ loaded k

    unfoldable pub IsDatedBy : CachedKey → KeyFile → Type 0
    IsDatedBy hit f = (f.mod_time ≡ hit.mod_time) × (f.size ≡ hit.size)

    unfoldable pub Backing : ℕ → Bytes → CachedKey → Type 0
    Backing now key_id hit = (f : KeyFile) × IsDatedBy hit f × WasRead now key_id f hit.key

    unfoldable pub IsBacked : ℕ → Cache → Type 0
    IsBacked now cache =
        (key_id : Bytes) (hit : CachedKey) → lookup key_id cache ≡ some hit → Backing now key_id hit

    abbrev pub Done : ℕ → Bytes → ℕ → Loaded → Type 0
    Done now key_id began r = (w : ℕ) × (began ≤ w) × (w ≤ now) × Answers r (under w key_id)

    unfoldable pub IsOnCourse : ℕ → Bytes → ℕ → Progress → Type 0
    IsOnCourse now key_id began begun = began ≤ now
    IsOnCourse now key_id began (statted f) =
        (t : ℕ) × (began ≤ t) × (t ≤ now) × (under t key_id ≡ present f)
    IsOnCourse now key_id began (missed f) =
        (t : ℕ) × (began ≤ t) × (t ≤ now) × (under t key_id ≡ present f)
    IsOnCourse now key_id began (read f k) = (w : WasRead now key_id f k) × (began ≤ w.stat_at)
    IsOnCourse now key_id began (over r) = Done now key_id began r

    held_present :
        (x : Entry) (k : Key)
        → read_content file_name parse (read_file x) ≡ loaded k
        → (h : KeyFile) × (x ≡ present h) × (read_content file_name parse h.content ≡ loaded k)
    unfolding read_content read_file
    held_present absent k e = absurd (cc)
    held_present (unreadable o) k e = absurd (cc)
    held_present (present h) k e = (h, refl, e)

    -- As time passes.
    WasRead-later :
        (now : ℕ) (key_id : Bytes) (f : KeyFile) (k : Key)
        → WasRead now key_id f k
        → WasRead (now + 1) key_id f k
    WasRead-later now key_id f k w = record {
      stat_at = w.stat_at;
      read_at = w.read_at;
      in_order = w.in_order;
      past = omega (arith, w.past);
      found = w.found;
      held = w.held;
    }

    pub IsBacked-later : (now : ℕ) (cache : Cache) → IsBacked now cache → IsBacked (now + 1) cache
    unfolding IsBacked Backing
    IsBacked-later now cache h key_id hit e =
        let (f, d, w) = h key_id hit e in (f, d, WasRead-later now key_id f hit.key w)

    pub IsOnCourse-later :
        (now : ℕ) (key_id : Bytes) (began : ℕ) (p : Progress)
        → IsOnCourse now key_id began p
        → IsOnCourse (now + 1) key_id began p
    unfolding IsOnCourse WasRead-later
    IsOnCourse-later now key_id began begun h = omega arith
    IsOnCourse-later now key_id began (statted f) (t, b, p, e) = (t, b, omega arith, e)
    IsOnCourse-later now key_id began (missed f) (t, b, p, e) = (t, b, omega arith, e)
    IsOnCourse-later now key_id began (read f k) (w, b) = (WasRead-later now key_id f k w, b)
    IsOnCourse-later now key_id began (over r) (t, b, p, e) = (t, b, omega arith, e)

    -- Each turn.
    stat-IsOnCourse :
        (now : ℕ) (key_id : Bytes) (began : ℕ) (x : Entry)
        → began ≤ now
        → under now key_id ≡ x
        → IsOnCourse now key_id began (stat x)
    unfolding IsOnCourse stat read_entry
    stat-IsOnCourse now key_id began absent b e = (now, b, omega arith, inl (rw e refl))
    stat-IsOnCourse now key_id began (unreadable o) b e = (now, b, omega arith, inl (rw e refl))
    stat-IsOnCourse now key_id began (present f) b e = (now, b, omega arith, e)

    after_read-IsOnCourse :
        (now t : ℕ) (key_id : Bytes) (began : ℕ) (f : KeyFile) (r : Loaded)
        → began ≤ t
        → t ≤ now
        → under t key_id ≡ present f
        → read_content file_name parse (read_file (under now key_id)) ≡ r
        → IsOnCourse now key_id began (after_read f r)
    unfolding IsOnCourse after_read
    after_read-IsOnCourse now t key_id began f (not_loaded o) b p e h =
        (now, omega arith, omega arith, inr (sym h))
    after_read-IsOnCourse now t key_id began f (loaded k) b p e h = (
      record { stat_at = t; read_at = now; in_order = p; past = omega arith; found = e; held = h },
      b,
    )

    insert-IsBacked :
        (now : ℕ) (key_id : Bytes) (f : KeyFile) (k : Key) (cache : Cache)
        → IsBacked now cache
        → WasRead now key_id f k
        → IsBacked now (insert key_id (dated f k) cache)
    unfolding IsBacked Backing IsDatedBy
    insert-IsBacked now key_id f k cache backed w j hit e = elim (Bool-cases (bytes_eq key_id j)) [
      | inl same ↦ subst (Backing now j) (same_entry key_id j (dated f k) hit cache same e) (
          subst (λ i. Backing now i (dated f k)) ((bytes_eq_iff key_id j).0 same)
            (f, (refl, refl), w))
      | inr other ↦
          backed j hit (ground (arith, e, other, lookup-insert key_id j (dated f k) cache))
    ]

    module _ (steady : IsSteady) where
      -- A cached key with the date that os.Stat found.
      hit-Done :
          (now t began : ℕ) (key_id : Bytes) (f g : KeyFile) (k : Key)
          → began ≤ t
          → t ≤ now
          → under t key_id ≡ present f
          → g.mod_time ≡ f.mod_time
          → g.size ≡ f.size
          → WasRead now key_id g k
          → Done now key_id began (loaded k)
      unfolding read_entry
      hit-Done now t began key_id f g k b p e m s w = elim (dec_lt t w.read_at) [
        | yes later ↦ (w.read_at, omega arith, w.past, inr (sym w.held))
        | no earlier ↦
            let (h, q, r) = held_present (under w.read_at key_id) k w.held in
            let kept =
              steady key_id w.stat_at w.read_at t g h f w.in_order (omega arith) w.found q e m s in
            (
              t,
              b,
              p,
              inl (
                  sym (
                    ap (read_entry file_name parse) e
                    ∙ (ap (read_content file_name parse) (sym kept) ∙ r))),
            )
      ]

      look_up-IsOnCourse :
          (now t : ℕ) (key_id : Bytes) (began : ℕ) (f : KeyFile) (cache : Cache)
          (hit : Option CachedKey)
          → IsBacked now cache
          → began ≤ t
          → t ≤ now
          → under t key_id ≡ present f
          → lookup key_id cache ≡ hit
          → IsOnCourse now key_id began (look_up f hit)
      unfolding IsOnCourse look_up IsBacked Backing IsDatedBy
      look_up-IsOnCourse now t key_id began f cache none backed b p e h = (t, b, p, e)
      look_up-IsOnCourse now t key_id began f cache (some hit) backed b p e h =
          let (g, d, w) = backed key_id hit h in
          if-elim (IsOnCourse now key_id began) (same_file hit f) (over (loaded hit.key)) (missed f)
            (λ same.
              let (a, z) =
                (and-eq_true (eqb_ℤ hit.mod_time f.mod_time) (eqb_ℤ hit.size f.size)).0 same in
              hit-Done now t began key_id f g hit.key b p e
                (d.0 ∙ eqb_ℤ-eq hit.mod_time f.mod_time a) (d.1 ∙ eqb_ℤ-eq hit.size f.size z) w)
            (λ _. (t, b, p, e))

      pub turn-IsOnCourse :
          (now : ℕ) (key_id : Bytes) (began : ℕ) (cache : Cache) (p : Progress)
          → IsBacked now cache
          → IsOnCourse now key_id began p
          → IsOnCourse now key_id began (turn file_name parse key_id (under now key_id) cache p).0
            × IsBacked now (turn file_name parse key_id (under now key_id) cache p).1
      unfolding turn IsOnCourse
      turn-IsOnCourse now key_id began cache begun backed h =
          (stat-IsOnCourse now key_id began (under now key_id) h refl, backed)
      turn-IsOnCourse now key_id began cache (statted f) backed (t, b, p, e) = (
        look_up-IsOnCourse now t key_id began f cache (lookup key_id cache) backed b p e refl,
        backed,
      )
      turn-IsOnCourse now key_id began cache (missed f) backed (t, b, p, e) =
          (after_read-IsOnCourse now t key_id began f _ b p e refl, backed)
      turn-IsOnCourse now key_id began cache (read f k) backed (w, b) = (
        (w.read_at, omega arith, w.past, inr (sym w.held)),
        insert-IsBacked now key_id f k cache backed w,
      )
      turn-IsOnCourse now key_id began cache (over r) backed h = (h, backed)
