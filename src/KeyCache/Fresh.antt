-- ===== src/KeyCache/Fresh.antt =====
-- The cache of the "dir" signer never serves a stale key.
use mkqd.Base.{
  ◌≡◌, refl, sym, ◌∙◌, ap, true, Option, none, some, List, [], ◌∷◌, All, Bytes, lookup, insert,
  lookup-insert, bytes_eq_iff, bytes_eq, arith, if-elim, and-eq_true, Bool-cases, inl, inr,
}
use mkqd.Base.Int.{ℤ, pos, negsuc, eqb_ℤ}
use mkqd.KeyCache.{
  Content, KeyFile, Entry, absent, unreadable, present, Key, CachedKey, Cache, Loaded, loaded,
  not_loaded, same_file, read_content, read_entry, remember, load_present, load_entry, load,
  load_uncached, run,
}

pub eqb_ℤ-eq : (a b : ℤ) → eqb_ℤ a b ≡ true → a ≡ b
eqb_ℤ-eq (pos a) (pos b) h = ground arith
eqb_ℤ-eq (pos a) (negsuc b) h = ground arith
eqb_ℤ-eq (negsuc a) (pos b) h = ground arith
eqb_ℤ-eq (negsuc a) (negsuc b) h = ground arith

pub same_entry :
    (key_id j : Bytes) (entry hit : CachedKey) (cache : Cache)
    → bytes_eq key_id j ≡ true
    → lookup j (insert key_id entry cache) ≡ some hit
    → entry ≡ hit
same_entry key_id j entry hit cache same e =
    ground (arith, e, same, lookup-insert key_id j entry cache)

module _ (file_name : Bytes → Bytes) (parse : Bytes → Option Key)
    (content_of : Bytes → ℤ → ℤ → Content) where
  -- A file whose content is the one that its name, time of change and size stand for.
  unfoldable pub IsDated : Bytes → Entry → Type 0
  IsDated name absent = Unit
  IsDated name (unreadable e) = Unit
  IsDated name (present f) = f.content ≡ content_of name f.mod_time f.size

  -- Every cached key is the one that the remembered file holds.
  IsFresh : Cache → Type 0
  IsFresh cache =
      (key_id : Bytes) (hit : CachedKey)
      → lookup key_id cache ≡ some hit
      → read_content file_name parse (content_of (file_name key_id) hit.mod_time hit.size)
        ≡ loaded hit.key

  insert-IsFresh :
      (key_id : Bytes) (entry : CachedKey) (cache : Cache)
      → IsFresh cache
      → read_content file_name parse (content_of (file_name key_id) entry.mod_time entry.size)
        ≡ loaded entry.key
      → IsFresh (insert key_id entry cache)
  unfolding IsFresh
  insert-IsFresh key_id entry cache fresh new j hit e = elim (Bool-cases (bytes_eq key_id j)) [
    | inl same ↦
        cc ((bytes_eq_iff key_id j).0 same, same_entry key_id j entry hit cache same e, new)
    | inr other ↦ fresh j hit (ground (arith, e, other, lookup-insert key_id j entry cache))
  ]

  remember-IsFresh :
      (key_id : Bytes) (f : KeyFile) (cache : Cache) (r : Loaded)
      → IsFresh cache
      → f.content ≡ content_of (file_name key_id) f.mod_time f.size
      → read_content file_name parse f.content ≡ r
      → ((remember file_name parse key_id f cache r).0 ≡ r)
        × IsFresh ((remember file_name parse key_id f cache r).1)
  unfolding remember
  remember-IsFresh key_id f cache (not_loaded e) fresh dated h = (refl, fresh)
  remember-IsFresh key_id f cache (loaded k) fresh dated h = (
    refl,
    insert-IsFresh key_id (record { key = k; mod_time = f.mod_time; size = f.size }) cache fresh
        (ap (read_content file_name parse) (sym dated) ∙ h),
  )

  load_present-IsFresh :
      (key_id : Bytes) (f : KeyFile) (cache : Cache) (hit : Option CachedKey)
      → IsFresh cache
      → f.content ≡ content_of (file_name key_id) f.mod_time f.size
      → lookup key_id cache ≡ hit
      → ((load_present file_name parse key_id f cache hit).0
          ≡ read_content file_name parse f.content)
        × IsFresh ((load_present file_name parse key_id f cache hit).1)
  unfolding load_present IsFresh
  load_present-IsFresh key_id f cache none fresh dated h =
      remember-IsFresh key_id f cache _ fresh dated refl
  load_present-IsFresh key_id f cache (some hit) fresh dated h =
      if-elim (λ (r : Loaded × Cache). (r.0 ≡ read_content file_name parse f.content) × IsFresh r.1)
        (same_file hit f) (loaded hit.key, cache)
        (remember file_name parse key_id f cache (read_content file_name parse f.content))
        (λ same. (
          unchanged ((and-eq_true (eqb_ℤ hit.mod_time f.mod_time) (eqb_ℤ hit.size f.size)).0 same),
          fresh,
        ))
        (λ _. remember-IsFresh key_id f cache _ fresh dated refl)
    where
      unchanged :
          (eqb_ℤ hit.mod_time f.mod_time ≡ true) × (eqb_ℤ hit.size f.size ≡ true)
          → loaded hit.key ≡ read_content file_name parse f.content
      unchanged (a, b) = cc (
        fresh key_id hit h,
        dated,
        eqb_ℤ-eq hit.mod_time f.mod_time a,
        eqb_ℤ-eq hit.size f.size b,
      )

  load_entry-IsFresh :
      (key_id : Bytes) (x : Entry) (cache : Cache)
      → IsFresh cache
      → IsDated (file_name key_id) x
      → ((load_entry file_name parse key_id x cache).0 ≡ read_entry file_name parse x)
        × IsFresh ((load_entry file_name parse key_id x cache).1)
  unfolding load_entry read_entry IsDated
  load_entry-IsFresh key_id absent cache fresh dated = (refl, fresh)
  load_entry-IsFresh key_id (unreadable e) cache fresh dated = (refl, fresh)
  load_entry-IsFresh key_id (present f) cache fresh dated =
      load_present-IsFresh key_id f cache (lookup key_id cache) fresh dated refl

  run-IsFresh :
      (loads : List ((Bytes → Entry) × Bytes)) (cache : Cache)
      → IsFresh cache
      → All (λ l. IsDated (file_name l.1) (l.0 (file_name l.1))) loads
      → IsFresh (run file_name parse loads cache)
  unfolding run load
  run-IsFresh [] cache fresh dated = fresh
  run-IsFresh ((disk, key_id) ∷ rest) cache fresh dated =
      run-IsFresh rest _ (load_entry-IsFresh key_id (disk (file_name key_id)) cache fresh dated.0).1
        dated.1

  nil-IsFresh : IsFresh []
  unfolding IsFresh lookup
  nil-IsFresh j hit e = ground arith

  -- After any loads, of any keys and while files of the directory come, go and change, a load gives
  -- the key or the error that it would give without a cache, provided that what a key file holds
  -- does not change without its time of change or its size.
  pub load-uncached :
      (loads : List ((Bytes → Entry) × Bytes)) (disk : Bytes → Entry) (key_id : Bytes)
      → All (λ l. IsDated (file_name l.1) (l.0 (file_name l.1))) loads
      → IsDated (file_name key_id) (disk (file_name key_id))
      → (load file_name parse disk key_id (run file_name parse loads [])).0
        ≡ load_uncached file_name parse disk key_id
  unfolding load IsFresh
  load-uncached loads disk key_id past now =
      (load_entry-IsFresh key_id (disk (file_name key_id)) (run file_name parse loads [])
        (run-IsFresh loads [] nil-IsFresh past) now).0
