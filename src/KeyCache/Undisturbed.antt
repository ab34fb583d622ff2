-- ===== src/KeyCache/Undisturbed.antt =====
-- The turns of a load of the "dir" signer, one after the other, are (*dirSigner).load.
use mkqd.Base.{◌≡◌, refl, Bool-cases, inl, inr, Option, none, some, Bytes, lookup}
use mkqd.KeyCache.Concurrent.{begun, over, read_file, stat, look_up, after_read, turn, undisturbed}
use mkqd.KeyCache.{
  KeyFile, Entry, absent, unreadable, present, Key, CachedKey, Cache, Loaded, loaded, not_loaded,
  same_file, load_entry, load_present, remember,
}

module _ (file_name : Bytes → Bytes) (parse : Bytes → Option Key) where
  undisturbed-after_read :
      (key_id : Bytes) (x : Entry) (f : KeyFile) (cache : Cache) (r : Loaded)
      → undisturbed file_name parse 1 key_id x (after_read f r, cache) ≡ (
        over (remember file_name parse key_id f cache r).0,
        (remember file_name parse key_id f cache r).1,
      )
  unfolding undisturbed turn after_read remember
  undisturbed-after_read key_id x f cache (not_loaded e) = refl
  undisturbed-after_read key_id x f cache (loaded k) = refl

  undisturbed-look_up :
      (key_id : Bytes) (f : KeyFile) (cache : Cache) (hit : Option CachedKey)
      → undisturbed file_name parse 2 key_id (present f) (look_up f hit, cache) ≡ (
        over (load_present file_name parse key_id f cache hit).0,
        (load_present file_name parse key_id f cache hit).1,
      )
  unfolding undisturbed turn load_present look_up read_file
  undisturbed-look_up key_id f cache none = undisturbed-after_read key_id (present f) f cache _
  undisturbed-look_up key_id f cache (some hit) = elim (Bool-cases (same_file hit f)) [
    | inl e ↦ rw e refl
    | inr e ↦ rw e (undisturbed-after_read key_id (present f) f cache _)
  ]

  -- A call that nothing comes between is a load, in its result and in the cache that it leaves.
  undisturbed-load_entry :
      (key_id : Bytes) (x : Entry) (cache : Cache)
      → undisturbed file_name parse 4 key_id x (begun, cache) ≡ (
        over (load_entry file_name parse key_id x cache).0,
        (load_entry file_name parse key_id x cache).1,
      )
  unfolding undisturbed turn load_entry stat
  undisturbed-load_entry key_id absent cache = refl
  undisturbed-load_entry key_id (unreadable e) cache = refl
  undisturbed-load_entry key_id (present f) cache =
      undisturbed-look_up key_id f cache (lookup key_id cache)
