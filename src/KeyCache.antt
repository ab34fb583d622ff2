-- ===== src/KeyCache.antt =====
-- executor/apdeliver/signer.go: the "dir" signer, with its cache of parsed keys. The directory is a
-- parameter that may change between calls; `file_name` is KeyFileName, a SHA-256 in hexadecimal, and
-- `parse` is httpsig.ParsePrivateKey.
pub mod Fresh
pub mod DirSigner
pub mod Signers
pub mod Concurrent
pub mod Course
pub mod Timely
pub mod Undisturbed
use mkqd.Base.{
  ℕ, Bool, true, false, ◌&&◌, Option, none, some, List, [], ◌∷◌, Bytes, codes, is_empty, lookup,
  insert, if◌then◌else◌,
}
use mkqd.Base.Int.{ℤ, eqb_ℤ}
use mkqd.HttpSig.{SignResult, signed, failed, algorithm_rsa_sha256}
use mkqd.RetryAfter.Errors.{Error, wrap, message, unknown_key}

-- What os.ReadFile gives: the bytes, that the file is gone, or another error.
pub data Content : Type 0 where
  holds : Bytes → Content
  gone : Content
  read_error : Error → Content

-- A key file: what os.Stat tells, and what os.ReadFile gives.
pub record KeyFile : Type 0 where
  pub mod_time : ℤ
  pub size : ℤ
  pub content : Content

-- What stands under a path.
pub data Entry : Type 0 where
  absent : Entry
  unreadable : Error → Entry
  present : KeyFile → Entry

-- The private keys of crypto/rsa stand as their encoding.
abbrev pub Key : Type 0
Key = Bytes

-- cachedKey.
pub record CachedKey : Type 0 where
  pub key : Key
  pub mod_time : ℤ
  pub size : ℤ

abbrev pub Cache : Type 0
Cache = List (Bytes × CachedKey)

pub data Loaded : Type 0 where
  loaded : Key → Loaded
  not_loaded : Error → Loaded

abbrev pub same_file : CachedKey → KeyFile → Bool
same_file hit f = eqb_ℤ hit.mod_time f.mod_time && eqb_ℤ hit.size f.size

module _ (file_name : Bytes → Bytes) (parse : Bytes → Option Key) where
  abbrev parsed : Option Key → Loaded
  parsed none = not_loaded (message (codes "no key"))
  parsed (some k) = loaded k

  -- ReadFile and ParsePrivateKey.
  unfoldable pub read_content : Content → Loaded
  read_content gone = not_loaded (wrap (codes "absent") unknown_key)
  read_content (read_error e) = not_loaded (wrap (codes "read") e)
  read_content (holds b) = parsed (parse b)

  unfoldable pub remember : Bytes → KeyFile → Cache → Loaded → Loaded × Cache
  remember key_id f cache (not_loaded e) = (not_loaded e, cache)
  remember key_id f cache (loaded k) =
      (loaded k, insert key_id (record { key = k; mod_time = f.mod_time; size = f.size }) cache)

  -- load, on a file that is there.
  unfoldable pub load_present : Bytes → KeyFile → Cache → Option CachedKey → Loaded × Cache
  unfolding read_content remember
  load_present key_id f cache none = remember key_id f cache (read_content f.content)
  load_present key_id f cache (some hit) =
      if same_file hit f
      then (loaded hit.key, cache)
      else remember key_id f cache (read_content f.content)

  -- load, on what stands under the path, with the cache it leaves.
  unfoldable pub load_entry : Bytes → Entry → Cache → Loaded × Cache
  unfolding load_present
  load_entry key_id absent cache = (not_loaded (wrap (codes "absent") unknown_key), cache)
  load_entry key_id (unreadable e) cache = (not_loaded (wrap (codes "stat") e), cache)
  load_entry key_id (present f) cache = load_present key_id f cache (lookup key_id cache)

  -- load.
  unfoldable pub load : (Bytes → Entry) → Bytes → Cache → Loaded × Cache
  unfolding load_entry
  load disk key_id cache = load_entry key_id (disk (file_name key_id)) cache

  -- Loads one after the other, each with the directory as it then is.
  unfoldable pub run : List ((Bytes → Entry) × Bytes) → Cache → Cache
  unfolding load
  run [] cache = cache
  run ((disk, key_id) ∷ rest) cache = run rest ((load disk key_id cache).1)

  -- What load would give without a cache.
  unfoldable pub read_entry : Entry → Loaded
  unfolding read_content
  read_entry absent = not_loaded (wrap (codes "absent") unknown_key)
  read_entry (unreadable e) = not_loaded (wrap (codes "stat") e)
  read_entry (present f) = read_content f.content

  abbrev pub load_uncached : (Bytes → Entry) → Bytes → Loaded
  load_uncached disk key_id = read_entry (disk (file_name key_id))
