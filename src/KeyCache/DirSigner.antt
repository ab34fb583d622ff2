-- ===== src/KeyCache/DirSigner.antt =====
-- dirSigner.Sign of executor/apdeliver/signer.go. `rsa_sign` signs a hash with a private key.
use mkqd.Base.{
  ◌≡◌, ◌≢◌, sym, ap, ◌∙◌, inl, inr, Bool, Option, none, some, Option-cases, List, [], Bytes, codes,
  is_empty, is_empty-false, All, if◌then◌else◌,
}
use mkqd.Base.Int.{ℤ}
use mkqd.HttpMessage.{Request}
use mkqd.HttpSig.Keys.{LocalSigner, new_local_signer}
use mkqd.HttpSig.Local.{IsKeyPair, local_sign, verify-local_sign}
use mkqd.HttpSig.RoundTrip.{IsBase64}
use mkqd.HttpSig.{
  Crypto, Signer, SignResult, failed, ready, accepted, sign_request, verify, signing_string,
  with_digest, default_headers, attach,
}
use mkqd.KeyCache.Fresh.{IsDated, load-uncached}
use mkqd.KeyCache.{Content, Entry, Key, Cache, Loaded, loaded, not_loaded, load, run, load_uncached}
use mkqd.RetryAfter.Errors.{message, wrap, unknown_key}

-- SignRequest asks its signer for one key id only.
sign_request-signer :
    (c : Crypto) (now body key_id : Bytes) (req : Request) (f g : Signer)
    → ((s : Bytes) → f key_id s ≡ g key_id s)
    → sign_request c now req body key_id (some f) ≡ sign_request c now req body key_id (some g)
unfolding sign_request
sign_request-signer c now body key_id req f g h =
    elim (Option-cases (signing_string (with_digest c now body req) default_headers)) [
      | inl n ↦ rw (n, sign_request)
      | inr (s, e) ↦ rw (e, sign_request) (ap (attach c (with_digest c now body req)) (h s))
    ]

module _ (c : Crypto) (rsa_sign : Key → Bytes → Option Bytes) where
  -- Sign, from the local signer on.
  unfoldable pub sign_with : Option LocalSigner → Bytes → Bytes → SignResult
  sign_with none key_id s = failed (message (codes "httpsig"))
  sign_with (some signer) key_id s = local_sign c (rsa_sign signer.1) signer.0 key_id s

  -- Sign, from the answer of load on.
  unfoldable pub sign_loaded : Bytes → Bytes → Loaded → SignResult
  unfolding sign_with
  sign_loaded key_id s (not_loaded e) = failed e
  sign_loaded key_id s (loaded k) = sign_with (new_local_signer key_id (some k)) key_id s

  module _ (file_name : Bytes → Bytes) (parse : Bytes → Option Key) where
    -- Sign, with the cache that it leaves.
    unfoldable pub dir_sign : (Bytes → Entry) → Cache → Bytes → Bytes → SignResult × Cache
    unfolding sign_loaded
    dir_sign disk cache key_id s =
        let found = load file_name parse disk key_id cache in
        if is_empty key_id
        then (failed (wrap (codes "no default key") unknown_key), cache)
        else (sign_loaded key_id s found.0, found.1)

    sign_loaded-local_sign :
        (key_id s : Bytes) (k : Key)
        → key_id ≢ []
        → sign_loaded key_id s (loaded k) ≡ local_sign c (rsa_sign k) key_id key_id s
    unfolding sign_loaded sign_with new_local_signer
    sign_loaded-local_sign key_id s k n =
        ap (λ b. sign_with (if b then none else some (key_id, k)) key_id s)
          (is_empty-false key_id n)

    dir_sign-sign_loaded :
        (disk : Bytes → Entry) (cache : Cache) (key_id s : Bytes)
        → key_id ≢ []
        → (dir_sign disk cache key_id s).0
          ≡ sign_loaded key_id s (load file_name parse disk key_id cache).0
    unfolding dir_sign
    dir_sign-sign_loaded disk cache key_id s n = rw (is_empty-false key_id n)

    -- After any loads, a dir signer signs as a local signer does with the key that the file now
    -- holds, if what a key file holds does not change without its time of change or its size.
    pub dir_sign-local_sign :
        (content_of : Bytes → ℤ → ℤ → Content) (loads : List ((Bytes → Entry) × Bytes))
        (disk : Bytes → Entry) (key_id s : Bytes) (k : Key)
        → All (λ l. IsDated file_name parse content_of (file_name l.1) (l.0 (file_name l.1))) loads
        → IsDated file_name parse content_of (file_name key_id) (disk (file_name key_id))
        → key_id ≢ []
        → load_uncached file_name parse disk key_id ≡ loaded k
        → (dir_sign disk (run file_name parse loads []) key_id s).0
          ≡ local_sign c (rsa_sign k) key_id key_id s
    dir_sign-local_sign content_of loads disk key_id s k past now n h =
        dir_sign-sign_loaded disk (run file_name parse loads []) key_id s n
        ∙ ap (sign_loaded key_id s)
            (load-uncached file_name parse content_of loads disk key_id past now ∙ h)
        ∙ sign_loaded-local_sign key_id s k n

    -- A request that SignRequest signs with a dir signer is accepted by Verify for the same body
    -- under the public key of what the key's file now holds, after any earlier loads: given that
    -- what a key file holds does not change without its time of change or its size, that a key id
    -- is asked for and its file holds a key, that base64 is as documented, and that a signature
    -- which this private key gives for a hash is not empty and accepted by its public key.
    pub verify-dir_sign :
        (content_of : Bytes → ℤ → ℤ → Content) (check : Bytes → Bytes → Bool)
        (loads : List ((Bytes → Entry) × Bytes)) (disk : Bytes → Entry) (now body key_id : Bytes)
        (k : Key) (req signed_req : Request)
        → All (λ l. IsDated file_name parse content_of (file_name l.1) (l.0 (file_name l.1))) loads
        → IsDated file_name parse content_of (file_name key_id) (disk (file_name key_id))
        → key_id ≢ []
        → load_uncached file_name parse disk key_id ≡ loaded k
        → IsBase64 c
        → IsKeyPair c check (rsa_sign k) key_id
        → sign_request c now req body key_id
            (some (λ id s. (dir_sign disk (run file_name parse loads []) id s).0))
          ≡ ready signed_req
        → verify c check signed_req body ≡ accepted
    verify-dir_sign content_of check loads disk now body key_id k req signed_req past now_dated n h
          laws pair e =
        verify-local_sign c check (rsa_sign k) key_id now body key_id req signed_req laws pair (
          sym (
            sign_request-signer c now body key_id req _ _
              (λ s. dir_sign-local_sign content_of loads disk key_id s k past now_dated n h))
          ∙ e)
