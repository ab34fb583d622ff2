-- ===== src/ApDeliver/Binding.antt =====
-- What the signature header of a sign request binds: the application that checks it knows when the request
-- was made and what it asks for.
use mkqd.ApDeliver.Asking.{RemoteRequest, asked, asking_headers}
use mkqd.Base.{
  ◌≡◌, ◌≢◌, refl, sym, ap, ◌∙◌, false, Option, none, some, List, [], ◌∷◌, ◌++◌, Bytes, codes, true,
  is_ascii, is_empty, is_empty-false, some_inj, bytes_eq, arith, if◌then◌else◌,
}
use mkqd.Base.Int.{ℤ}
use mkqd.HttpMessage.{get, get-set}
use mkqd.HttpSend.Material.{sign_hmac_inj}
use mkqd.HttpSend.{sign_hmac, signed_material}
use mkqd.HttpSig.RoundTrip.{IsBase64}
use mkqd.HttpSig.{Crypto}
use mkqd.KeyCache.Signers.{RemoteSigner}

module _ (hmac : Bytes → Bytes → Bytes) (user_agent : Bytes) (r : RemoteSigner) where
  get-asking_headers :
      (ts : ℤ) (body : Bytes)
      → r.secret ≢ []
      → get (codes "X-Mkqd-Signature") (asking_headers hmac user_agent r ts body)
        ≡ sign_hmac hmac r.secret ts body
  unfolding asking_headers bytes_eq mkqd.Base.lower
  get-asking_headers ts body n =
      rw (is_empty-false r.secret n)
        (get-set (codes "X-Mkqd-Signature") (codes "X-Mkqd-Signature") _ _)

  -- A request of which json.Marshal keeps every byte: it is ASCII.
  abbrev pub IsText : RemoteRequest → Type 0
  IsText q =
      (is_ascii q.key_id ≡ true)
      × ((is_ascii q.signing_string ≡ true) × (is_ascii q.algorithm ≡ true))

  module _ (c : Crypto) (encode_json : RemoteRequest → Bytes)
      (read_request : Bytes → Option RemoteRequest) where
    asked-IsText :
        (key_id s : Bytes)
        → is_ascii key_id ≡ true
        → is_ascii (c.encode s) ≡ true
        → IsText (asked c key_id s)
    unfolding asked
    asked-IsText key_id s k e = (k, (e, refl))

    -- Under one secret, two sign requests that are made at different seconds, or ask for different
    -- strings or under different key ids, carry different signature headers, given that the secret
    -- is not empty, that the key ids are ASCII and so are the strings in base64, that the
    -- application reads back what json.Marshal writes of ASCII texts, that the two do not collide
    -- under HMAC, and that base64 is as documented.
    pub asking_headers_binding :
        (ts us : ℤ) (key_id key_id' s s' : Bytes)
        → IsBase64 c
        → ((q : RemoteRequest) → IsText q → read_request (encode_json q) ≡ some q)
        → r.secret ≢ []
        → is_ascii key_id ≡ true
        → is_ascii key_id' ≡ true
        → is_ascii (c.encode s) ≡ true
        → is_ascii (c.encode s') ≡ true
        → (hmac r.secret (signed_material ts (encode_json (asked c key_id s)))
              ≡ hmac r.secret (signed_material us (encode_json (asked c key_id' s')))
            → signed_material ts (encode_json (asked c key_id s))
              ≡ signed_material us (encode_json (asked c key_id' s')))
        → ¬ ((ts ≡ us) × ((key_id ≡ key_id') × (s ≡ s')))
        → get
            (codes "X-Mkqd-Signature")
            (asking_headers hmac user_agent r ts (encode_json (asked c key_id s)))
          ≢ get
              (codes "X-Mkqd-Signature")
              (asking_headers hmac user_agent r us (encode_json (asked c key_id' s')))
    unfolding asked
    asking_headers_binding ts us key_id key_id' s s' laws json n k k' a a' distinct differ same =
        let (t, b) =
          sign_hmac_inj hmac r.secret ts us (encode_json (asked c key_id s))
            (encode_json (asked c key_id' s')) distinct
            (sym (get-asking_headers ts (encode_json (asked c key_id s)) n)
              ∙ (same ∙ get-asking_headers us (encode_json (asked c key_id' s')) n)) in
        let read = some_inj (asked c key_id s) (asked c key_id' s') (
          sym (json (asked c key_id s) (asked-IsText key_id s k a))
          ∙ (ap read_request b ∙ json (asked c key_id' s') (asked-IsText key_id' s' k' a'))) in
        differ (
          t,
          (
            ap (λ (q : RemoteRequest). q.key_id) read,
            some_inj s s' (
                sym (laws.decode-encode s)
                ∙ (ap (λ (q : RemoteRequest). c.decode q.signing_string) read
                    ∙ laws.decode-encode s')),
          ),
        )
