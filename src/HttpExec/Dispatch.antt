-- ===== src/HttpExec/Dispatch.antt =====
-- What the signature header of a dispatch binds.
use mkqd.Base.{
  ◌≡◌, ◌≢◌, refl, sym, ap, ◌∙◌, Option, some, List, [], ◌∷◌, Bytes, codes, true, is_ascii, is_empty,
  is_empty-false, some_inj, bytes_eq, arith, if◌then◌else◌,
}
use mkqd.Base.Int.{ℤ}
use mkqd.HttpExec.Setup.{Envelope, envelope_of}
use mkqd.HttpExec.{Job, Services, request_headers}
use mkqd.HttpMessage.{get, get-set}
use mkqd.HttpSend.Material.{sign_hmac_inj}
use mkqd.HttpSend.{sign_hmac, signed_material}

module _ (s : Services) (user_agent secret : Bytes) where
  get-request_headers :
      (ts : ℤ) (body : Bytes) (extra : List (Bytes × Bytes)) (job : Job)
      → secret ≢ []
      → get (codes "X-Mkqd-Signature") (request_headers s user_agent ts body secret extra job)
        ≡ sign_hmac s.hmac secret ts body
  unfolding request_headers bytes_eq mkqd.Base.lower
  get-request_headers ts body extra job n =
      rw (is_empty-false secret n)
        (get-set (codes "X-Mkqd-Signature") (codes "X-Mkqd-Signature") _ _)

  -- The names in an envelope are ASCII, so json.Marshal keeps every byte of them.
  abbrev pub IsNamed : Envelope → Type 0
  IsNamed e = (is_ascii e.queue ≡ true) × ((is_ascii e.id ≡ true) × (is_ascii e.name ≡ true))

  -- The jobs look alike to an application that reads an envelope, where `compact` is what json.Marshal
  -- makes of a raw message.
  abbrev pub IsSameJob : (Bytes → Bytes) → Job → Job → Type 0
  IsSameJob compact job other =
      (job.queue ≡ other.queue)
      × ((job.id ≡ other.id)
          × ((job.name ≡ other.name)
              × ((compact job.payload ≡ compact other.payload)
                  × ((job.attempts_made ≡ other.attempts_made)
                      × (job.timestamp ≡ other.timestamp)))))

  -- Under one secret, two dispatches that are made at different seconds, or for jobs that differ in
  -- queue, id, name, attempts made, timestamp or compacted payload, carry different signature
  -- headers, whatever headers they add, given that the secret is not empty, that the names in both
  -- envelopes are ASCII, that the application reads back what json.Marshal writes of such an
  -- envelope, with the payload compacted, and that the two do not collide under HMAC.
  pub request_headers_binding :
      (encode : Envelope → Option Bytes) (compact : Bytes → Bytes)
      (read_envelope : Bytes → Option Envelope) (ts us : ℤ) (extra others : List (Bytes × Bytes))
      (job other : Job) (body content : Bytes)
      → ((e : Envelope) (b : Bytes)
          → IsNamed e
          → encode e ≡ some b
          → read_envelope b ≡ some (record e { payload = compact e.payload }))
      → secret ≢ []
      → IsNamed (envelope_of job)
      → IsNamed (envelope_of other)
      → encode (envelope_of job) ≡ some body
      → encode (envelope_of other) ≡ some content
      → (s.hmac secret (signed_material ts body) ≡ s.hmac secret (signed_material us content)
          → signed_material ts body ≡ signed_material us content)
      → ¬ ((ts ≡ us) × IsSameJob compact job other)
      → get (codes "X-Mkqd-Signature") (request_headers s user_agent ts body secret extra job)
        ≢ get
            (codes "X-Mkqd-Signature")
            (request_headers s user_agent us content secret others other)
  unfolding envelope_of
  request_headers_binding encode compact read_envelope ts us extra others job other body content
        json n p q e f distinct differ same =
      let (t, b) = sign_hmac_inj s.hmac secret ts us body content distinct (
        sym (get-request_headers ts body extra job n)
        ∙ (same ∙ get-request_headers us content others other n)) in
      let read = some_inj _ _ (
        sym (json (envelope_of job) body p e)
        ∙ (ap read_envelope b ∙ json (envelope_of other) content q f)) in
      differ (
        t,
        (
          ap (λ (v : Envelope). v.queue) read,
          (
            ap (λ (v : Envelope). v.id) read,
            (
              ap (λ (v : Envelope). v.name) read,
              (
                ap (λ (v : Envelope). v.payload) read,
                (
                  ap (λ (v : Envelope). v.attempts_made) read,
                  ap (λ (v : Envelope). v.timestamp) read,
                ),
              ),
            ),
          ),
        ),
      )
