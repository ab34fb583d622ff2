-- ===== src/Examples/Asking.antt =====
-- The remote signer with an application that signs. Its JSON puts the length of a field before the field.
use mkqd.ApDeliver.Asking.{RemoteRequest, asked, asking_headers}
use mkqd.ApDeliver.Binding.{asking_headers_binding}
use mkqd.ApDeliver.Remote.{RemoteResponse}
use mkqd.Base.{
  ℕ, zero, suc, ◌≡◌, ◌≢◌, ◌==◌, if◌then◌else◌, refl, sym, ap, ◌∙◌, false, Option, some, [], ◌∷◌,
  ◌++◌, Bytes, codes, length, take, drop, some_inj, arith,
}
use mkqd.Base.Int.{ℤ, pos, negsuc}
use mkqd.Examples.Delivery.{codec, codec-IsBase64, note, unsigned}
use mkqd.HttpExec.Dispatch.{request_headers_binding}
use mkqd.HttpExec.Setup.{Envelope, envelope_of}
use mkqd.HttpExec.{Job, request_headers}
use mkqd.Examples.Responses.{services, job}
use mkqd.HttpMessage.{Request, Response, Reply, reply, get, or_nil}
use mkqd.HttpSig.RoundTrip.{IsBase64}
use mkqd.HttpSig.{
  Crypto, Signature, signed, ready, with_signature, with_digest, signing_string, default_headers,
  algorithm_rsa_sha256,
}
use mkqd.KeyCache.Signers.{RemoteSigner}

-- A hash of 32 bytes.
abbrev hashing : Crypto
hashing = record codec { sha256 = λ s. take 32 s }

hashing-IsBase64 : IsBase64 hashing
hashing-IsBase64 = record {
  decode-encode = codec-IsBase64.decode-encode;
  encode-NoQuote = codec-IsBase64.encode-NoQuote;
  encode-ne-nil = codec-IsBase64.encode-ne-nil;
}

abbrev field : Bytes → Bytes → Bytes
field v rest = length v ∷ (v ++ rest)

abbrev first : Bytes → Bytes
first [] = []
first (n ∷ rest) = take n rest

abbrev others : Bytes → Bytes
others [] = []
others (n ∷ rest) = drop n rest

take-length : (v rest : Bytes) → take (length v) (v ++ rest) ≡ v
take-length [] rest = refl
take-length (b ∷ v) rest = ap (λ l. b ∷ l) (take-length v rest)

drop-length : (v rest : Bytes) → drop (length v) (v ++ rest) ≡ rest
drop-length [] rest = refl
drop-length (b ∷ v) rest = drop-length v rest

abbrev written : RemoteRequest → Bytes
written rq = field rq.key_id (field rq.signing_string rq.algorithm)

abbrev read_back : Bytes → RemoteRequest
read_back body = record {
  key_id = first body;
  signing_string = first (others body);
  algorithm = others (others body);
}

read_back-written : (rq : RemoteRequest) → some (read_back (written rq)) ≡ some rq
read_back-written rq =
    rw
      (
        take-length rq.key_id (field rq.signing_string rq.algorithm),
        drop-length rq.key_id (field rq.signing_string rq.algorithm),
        take-length rq.signing_string rq.algorithm,
        drop-length rq.signing_string rq.algorithm,
      )
      refl

abbrev string_of : Bytes → Bytes
string_of body = or_nil (codec.decode ((read_back body).signing_string))

abbrev marked : Bytes → Bytes
marked s = codec.encode (1 ∷ take 32 s)

-- The application: it signs the hash of what is asked for, under the key that is asked for.
abbrev application : Request → Bytes → Reply
application req body = reply (record {
  status = 200;
  status_text = [];
  headers = [];
  body = record { bytes = marked (string_of body); fails = false };
})

abbrev answer : Bytes → Option RemoteResponse
answer payload = some (record { key_id = []; algorithm = []; signature = payload })

-- What `application` answers.
abbrev answered : Bytes → Response
answered body = record {
  status = 200;
  status_text = [];
  headers = [];
  body = record { bytes = marked (string_of body); fails = false };
}

abbrev signing_service : RemoteSigner
signing_service = record {
  url = codes "https://app.example/sign";
  secret = codes "s";
  timeout = pos 5;
  guarded = false;
}

abbrev remotely_signed : Request
remotely_signed =
    with_signature hashing
      (record {
        key_id = codes "k";
        algorithm = algorithm_rsa_sha256;
        bytes =
            1
            ∷ take 32 (
                or_nil (
                  signing_string (with_digest hashing (codes "Mon") note unsigned)
                    default_headers));
      })
      (with_digest hashing (codes "Mon") note unsigned)

asking_headers_binding_example :
    get (codes "X-Mkqd-Signature") (
      asking_headers
        (λ k m. m)
        (codes "ua")
        signing_service
        (pos 5)
        (written (asked hashing (codes "k") (1 ∷ []))))
    ≢ get (codes "X-Mkqd-Signature") (
        asking_headers
          (λ k m. m)
          (codes "ua")
          signing_service
          (pos 5)
          (written (asked hashing (codes "k") (2 ∷ []))))
asking_headers_binding_example =
    asking_headers_binding (λ k m. m) (codes "ua") signing_service hashing written
      (λ body. some (read_back body)) (pos 5) (pos 5) (codes "k") (codes "k") (1 ∷ []) (2 ∷ [])
      hashing-IsBase64 (λ q t. read_back-written q) (λ e. cc) refl refl refl refl (λ e. e)
      (λ (a, (b, e)). cc)

-- A JSON of the same kind for envelopes; an integer is its sign and its size.
abbrev int_field : ℤ → Bytes → Bytes
int_field (pos n) rest = 0 ∷ n ∷ rest
int_field (negsuc n) rest = 1 ∷ n ∷ rest

abbrev int_of : Bytes → ℤ
int_of (zero ∷ n ∷ rest) = pos n
int_of (suc s ∷ n ∷ rest) = negsuc n
int_of l = pos 0

abbrev behind_int : Bytes → Bytes
behind_int (s ∷ n ∷ rest) = rest
behind_int l = []

int_of-int_field : (z : ℤ) (rest : Bytes) → int_of (int_field z rest) ≡ z
int_of-int_field (pos n) rest = refl
int_of-int_field (negsuc n) rest = refl

behind_int-int_field : (z : ℤ) (rest : Bytes) → behind_int (int_field z rest) ≡ rest
behind_int-int_field (pos n) rest = refl
behind_int-int_field (negsuc n) rest = refl

abbrev numbers : Envelope → Bytes
numbers e = int_field e.attempts_made (int_field e.timestamp [])

abbrev sealed : Envelope → Option Bytes
sealed e = some (field e.queue (field e.id (field e.name (field e.payload (numbers e)))))

abbrev opened : Bytes → Envelope
opened b = record {
  queue = first b;
  id = first (others b);
  name = first (others (others b));
  payload = first (others (others (others b)));
  attempts_made = int_of (others (others (others (others b))));
  timestamp = int_of (behind_int (others (others (others (others b)))));
}

opened-sealed : (e : Envelope) (b : Bytes) → sealed e ≡ some b → some (opened b) ≡ some e
opened-sealed e b h =
    ap (λ l. some (opened l)) (sym (some_inj _ b h))
    ∙ rw
        (
          take-length e.queue (field e.id (field e.name (field e.payload (numbers e)))),
          drop-length e.queue (field e.id (field e.name (field e.payload (numbers e)))),
          take-length e.id (field e.name (field e.payload (numbers e))),
          drop-length e.id (field e.name (field e.payload (numbers e))),
          take-length e.name (field e.payload (numbers e)),
          drop-length e.name (field e.payload (numbers e)),
          take-length e.payload (numbers e),
          drop-length e.payload (numbers e),
          int_of-int_field e.attempts_made (int_field e.timestamp []),
          behind_int-int_field e.attempts_made (int_field e.timestamp []),
          int_of-int_field e.timestamp [],
        )
        refl

-- A raw message is compacted by dropping its spaces.
abbrev without_spaces : Bytes → Bytes
without_spaces [] = []
without_spaces (b ∷ s) = let rest = without_spaces s in if b == 32 then rest else b ∷ rest

abbrev compacted : Envelope → Envelope
compacted e = record e { payload = without_spaces e.payload }

abbrev array_job : Job
array_job = record job { payload = codes "[]" }

abbrev head_or_zero : Bytes → ℕ
head_or_zero [] = 0
head_or_zero (b ∷ s) = b

request_headers_binding_example :
    get (codes "X-Mkqd-Signature") (
      request_headers services
        (codes "ua")
        (pos 5)
        (or_nil (sealed (compacted (envelope_of job))))
        (codes "s")
        []
        job)
    ≢ get (codes "X-Mkqd-Signature") (
        request_headers services
          (codes "ua")
          (pos 5)
          (or_nil (sealed (compacted (envelope_of array_job))))
          (codes "s")
          []
          array_job)
unfolding envelope_of
request_headers_binding_example =
    request_headers_binding services (codes "ua") (codes "s") (λ e. sealed (compacted e))
      without_spaces (λ b. some (opened b)) (pos 5) (pos 5) [] [] job array_job _ _
      (λ e b n h. opened-sealed (compacted e) b h) (λ e. cc) (refl, (refl, refl))
      (refl, (refl, refl)) refl refl (λ e. e)
      (λ same. absurd (omega (arith, ap head_or_zero same.1.1.1.1.0)))
