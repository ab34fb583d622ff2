-- ===== src/ApDeliver/Asking.antt =====
-- executor/apdeliver/remote.go: the whole of (*remoteSigner).Sign, with the request that it posts to the
-- application. `encode_json` is json.Marshal of a RemoteRequest, `decode_json` reads a RemoteResponse, and
-- `parse_url` is http.NewRequest's reading of the URL.
use mkqd.ApDeliver.Remote.{RemoteResponse, sign_reply}
use mkqd.Base.{
  ◌≡◌, ◌≢◌, Bool, true, Option, none, some, [], ◌∷◌, Bytes, codes, is_empty, if◌then◌else◌,
}
use mkqd.Base.Int.{ℤ, pos}
use mkqd.HttpMessage.{Headers, Request, Response, Reply, reply, Url, set, set_all, post}
use mkqd.HttpSend.Decimal.{format_int}
use mkqd.HttpSend.{read_body, default_max_response_bytes, sign_hmac}
use mkqd.HttpSig.Params.{NoQuote}
use mkqd.HttpSig.{Crypto, Signer, SignResult, signed, failed, algorithm_rsa_sha256}
use mkqd.KeyCache.Signers.{RemoteSigner}
use mkqd.RetryAfter.Errors.{message}

-- RemoteRequest.
pub record RemoteRequest : Type 0 where
  pub key_id : Bytes
  pub signing_string : Bytes
  pub algorithm : Bytes

-- What Sign marshals.
unfoldable pub asked : Crypto → Bytes → Bytes → RemoteRequest
asked c key_id s = record {
  key_id = key_id;
  signing_string = c.encode s;
  algorithm = algorithm_rsa_sha256;
}

-- The headers of the request, at a time in seconds. `user_agent` is what mkqd.UserAgent gives.
unfoldable pub asking_headers : (Bytes → Bytes → Bytes) → Bytes → RemoteSigner → ℤ → Bytes → Headers
asking_headers hmac user_agent r ts body =
    let fixed =
      set_all
        ((codes "Content-Type", codes "application/json")
          ∷ (codes "User-Agent", user_agent)
          ∷ (codes "X-Mkqd-Timestamp", format_int ts)
          ∷ [])
        [] in
    if is_empty r.secret
    then fixed
    else set (codes "X-Mkqd-Signature") (sign_hmac hmac r.secret ts body) fixed

module _ (c : Crypto) (hmac : Bytes → Bytes → Bytes) (encode_json : RemoteRequest → Bytes)
    (decode_json : Bytes → Option RemoteResponse) (parse_url : Bytes → Option Url)
    (client : Request → Bytes → Reply) (user_agent : Bytes) where
  abbrev sent : RemoteSigner → ℤ → Bytes → Bytes → Option Url → SignResult
  sent r ts key_id body none = failed (message (codes "build sign request"))
  sent r ts key_id body (some u) =
      sign_reply decode_json c.decode key_id
        (client (post u (asking_headers hmac user_agent r ts body)) body)

  -- (*remoteSigner).Sign.
  unfoldable pub remote_sign : RemoteSigner → ℤ → Signer
  remote_sign r ts key_id s = sent r ts key_id (encode_json (asked c key_id s)) (parse_url r.url)

  module _ (check : Bytes → Bytes → Bool) (read_request : Bytes → Option RemoteRequest) where
    -- What an application that signs does with a request it can read: the signature in its answer, if
    -- there is one, is the public key's for the string asked for.
    abbrev pub IsSigning : Type 0
    IsSigning =
        (req : Request) (body s payload b : Bytes) (rq : RemoteRequest) (resp : Response)
        (out : RemoteResponse)
        → read_request body ≡ some rq
        → c.decode rq.signing_string ≡ some s
        → client req body ≡ reply resp
        → (read_body resp.body (pos default_max_response_bytes)).0 ≡ some payload
        → decode_json payload ≡ some out
        → c.decode out.signature ≡ some b
        → (check (c.sha256 s) b ≡ true) × NoQuote out.algorithm

    -- A result of Sign that Verify can use.
    IsUsable : Bytes → SignResult → Type 0
    IsUsable s (failed e) = Unit
    IsUsable s (signed sig) =
        (check (c.sha256 s) sig.bytes ≡ true) × ((sig.bytes ≢ []) × NoQuote sig.algorithm)
