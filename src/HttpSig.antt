-- ===== src/HttpSig.antt =====
-- httpsig/httpsig.go: signing outbound requests and verifying them. SHA-256, RSA and base64 are
-- parameters, and a signer is a function, since applications bring their own.
pub mod Header
pub mod Params
pub mod Parse
pub mod KeyId
pub mod Coverage
pub mod RoundTrip
pub mod Keys
pub mod Local
use mkqd.Base.{
  ℕ, zero, suc, Bool, true, false, not, ◌&&◌, ◌||◌, Option, none, some, List, [], ◌∷◌, ◌++◌, Bytes,
  codes, is_empty, length, map, bytes_eq, mem_bytes, all, to_lower, ltb, leb, ◌==◌, any,
  if◌then◌else◌,
}
use mkqd.HttpMessage.{Headers, Request, get, set, set_header}
use mkqd.HttpSig.Header.{ParsedSignature, format_signature, parse_signature_header}
use mkqd.RetryAfter.Errors.{Error, nil, message}

abbrev pub algorithm_rsa_sha256 : Bytes
algorithm_rsa_sha256 = codes "rsa-sha256"

abbrev pub default_headers : List Bytes
default_headers =
    codes "(request-target)"
    ∷ codes "host"
    ∷ codes "date"
    ∷ codes "digest"
    ∷ codes "content-type"
    ∷ []

abbrev pub required_headers : List Bytes
required_headers = codes "(request-target)" ∷ codes "host" ∷ codes "date" ∷ codes "digest" ∷ []

pub record Signature : Type 0 where
  pub key_id : Bytes
  pub algorithm : Bytes
  pub bytes : Bytes

pub data SignResult : Type 0 where
  signed : Signature → SignResult
  failed : Error → SignResult

-- Signer: the key asked for, and the bytes to sign.
abbrev pub Signer : Type 0
Signer = Bytes → Bytes → SignResult

abbrev pub key_id_limit : ℕ
key_id_limit = 512

-- A byte that cannot appear in a quoted value of the Signature header.
abbrev pub is_unsafe_key_byte : ℕ → Bool
is_unsafe_key_byte b = ltb b 32 || b == 127 || b == b'"' || b == 92

-- validateKeyID; true is the nil error.
unfoldable pub validate_key_id : Bytes → Bool
validate_key_id id =
    not (is_empty id) && not (ltb key_id_limit (length id)) && not (any is_unsafe_key_byte id)

-- requestTarget.
unfoldable pub request_target : Request → Bytes
request_target req = to_lower req.method ++ (b' ' ∷ req.url.request_uri)

unfoldable pub request_host : Request → Bytes
request_host req = if is_empty req.host then req.url.host else req.host

-- The value of one covered header, given its name in lower case; `none` for an empty one.
unfoldable pub covered_value : Request → Bytes → Option Bytes
unfolding request_target request_host
covered_value req name =
    if bytes_eq name (codes "(request-target)")
    then some (request_target req)
    else if bytes_eq name (codes "host")
    then some (request_host req)
    else if is_empty (get name req.headers)
    then none
    else some (get name req.headers)

abbrev signed_line : Bytes → Bytes → Bytes
signed_line name v = name ++ (b':' ∷ b' ' ∷ v)

abbrev append_line : Option Bytes → Option Bytes → Option Bytes
append_line none rest = none
append_line (some l) none = none
append_line (some l) (some r) = some (l ++ (b'\n' ∷ r))

abbrev line_of : Bytes → Option Bytes → Option Bytes
line_of name none = none
line_of name (some v) = some (signed_line name v)

-- SigningString; `none` is an error.
unfoldable pub signing_string : Request → List Bytes → Option Bytes
signing_string req [] = none
signing_string req (name ∷ []) = line_of (to_lower name) (covered_value req (to_lower name))
signing_string req (name ∷ next ∷ rest) =
    append_line (line_of (to_lower name) (covered_value req (to_lower name)))
      (signing_string req (next ∷ rest))

-- requireCoverage; true is the nil error.
unfoldable pub require_coverage : List Bytes → Bool
require_coverage covered = all (λ want. mem_bytes want (map to_lower covered)) required_headers

-- What httpsig takes from the standard library and does not implement.
pub record Crypto : Type 0 where
  pub sha256 : Bytes → Bytes
  pub encode : Bytes → Bytes
  pub decode : Bytes → Option Bytes

pub data SignedRequest : Type 0 where
  ready : Request → SignedRequest
  refused : Error → SignedRequest

pub data Verdict : Type 0 where
  accepted bad_header not_covered wrong_digest unsignable not_base64 bad_signature : Verdict

module _ (c : Crypto) where
  -- Digest.
  unfoldable pub digest : Bytes → Bytes
  digest body = codes "SHA-256=" ++ c.encode (c.sha256 body)

  -- The request with Date and Digest; `now` is the formatted time.
  unfoldable pub with_digest : Bytes → Bytes → Request → Request
  unfolding digest
  with_digest now body req =
      let dated =
        if is_empty (get (codes "Date") req.headers)
        then set_header (codes "Date") now req
        else req in
      set_header (codes "Digest") (digest body) dated

  unfoldable pub with_signature : Signature → Request → Request
  with_signature sig req =
      let algorithm = if is_empty sig.algorithm then algorithm_rsa_sha256 else sig.algorithm in
      set_header (codes "Signature")
        (format_signature sig.key_id algorithm default_headers (c.encode sig.bytes)) req

  unfoldable pub attach : Request → SignResult → SignedRequest
  attach req (failed e) = refused e
  attach req (signed sig) =
      if validate_key_id sig.key_id
      then ready (with_signature sig req)
      else refused (message (codes "key id"))

  -- SignRequest; no signer is `none`.
  unfoldable pub sign_request : Bytes → Request → Bytes → Bytes → Option Signer → SignedRequest
  unfolding attach
  sign_request now req body key_id none = refused (message (codes "no signer"))
  sign_request now req body key_id (some signer) =
      let r = with_digest now body req in
      elim (signing_string r default_headers) [
        | none ↦ refused (message (codes "empty header"))
        | some s ↦ attach r (signer key_id s)
      ]

  -- The checks of Verify behind the header; `check` is the RSA verification under the public key.
  unfoldable pub verify_parsed :
      (Bytes → Bytes → Bool) → Request → Bytes → ParsedSignature → Verdict
  verify_parsed check req body parsed =
      if not (require_coverage parsed.headers)
      then not_covered
      else if not (bytes_eq (get (codes "Digest") req.headers) (digest body))
      then wrong_digest
      else elim (signing_string req parsed.headers) [
        | none ↦ unsignable
        | some s ↦ elim (c.decode parsed.signature) [
          | none ↦ not_base64
          | some sig ↦ if check (c.sha256 s) sig then accepted else bad_signature
        ]
      ]

  -- Verify.
  unfoldable pub verify : (Bytes → Bytes → Bool) → Request → Bytes → Verdict
  unfolding verify_parsed
  verify check req body = elim (parse_signature_header (get (codes "Signature") req.headers)) [
    | none ↦ bad_header
    | some parsed ↦ verify_parsed check req body parsed
  ]
