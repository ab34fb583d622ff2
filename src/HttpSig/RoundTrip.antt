-- ===== src/HttpSig/RoundTrip.antt =====
-- Verify of httpsig.go accepts what SignRequest makes.
use mkqd.Base.{
  ◌≡◌, ◌≢◌, refl, sym, ap, ◌∙◌, Bool, true, false, Bool-cases, Option-cases, inl, inr, Option, none,
  some, [], ◌∷◌, Bytes, codes, All, arith, bytes_eq, bytes_eq_refl, to_lower, lower, is_empty,
  is_space, if◌then◌else◌,
}
use mathlib.Core.Path.{subst}
use mkqd.RetryAfter.Errors.{message}
use mkqd.HttpMessage.{Request, get, get-set}
use mkqd.HttpSig.Coverage.{signing_string-set}
use mkqd.HttpSig.Header.{
  ParsedSignature, format_signature, parse_signature_header, joined, fields_from,
}
use mkqd.HttpSig.KeyId.{validate_key_id_iff, IsKeyByte-NoQuote}
use mkqd.HttpSig.Params.{NoQuote}
use mkqd.HttpSig.Parse.{parse-format_signature}
use mkqd.HttpSig.{
  Crypto, Signature, Signer, SignResult, SignedRequest, signed, failed, refused, ready, accepted,
  default_headers, algorithm_rsa_sha256, signing_string, require_coverage, validate_key_id, digest,
  with_digest, with_signature, attach, sign_request, verify_parsed, verify,
}

-- What the standard library's base64 promises.
pub record IsBase64 (c : Crypto) : Type 0 where
  pub decode-encode : (b : Bytes) → c.decode (c.encode b) ≡ some b
  pub encode-NoQuote : (b : Bytes) → NoQuote (c.encode b)
  pub encode-ne-nil : (b : Bytes) → b ≢ [] → c.encode b ≢ []

-- A signer whose signatures verify, and whose algorithm names hold no double quote.
pub record IsHonest (c : Crypto) (check : Bytes → Bytes → Bool) (signer : Signer) : Type 0 where
  pub verifies :
      (key_id s : Bytes) (sig : Signature)
      → signer key_id s ≡ signed sig
      → check (c.sha256 s) sig.bytes ≡ true
  pub some_bytes :
      (key_id s : Bytes) (sig : Signature) → signer key_id s ≡ signed sig → sig.bytes ≢ []
  pub algorithm :
      (key_id s : Bytes) (sig : Signature) → signer key_id s ≡ signed sig → NoQuote sig.algorithm

header_value : Crypto → Signature → Bytes
header_value c sig =
    format_signature sig.key_id
      (if is_empty sig.algorithm then algorithm_rsa_sha256 else sig.algorithm) default_headers
      (c.encode sig.bytes)

default_fields : fields_from [] (joined default_headers) ≡ default_headers
unfolding fields_from joined is_space
default_fields = refl

default-NoQuote : NoQuote (joined default_headers)
unfolding joined
default-NoQuote = omega arith

default_coverage : require_coverage default_headers ≡ true
unfolding require_coverage bytes_eq lower
default_coverage = refl

uncovered :
    All
      (λ h. bytes_eq (to_lower (codes "Signature")) (to_lower (to_lower h)) ≡ false)
      default_headers
unfolding bytes_eq lower
uncovered = (refl, (refl, (refl, (refl, (refl, tt)))))

digest_apart : bytes_eq (to_lower (codes "Signature")) (to_lower (codes "Digest")) ≡ false
unfolding bytes_eq lower
digest_apart = refl

chosen-NoQuote : (a : Bytes) → NoQuote a → NoQuote (if is_empty a then algorithm_rsa_sha256 else a)
chosen-NoQuote [] h = omega arith
chosen-NoQuote (b ∷ a) h = h

digest-with_digest :
    (c : Crypto) (now body : Bytes) (req : Request)
    → get (codes "Digest") (with_digest c now body req).headers ≡ digest c body
unfolding with_digest
digest-with_digest c now body req =
    rw (get-set (codes "Digest") (codes "Digest") (digest c body), bytes_eq_refl)

module _ (c : Crypto) (check : Bytes → Bytes → Bool) (laws : IsBase64 c) where
  parsed_back :
      (sig : Signature)
      → validate_key_id sig.key_id ≡ true
      → NoQuote sig.algorithm
      → sig.bytes ≢ []
      → parse_signature_header (header_value c sig)
        ≡ some (record {
          key_id = sig.key_id;
          algorithm = if is_empty sig.algorithm then algorithm_rsa_sha256 else sig.algorithm;
          headers = default_headers;
          signature = c.encode sig.bytes;
        })
  unfolding header_value
  parsed_back sig ok qa nb =
      let key = (validate_key_id_iff sig.key_id).0 ok in
      parse-format_signature sig.key_id _ default_headers (c.encode sig.bytes)
        (IsKeyByte-NoQuote sig.key_id key.2) (chosen-NoQuote sig.algorithm qa) default-NoQuote
        (laws.encode-NoQuote sig.bytes) key.0 (laws.encode-ne-nil sig.bytes nb) (cc) default_fields

  verify-parsed :
      (req : Request) (body : Bytes) (p : ParsedSignature)
      → parse_signature_header (get (codes "Signature") req.headers) ≡ some p
      → verify c check req body ≡ verify_parsed c check req body p
  unfolding verify
  verify-parsed req body p e = rw (verify, e)

  verify_parsed_accepts :
      (req : Request) (body s : Bytes) (p : ParsedSignature) (bytes : Bytes)
      → require_coverage p.headers ≡ true
      → get (codes "Digest") req.headers ≡ digest c body
      → signing_string req p.headers ≡ some s
      → c.decode p.signature ≡ some bytes
      → check (c.sha256 s) bytes ≡ true
      → verify_parsed c check req body p ≡ accepted
  unfolding verify_parsed
  verify_parsed_accepts req body s p bytes r d e b v = rw (r, d, bytes_eq_refl, e, b, v)

  get_signature :
      (sig : Signature) (req : Request)
      → get (codes "Signature") (with_signature c sig req).headers ≡ header_value c sig
  unfolding with_signature header_value
  get_signature sig req = rw (
    get-set (codes "Signature") (codes "Signature") (header_value c sig) req.headers,
    bytes_eq_refl,
  )

  get_digest :
      (sig : Signature) (req : Request)
      → get (codes "Digest") (with_signature c sig req).headers ≡ get (codes "Digest") req.headers
  unfolding with_signature
  get_digest sig req = rw (get-set (codes "Signature") (codes "Digest") _ req.headers, digest_apart)

  signing_string-with_signature :
      (sig : Signature) (req : Request)
      → signing_string (with_signature c sig req) default_headers
        ≡ signing_string req default_headers
  unfolding with_signature
  signing_string-with_signature sig req =
      signing_string-set (codes "Signature") _ req default_headers uncovered

  verify-with_signature :
      (req : Request) (body s : Bytes) (sig : Signature)
      → get (codes "Digest") req.headers ≡ digest c body
      → signing_string req default_headers ≡ some s
      → check (c.sha256 s) sig.bytes ≡ true
      → validate_key_id sig.key_id ≡ true
      → NoQuote sig.algorithm
      → sig.bytes ≢ []
      → verify c check (with_signature c sig req) body ≡ accepted
  verify-with_signature req body s sig d e v ok qa nb =
      let signed_req = with_signature c sig req in
      verify-parsed signed_req body _
        (ap parse_signature_header (get_signature sig req) ∙ parsed_back sig ok qa nb)
      ∙ verify_parsed_accepts signed_req body s _ sig.bytes default_coverage
          (get_digest sig req ∙ d) (signing_string-with_signature sig req ∙ e)
          (laws.decode-encode sig.bytes) v

  -- The request of a result is one that Verify accepts.
  unfoldable pub IsAccepted : Bytes → SignedRequest → Type 0
  IsAccepted body (ready req) = verify c check req body ≡ accepted
  IsAccepted body (refused e) = Unit

  attach-IsAccepted :
      (signer : Signer) (req : Request) (body key s : Bytes)
      → IsHonest c check signer
      → get (codes "Digest") req.headers ≡ digest c body
      → signing_string req default_headers ≡ some s
      → (r : SignResult) → signer key s ≡ r
      → IsAccepted body (attach c req r)
  unfolding attach IsAccepted
  attach-IsAccepted signer req body key s h d e (failed x) q = tt
  attach-IsAccepted signer req body key s h d e (signed sig) q =
      elim (Bool-cases (validate_key_id sig.key_id)) [
        | inl ok ↦
            subst
              (λ (b : Bool). IsAccepted body (
                if b then ready (with_signature c sig req) else refused (message (codes "key id"))))
              (sym ok)
              (verify-with_signature req body s sig d e (h.verifies key s sig q) ok
                (h.algorithm key s sig q) (h.some_bytes key s sig q))
        | inr bad ↦
            subst
              (λ (b : Bool). IsAccepted body (
                if b then ready (with_signature c sig req) else refused (message (codes "key id"))))
              (sym bad) tt
      ]

  pub sign_request-IsAccepted :
      (signer : Signer) (now body key : Bytes) (req : Request)
      → IsHonest c check signer
      → IsAccepted body (sign_request c now req body key (some signer))
  unfolding sign_request IsAccepted
  sign_request-IsAccepted signer now body key req h =
      let r = with_digest c now body req in
      elim (Option-cases (signing_string r default_headers)) [
        | inl e ↦
            subst
              (λ (o : Option Bytes). IsAccepted body (elim o [
                | none ↦ refused (message (codes "empty header"))
                | some s ↦ attach c r (signer key s)
              ]))
              (sym e) tt
        | inr (s, e) ↦
            subst
              (λ (o : Option Bytes). IsAccepted body (elim o [
                | none ↦ refused (message (codes "empty header"))
                | some s ↦ attach c r (signer key s)
              ]))
              (sym e)
              (attach-IsAccepted signer r body key s h (digest-with_digest c now body req) e
                (signer key s) refl)
      ]

  -- A request that SignRequest signs is accepted by Verify for the same body, given that base64
  -- decodes what it encodes, in text without double quotes and not empty for bytes that are not,
  -- and that the signer is honest: its signatures verify, are not empty, and name an algorithm
  -- without double quotes.
  pub verify-sign_request :
      (signer : Signer) (now body key : Bytes) (req signed_req : Request)
      → IsHonest c check signer
      → sign_request c now req body key (some signer) ≡ ready signed_req
      → verify c check signed_req body ≡ accepted
  unfolding IsAccepted
  verify-sign_request signer now body key req signed_req h e =
      subst (IsAccepted body) e (sign_request-IsAccepted signer now body key req h)
