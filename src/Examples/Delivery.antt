-- ===== src/Examples/Delivery.antt =====
-- Dispatches and deliveries with a codec, a hash and a signature scheme that are easy to follow: the
-- codec puts a byte in front, the hash is the text itself, and a signature is the text behind a byte.
use mkqd.Base.{
  Option, some, none, ℕ, ◌≡◌, ◌≢◌, ◌+◌, ◌-◌, refl, Bool, true, Bytes, codes, arith, [], ◌∷◌,
  bytes_eq, bytes_eq_refl, map, ap, lower, lookup, insert,
}
use mathlib.Core.Path.{subst}
use mkqd.HttpMessage.{Request, Url, get, set, post, or_nil}
use mkqd.HttpSig.Local.{IsKeyPair, local_sign}
use mkqd.Base.Int.{pos}
use mkqd.KeyCache.DirSigner.{dir_sign, verify-dir_sign}
use mkqd.KeyCache.{Entry, present, holds, load, run}
use mkqd.HttpSig.Params.{NoQuote}
use mkqd.HttpSig.RoundTrip.{IsBase64, IsHonest, verify-sign_request}
use mkqd.HttpSig.{
  algorithm_rsa_sha256, Crypto, Signature, Signer, SignResult, signed, with_digest, with_signature,
  signing_string, default_headers, covered_value, digest, failed, ready, accepted, sign_request,
  verify, validate_key_id, key_id_limit, require_coverage,
}

abbrev pub codec : Crypto
codec = record {
  sha256 = λ s. s;
  encode = λ s. map (λ b. b + 35) s;
  decode = λ s. some (map (λ b. b - 35) s);
}

marked-NoQuote : (s : Bytes) → NoQuote (map (λ b. b + 35) s)
marked-NoQuote [] = tt
marked-NoQuote (b ∷ s) = (omega arith, marked-NoQuote s)

pub unmarked-marked : (s : Bytes) → map (λ b. b - 35) (map (λ b. b + 35) s) ≡ s
unmarked-marked [] = refl
unmarked-marked (b ∷ s) = cc (shifted b, unmarked-marked s)
  where
    shifted : (b : ℕ) → (b + 35) - 35 ≡ b
    shifted b = omega arith

pub codec-IsBase64 : IsBase64 codec
codec-IsBase64 = record {
  decode-encode = λ b. ap some (unmarked-marked b);
  encode-NoQuote = marked-NoQuote;
  encode-ne-nil = encode-ne;
}
  where
    encode-ne : (b : Bytes) → b ≢ [] → map (λ x. x + 35) b ≢ []
    encode-ne [] h = h
    encode-ne (x ∷ b) h = λ e. cc

abbrev signature_of : Bytes → Signature
signature_of s = record { key_id = codes "k"; algorithm = []; bytes = 1 ∷ s }

abbrev pub honest : Signer
honest k s = signed (signature_of s)

abbrev pub check : Bytes → Bytes → Bool
check h sig = bytes_eq (1 ∷ h) sig

abbrev IsGood : Bytes → SignResult → Type 0
IsGood s (failed e) = Unit
IsGood s (signed sig) = (check s sig.bytes ≡ true) × ((sig.bytes ≢ []) × NoQuote sig.algorithm)

honest-IsGood : (s : Bytes) → IsGood s (signed (signature_of s))
honest-IsGood s = (bytes_eq_refl (1 ∷ s), ((λ e. cc), tt))

pub honest-IsHonest : IsHonest codec check honest
honest-IsHonest = record {
  verifies = λ k s sig e. (subst (IsGood s) e (honest-IsGood s)).0;
  some_bytes = λ k s sig e. (subst (IsGood s) e (honest-IsGood s)).1.0;
  algorithm = λ k s sig e. (subst (IsGood s) e (honest-IsGood s)).1.1;
}

abbrev pub inbox_url : Url
inbox_url = record {
  scheme = codes "https";
  host = codes "b.example";
  request_uri = codes "/inbox";
}

abbrev pub unsigned : Request
unsigned = post inbox_url ((codes "content-type", codes "application/activity+json") ∷ [])

abbrev pub note : Bytes
note = codes "{}"

abbrev signed_note : Request
signed_note =
    with_signature codec
      (signature_of
        (or_nil (signing_string (with_digest codec (codes "Mon") note unsigned) default_headers)))
      (with_digest codec (codes "Mon") note unsigned)

verify-sign_request_example : verify codec check signed_note note ≡ accepted
unfolding sign_request with_digest signing_string covered_value get set lookup insert bytes_eq lower
    digest validate_key_id mkqd.HttpSig.attach mkqd.HttpSig.request_target mkqd.HttpSig.request_host
verify-sign_request_example =
    verify-sign_request codec check codec-IsBase64 honest (codes "Mon") note (codes "k") unsigned
      signed_note honest-IsHonest refl

abbrev prefixed : Bytes → Option Bytes
prefixed h = some (1 ∷ h)

prefixed-IsKeyPair : IsKeyPair codec check prefixed (codes "k")
unfolding IsKeyPair
prefixed-IsKeyPair h b e =
    subst (λ (o : Option Bytes). Accepts h o) e (bytes_eq_refl (1 ∷ h), (λ x. cc))
  where
    Accepts : Bytes → Option Bytes → Type 0
    Accepts h none = Unit
    Accepts h (some b) = (check h b ≡ true) × (b ≢ [])

abbrev locally_signed : Request
locally_signed =
    with_signature codec
      (record {
        key_id = codes "k";
        algorithm = algorithm_rsa_sha256;
        bytes =
            1
            ∷ or_nil
                (signing_string (with_digest codec (codes "Mon") note unsigned) default_headers);
      })
      (with_digest codec (codes "Mon") note unsigned)

abbrev key_file : Bytes → Entry
key_file name = present (record { mod_time = pos 8; size = pos 1; content = holds (8 ∷ []) })

verify-dir_sign_example : verify codec check locally_signed note ≡ accepted
unfolding local_sign sign_request with_digest signing_string covered_value get set lookup insert
    bytes_eq lower digest validate_key_id mkqd.HttpSig.attach mkqd.HttpSig.request_target
    mkqd.HttpSig.request_host dir_sign load run mkqd.HttpSig.Keys.new_local_signer
    mkqd.KeyCache.Fresh.IsDated mkqd.KeyCache.read_entry
verify-dir_sign_example =
    verify-dir_sign codec (λ k. prefixed) (λ s. s) some (λ name t size. holds (8 ∷ [])) check
      ((key_file, codes "k") ∷ []) key_file (codes "Mon") note (codes "k") (8 ∷ []) unsigned
      locally_signed (refl, tt) refl (λ e. cc) refl codec-IsBase64 prefixed-IsKeyPair refl
