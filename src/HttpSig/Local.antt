-- ===== src/HttpSig/Local.antt =====
-- LocalSigner of httpsig.go, which signs with one private key. RSA signing of a hash is a parameter
-- that may fail.
use mathlib.Core.Path.{subst}
use mkqd.Base.{
  ◌≡◌, ◌≢◌, refl, Bool, true, not, ◌&&◌, Option, none, some, [], Bytes, codes, is_empty, bytes_eq,
  arith, if-elim, if◌then◌else◌,
}
use mkqd.HttpMessage.{Request}
use mkqd.HttpSig.Params.{NoQuote}
use mkqd.HttpSig.RoundTrip.{IsBase64, IsHonest, verify-sign_request}
use mkqd.HttpSig.{
  Crypto, Signer, SignResult, signed, failed, ready, accepted, sign_request, verify,
  algorithm_rsa_sha256,
}
use mkqd.RetryAfter.Errors.{message, wrap, unknown_key}

-- The result of LocalSigner.Sign, from the answer of RSA on.
unfoldable pub local_result : Bytes → Option Bytes → SignResult
local_result own none = failed (message (codes "sign"))
local_result own (some b) =
    signed (record { key_id = own; algorithm = algorithm_rsa_sha256; bytes = b })

-- LocalSigner.Sign, under the signer's own key id.
unfoldable pub local_sign : Crypto → (Bytes → Option Bytes) → Bytes → Signer
unfolding local_result
local_sign c rsa_sign own key_id s =
    if not (is_empty key_id) && not (bytes_eq key_id own)
    then failed (wrap key_id unknown_key)
    else local_result own (rsa_sign (c.sha256 s))

module _ (c : Crypto) (check : Bytes → Bytes → Bool) (rsa_sign : Bytes → Option Bytes)
    (own : Bytes) where
  IsSound : Bytes → SignResult → Type 0
  IsSound s (failed e) = Unit
  IsSound s (signed sig) =
      (check (c.sha256 s) sig.bytes ≡ true) × ((sig.bytes ≢ []) × NoQuote sig.algorithm)

  -- What the public key accepts of its private key: signatures of the hash, and these are not empty.
  unfoldable pub IsKeyPair : Type 0
  IsKeyPair = (h b : Bytes) → rsa_sign h ≡ some b → (check h b ≡ true) × (b ≢ [])

  local_result-IsSound :
      (s : Bytes) (o : Option Bytes)
      → IsKeyPair
      → rsa_sign (c.sha256 s) ≡ o
      → IsSound s (local_result own o)
  unfolding local_result IsSound IsKeyPair
  local_result-IsSound s none pair e = tt
  local_result-IsSound s (some b) pair e =
      ((pair (c.sha256 s) b e).0, ((pair (c.sha256 s) b e).1, omega arith))

  local_sign-IsSound :
      (key_id s : Bytes) → IsKeyPair → IsSound s (local_sign c rsa_sign own key_id s)
  unfolding local_sign IsSound
  local_sign-IsSound key_id s pair =
      if-elim (IsSound s) (not (is_empty key_id) && not (bytes_eq key_id own)) _ _ (λ _. tt)
        (λ _. local_result-IsSound s (rsa_sign (c.sha256 s)) pair refl)

  local_sign-IsHonest : IsKeyPair → IsHonest c check (local_sign c rsa_sign own)
  unfolding IsSound
  local_sign-IsHonest pair = record {
    verifies = λ k s sig e. (subst (IsSound s) e (local_sign-IsSound k s pair)).0;
    some_bytes = λ k s sig e. (subst (IsSound s) e (local_sign-IsSound k s pair)).1.0;
    algorithm = λ k s sig e. (subst (IsSound s) e (local_sign-IsSound k s pair)).1.1;
  }

  -- A request that SignRequest signs with a LocalSigner is accepted by Verify for the same body,
  -- given that base64 is as documented, and that a signature which the private key gives for a hash
  -- is not empty and accepted by the public key.
  pub verify-local_sign :
      (now body key : Bytes) (req signed_req : Request)
      → IsBase64 c
      → IsKeyPair
      → sign_request c now req body key (some (local_sign c rsa_sign own)) ≡ ready signed_req
      → verify c check signed_req body ≡ accepted
  verify-local_sign now body key req signed_req laws pair e =
      verify-sign_request c check laws (local_sign c rsa_sign own) now body key req signed_req
        (local_sign-IsHonest pair) e
