-- ===== src/ApDeliver/Remote.antt =====
-- executor/apdeliver/remote.go: the signer that asks a signing endpoint.
use mkqd.Base.{
  ℕ, ◌≡◌, ◌≢◌, refl, sym, Bool, true, false, not, ◌&&◌, ◌||◌, Option, none, some, [], Bytes, codes,
  is_empty, Bool-cases, inl, inr, leb, ltb, ◌==◌, ◌⊎◌, bytes_eq, bytes_eq_iff, contains, arith,
  if◌then◌else◌,
}
use mathlib.Core.Path.{subst}
use mkqd.Base.Int.{pos}
use mkqd.HttpMessage.{Response, Reply, no_reply, reply, get}
use mkqd.HttpSend.{read_body, default_max_response_bytes}
use mkqd.HttpSig.{Signature, SignResult, signed, failed, algorithm_rsa_sha256}
use mkqd.RetryAfter.Errors.{Error, wrap, message, unrecoverable, unknown_key, blocked, is_error}

-- RemoteResponse.
pub record RemoteResponse : Type 0 where
  pub key_id : Bytes
  pub algorithm : Bytes
  pub signature : Bytes

-- isNoSuchKey.
unfoldable pub is_no_such_key : Response → Bool
is_no_such_key resp =
    if resp.status == 410
    then true
    else if not (resp.status == 404)
    then false
    else contains (get (codes "Content-Type") resp.headers) (codes "json")

-- `decode_json` reads a RemoteResponse, and `decode` is base64.
module _ (decode_json : Bytes → Option RemoteResponse) (decode : Bytes → Option Bytes) where
  -- The checks of Sign on a decoded answer.
  unfoldable pub check_answer : Bytes → RemoteResponse → Bytes → SignResult
  check_answer key_id out sig =
      let resolved = if is_empty out.key_id then key_id else out.key_id in
      let algorithm = if is_empty out.algorithm then algorithm_rsa_sha256 else out.algorithm in
      if is_empty sig
      then failed (message (codes "empty signature"))
      else if not (is_empty key_id) && not (is_empty out.key_id) && not (bytes_eq out.key_id key_id)
      then failed (message (codes "another key"))
      else if is_empty resolved
      then failed (message (codes "no key id"))
      else signed (record { key_id = resolved; algorithm = algorithm; bytes = sig })

  -- Sign on the decoded signature.
  unfoldable pub check_decoded : Bytes → RemoteResponse → Option Bytes → SignResult
  unfolding check_answer
  check_decoded key_id out none = failed (message (codes "not base64"))
  check_decoded key_id out (some sig) = check_answer key_id out sig

  unfoldable pub check_response : Bytes → Option RemoteResponse → SignResult
  unfolding check_decoded
  check_response key_id none = failed (message (codes "not JSON"))
  check_response key_id (some out) = check_decoded key_id out (decode out.signature)

  -- Sign on the bytes that ReadBody keeps.
  unfoldable pub read_answer : Bytes → ℕ → Option Bytes → SignResult
  unfolding check_response
  read_answer key_id status none = failed (message (codes "read response"))
  read_answer key_id status (some payload) =
      if ltb status 200 || leb 300 status
      then failed (message (codes "status"))
      else check_response key_id (decode_json payload)

  -- Sign from the client's answer on.
  unfoldable pub sign_reply : Bytes → Reply → SignResult
  unfolding read_answer
  sign_reply key_id (no_reply err) =
      if is_error blocked err
      then failed (wrap (codes "sign") unrecoverable)
      else failed (wrap (codes "sign") err)
  sign_reply key_id (reply resp) =
      if is_no_such_key resp
      then failed (wrap (codes "no key") unknown_key)
      else read_answer key_id resp.status ((read_body resp.body (pos default_max_response_bytes)).0)

  IsChecked : Bytes → Bool → SignResult → Type 0
  IsChecked key_id unknown (failed e) = is_error unknown_key e ≡ unknown
  IsChecked key_id unknown (signed sig) =
      (sig.bytes ≢ []) × ((sig.key_id ≢ []) × ((key_id ≡ []) ⊎ (sig.key_id ≡ key_id)))

  check_decoded-IsChecked :
      (key_id : Bytes) (out : RemoteResponse) (sig : Option Bytes)
      → IsChecked key_id false (check_decoded key_id out sig)
  unfolding check_decoded check_answer IsChecked is_error
  check_decoded-IsChecked key_id out none = refl
  check_decoded-IsChecked key_id out (some sig) = ground (arith, bytes_eq_iff out.key_id key_id)

  check_response-IsChecked :
      (key_id : Bytes) (out : Option RemoteResponse)
      → IsChecked key_id false (check_response key_id out)
  unfolding check_response IsChecked is_error
  check_response-IsChecked key_id none = refl
  check_response-IsChecked key_id (some out) =
      check_decoded-IsChecked key_id out (decode out.signature)

  read_answer-IsChecked :
      (key_id : Bytes) (status : ℕ) (payload : Option Bytes)
      → IsChecked key_id false (read_answer key_id status payload)
  unfolding read_answer IsChecked is_error
  read_answer-IsChecked key_id status none = refl
  read_answer-IsChecked key_id status (some payload) =
      elim (Bool-cases (ltb status 200 || leb 300 status)) [
        | inl e ↦
            subst
              (λ (b : Bool). IsChecked key_id false (
                if b
                then failed (message (codes "status"))
                else check_response key_id (decode_json payload)))
              (sym e) refl
        | inr e ↦
            subst
              (λ (b : Bool). IsChecked key_id false (
                if b
                then failed (message (codes "status"))
                else check_response key_id (decode_json payload)))
              (sym e) (check_response-IsChecked key_id (decode_json payload))
      ]

  sign_reply-IsChecked :
      (key_id : Bytes) (resp : Response)
      → IsChecked key_id (is_no_such_key resp) (sign_reply key_id (reply resp))
  unfolding sign_reply IsChecked is_error
  sign_reply-IsChecked key_id resp = by_answer (is_no_such_key resp) _ (
      read_answer-IsChecked key_id resp.status
        ((read_body resp.body (pos default_max_response_bytes)).0))
    where
      by_answer :
          (b : Bool) (r : SignResult)
          → IsChecked key_id false r
          → IsChecked key_id b (if b then failed (wrap (codes "no key") unknown_key) else r)
      by_answer true r h = refl
      by_answer false r h = h

  -- A signature that the remote signer hands on is not empty and names a key, which is the key
  -- asked for where one was asked for.
  sign_reply-signed :
      (key_id : Bytes) (answer : Reply) (sig : Signature)
      → sign_reply key_id answer ≡ signed sig
      → (sig.bytes ≢ []) × ((sig.key_id ≢ []) × ((key_id ≡ []) ⊎ (sig.key_id ≡ key_id)))
  unfolding sign_reply IsChecked
  sign_reply-signed key_id (no_reply err) sig e = ground arith
  sign_reply-signed key_id (reply resp) sig e =
      subst (IsChecked key_id (is_no_such_key resp)) e (sign_reply-IsChecked key_id resp)

  -- Where a response makes the remote signer fail, the error is that of an unknown key exactly if
  -- isNoSuchKey holds of the response, whether or not its body can be read.
  sign_reply-unknown_key :
      (key_id : Bytes) (resp : Response) (err : Error)
      → sign_reply key_id (reply resp) ≡ failed err
      → is_error unknown_key err ≡ is_no_such_key resp
  unfolding IsChecked
  sign_reply-unknown_key key_id resp err e =
      subst (IsChecked key_id (is_no_such_key resp)) e (sign_reply-IsChecked key_id resp)
