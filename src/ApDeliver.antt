-- ===== src/ApDeliver.antt =====
-- executor/apdeliver: the "ap-deliver" executor, which signs a payload and posts it to an ActivityPub
-- inbox, and the signer that asks an application for signatures. Of an error's text the model keeps
-- what comes from the response.
pub mod Fields
pub mod Remote
pub mod Asking
pub mod Binding
pub mod Signed
pub mod Outcomes
pub mod Guarded
use mkqd.Base.{
  ℕ, Bool, true, false, not, ◌&&◌, ◌||◌, Option, none, some, List, [], ◌∷◌, ◌++◌, Bytes, codes,
  is_empty, leb, ltb, ◌==◌, to_lower, bytes_eq, mem_bytes, trim, is_space, if◌then◌else◌,
}
use mkqd.Base.Int.{ℤ}
use mkqd.HttpMessage.{
  Headers, Url, Request, Response, Reply, Result, Outcome, no_reply, reply, returned, fails_with,
  success, retry, permanent_failure, get, set, set_all, post,
}
use mkqd.HttpSend.{read_body, truncate}
use mkqd.HttpSig.{Crypto, Signer, SignedRequest, ready, refused, sign_request}
use mkqd.RetryAfter.Errors.{Error, wrap, message, unrecoverable, unknown_key, blocked, is_error}
use mkqd.RetryAfter.{parse_retry_after, with_retry_after}
use Fields.{valid_header_name, valid_header_value}

abbrev pub failed_reason_limit : ℕ
failed_reason_limit = 1024

-- Payload.
pub record Payload : Type 0 where
  pub inbox : Bytes
  pub key_id : Bytes
  pub activity : Bytes
  pub body : Bytes
  pub content_type : Bytes
  pub headers : List (Bytes × Bytes)

abbrev starts_object : Bytes → Bool
starts_object [] = false
starts_object (c ∷ s) = c == b'{'

-- resolveBody: the bytes to send and their type; `none` is an error.
unfoldable pub resolve_body : Payload → Bytes → Option (Bytes × Bytes)
resolve_body p default_type =
    let content_type = if is_empty p.content_type then default_type else p.content_type in
    let activity = trim is_space p.activity in
    if not (is_empty activity) && not (is_empty p.body)
    then none
    else if not (is_empty activity) && not (starts_object activity)
    then none
    else if not (is_empty activity)
    then some (activity, content_type)
    else if not (is_empty p.body)
    then some (p.body, content_type)
    else none

-- classify.
unfoldable pub classify : ℕ → Outcome
classify status =
    if leb 200 status && ltb status 300
    then success
    else if status == 401 || status == 408 || status == 429
    then retry
    else if leb 300 status && ltb status 500
    then permanent_failure
    else retry

-- detail.
unfoldable pub detail : Bytes → Bytes
detail payload =
    let trimmed = trim is_space payload in
    if is_empty trimmed then codes "(empty response body)" else truncate trimmed failed_reason_limit

abbrev pub controlled : List Bytes
controlled =
    codes "host"
    ∷ codes "date"
    ∷ codes "digest"
    ∷ codes "signature"
    ∷ codes "content-type"
    ∷ codes "content-length"
    ∷ codes "user-agent"
    ∷ codes "accept"
    ∷ []

-- isSignedOrReserved.
unfoldable pub is_signed_or_reserved : Bytes → Bool
is_signed_or_reserved name = mem_bytes (to_lower name) controlled

-- The loop of Execute over the payload's headers, in the order the map is read; `none` is an error.
unfoldable pub add_headers : List (Bytes × Bytes) → Headers → Option Headers
add_headers [] h = some h
add_headers ((k, v) ∷ rest) h =
    let skip = add_headers rest h in
    let next = add_headers rest (set k v h) in
    if is_signed_or_reserved k
    then skip
    else if not (valid_header_name k) || not (valid_header_value v)
    then none
    else next

abbrev pub permanent : Bytes → Error
permanent text = wrap text unrecoverable

-- The headers that Execute sets after the payload's.
unfoldable pub fixed_headers : Bytes → Bytes → List (Bytes × Bytes)
fixed_headers content_type user_agent =
    (codes "Content-Type", content_type)
    ∷ (codes "User-Agent", user_agent)
    ∷ (codes "Accept", codes "application/activity+json, application/ld+json")
    ∷ []

-- Executor. `client` is its HTTP client.
pub record Executor : Type 0 where
  pub signer : Signer
  pub client : Request → Bytes → Reply
  pub user_agent : Bytes
  pub max_bytes : ℤ
  pub content_type : Bytes

-- The packages net/url and net/http, with the clock that Execute reads: as nanoseconds, and as the
-- text of a Date header.
pub record Services : Type 0 where
  pub parse_url : Bytes → Option Url
  pub parse_time : Bytes → Option ℤ
  pub now : ℤ
  pub date : Bytes

module _ (c : Crypto) (s : Services) where
  -- checkInbox; true is the nil error.
  unfoldable pub check_inbox : Bytes → Bool
  check_inbox raw = if is_empty raw then false else elim (s.parse_url raw) [
    | none ↦ false
    | some u ↦
        (bytes_eq u.scheme (codes "http") || bytes_eq u.scheme (codes "https"))
        && not (is_empty u.host)
  ]

  unfoldable pub delayed : Bytes → Error → Error
  delayed ra err = if is_empty ra then err else elim (parse_retry_after s.parse_time ra s.now) [
    | none ↦ err
    | some d ↦ with_retry_after d err
  ]

  -- Execute from the response on.
  unfoldable pub conclude : ℤ → Response → Result
  conclude max_bytes resp = elim ((read_body resp.body max_bytes).0) [
    | none ↦ fails_with (message (codes "read response"))
    | some payload ↦
        let text = resp.status_text ++ (codes ": " ++ detail payload) in
        elim (classify resp.status) [
          | success ↦ returned none
          | permanent_failure ↦ fails_with (permanent text)
          | retry ↦ fails_with (delayed (get (codes "Retry-After") resp.headers) (message text))
        ]
  ]

  -- Execute from the client's answer on.
  unfoldable pub answered : ℤ → Reply → Result
  answered max_bytes (no_reply err) =
      if is_error blocked err
      then fails_with (permanent (codes "not reachable"))
      else fails_with (wrap (codes "POST") err)
  answered max_bytes (reply resp) = conclude max_bytes resp

  -- Execute from SignRequest on.
  unfoldable pub dispatched : Executor → Bytes → SignedRequest → Result
  dispatched e body (refused err) =
      if is_error unknown_key err
      then fails_with (permanent (codes "key"))
      else fails_with (wrap (codes "sign") err)
  dispatched e body (ready req) = answered e.max_bytes (e.client req body)

  -- Execute behind resolveBody.
  unfoldable pub deliver : Executor → Payload → Bytes → Bytes → Result
  deliver e p body content_type =
      if not (valid_header_value content_type)
      then fails_with (permanent (codes "contentType"))
      else if not (check_inbox p.inbox)
      then fails_with (permanent (codes "inbox"))
      else elim (s.parse_url p.inbox) [
        | none ↦ fails_with (permanent (codes "build request"))
        | some u ↦ elim (add_headers p.headers []) [
          | none ↦ fails_with (permanent (codes "header"))
          | some h ↦ dispatched e body (
              sign_request c s.date (post u (set_all (fixed_headers content_type e.user_agent) h))
                body p.key_id (some e.signer))
        ]
      ]

  -- Execute; the payload is what encoding/json reads of the job's data, `none` where it reads none.
  unfoldable pub execute : Executor → Option Payload → Result
  execute e none = fails_with (permanent (codes "payload"))
  execute e (some p) = elim (resolve_body p e.content_type) [
    | none ↦ fails_with (permanent (codes "body"))
    | some (body, content_type) ↦ deliver e p body content_type
  ]
