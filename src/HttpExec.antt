-- ===== src/HttpExec.antt =====
-- executor/httpexec: the "http" and "webhook" executors, which post a job and turn the response into
-- an outcome for mkq. Of an error's text the model keeps what comes from the response.
pub mod Fields
pub mod Reserved
pub mod Overlay
pub mod Order
pub mod Outcomes
pub mod Setup
pub mod Guarded
pub mod Dispatch
use mkqd.Base.{
  ℕ, Bool, true, false, not, ◌&&◌, ◌||◌, Option, none, some, List, [], ◌∷◌, ◌++◌, Bytes, codes,
  is_empty, leb, ltb, ◌==◌, to_lower, bytes_eq, equal_fold, has_prefix, contains, trim, is_space,
  insert, if◌then◌else◌,
}
use mkqd.Base.Int.{ℤ, pos, ◌+ℤ◌, wrap64}
use mkqd.HttpMessage.{
  Headers, Url, Request, Response, Reply, Result, Outcome, no_reply, reply, returned, fails_with,
  success, retry, permanent_failure, get, set, set_all, post,
}
use mkqd.HttpSend.{read_body, truncate, sign_hmac}
use mkqd.HttpSend.Decimal.{format_int}
pub use mkqd.Registry.Executors.{Job}
use mkqd.RetryAfter.Errors.{Error, wrap, message, unrecoverable, blocked, is_error}
use mkqd.RetryAfter.{parse_retry_after, with_retry_after}
use Fields.{check_headers, sanitize_header_value}

abbrev pub failed_reason_limit : ℕ
failed_reason_limit = 1024

-- isReservedHeader.
unfoldable pub is_reserved_header : Bytes → Bool
is_reserved_header name =
    equal_fold name (codes "Content-Type")
    || equal_fold name (codes "User-Agent")
    || has_prefix (to_lower name) (codes "x-mkqd-")

-- permanent: a wrap of mkq.ErrUnrecoverable.
abbrev pub permanent : Bytes → Error
permanent text = wrap text unrecoverable

-- classify.
unfoldable pub classify : ℕ → Headers → Outcome
classify status h =
    if leb 200 status && ltb status 300
    then success
    else if equal_fold (get (codes "X-Mkqd-Retry") h) (codes "no")
    then permanent_failure
    else if leb 300 status && ltb status 400
    then permanent_failure
    else if status == 400 || status == 409 || status == 410 || status == 422
    then permanent_failure
    else retry

-- mergeHeaders: the later write to a key stays.
unfoldable pub merge_headers : List (Bytes × Bytes) → List (Bytes × Bytes) → List (Bytes × Bytes)
merge_headers base [] = base
merge_headers base ((k, v) ∷ over) = merge_headers (insert k v base) over

-- The loop of send over the extra headers, in the order the map is read.
unfoldable pub set_extra : List (Bytes × Bytes) → Headers → Headers
set_extra [] h = h
set_extra ((k, v) ∷ extra) h = set_extra extra (if is_reserved_header k then h else set k v h)

-- The headers that send sets on every request.
unfoldable pub fixed_headers : Bytes → ℤ → Job → List (Bytes × Bytes)
fixed_headers user_agent ts job =
    (codes "Content-Type", codes "application/json")
    ∷ (codes "User-Agent", user_agent)
    ∷ (codes "X-Mkqd-Queue", sanitize_header_value job.queue)
    ∷ (codes "X-Mkqd-Job-Id", sanitize_header_value job.id)
    ∷ (codes "X-Mkqd-Job-Name", sanitize_header_value job.name)
    ∷ (codes "X-Mkqd-Attempt", format_int (wrap64 (job.attempts_made +ℤ pos 1)))
    ∷ (codes "X-Mkqd-Timestamp", format_int ts)
    ∷ []

-- WebhookPayload.
pub record Payload : Type 0 where
  pub url : Bytes
  pub secret : Bytes
  pub headers : List (Bytes × Bytes)
  pub body : Bytes

-- The part of WebhookOptions that Execute reads.
pub record Webhook : Type 0 where
  pub secret : Bytes
  pub headers : List (Bytes × Bytes)

-- The packages net/url, net/http, encoding/json and crypto/hmac, as the executors use them.
-- `json_error` is the field "error" of an object, where the text is one.
pub record Services : Type 0 where
  pub parse_url : Bytes → Option Url
  pub parse_time : Bytes → Option ℤ
  pub json_valid : Bytes → Bool
  pub json_error : Bytes → Option Bytes
  pub hmac : Bytes → Bytes → Bytes

pub record Sender : Type 0 where
  pub client : Request → Bytes → Reply
  pub user_agent : Bytes
  pub max_bytes : ℤ

module _ (s : Services) where
  -- checkTarget; true is the nil error.
  unfoldable pub check_target : Bytes → Bool
  check_target raw = if is_empty raw then false else elim (s.parse_url raw) [
    | none ↦ false
    | some u ↦
        (bytes_eq u.scheme (codes "http") || bytes_eq u.scheme (codes "https"))
        && not (is_empty u.host)
  ]

  -- returnValue.
  unfoldable pub return_value : Headers → Bytes → Option Bytes
  return_value h payload =
      let trimmed = trim is_space payload in
      if is_empty trimmed
      then none
      else if not (contains (get (codes "Content-Type") h) (codes "json"))
      then none
      else if not (s.json_valid trimmed)
      then none
      else some trimmed

  abbrev error_field : Bytes → Option Bytes → Bytes
  error_field body none = body
  error_field body (some e) = if is_empty e then body else e

  -- detail.
  unfoldable pub detail : Headers → Bytes → Bytes
  detail h payload =
      let trimmed = trim is_space payload in
      if is_empty trimmed
      then codes "(empty response body)"
      else if contains (get (codes "Content-Type") h) (codes "json")
      then truncate (error_field trimmed (s.json_error trimmed)) failed_reason_limit
      else truncate trimmed failed_reason_limit

  -- The headers that send sets on a request; `ts` is the Unix time.
  unfoldable pub request_headers : Bytes → ℤ → Bytes → Bytes → List (Bytes × Bytes) → Job → Headers
  request_headers user_agent ts body secret extra job =
      let fixed = set_all (fixed_headers user_agent ts job) (set_extra extra []) in
      if is_empty secret
      then fixed
      else set (codes "X-Mkqd-Signature") (sign_hmac s.hmac secret ts body) fixed

  -- The error of the retry branch, with the delay that the response asks for.
  unfoldable pub delayed : ℤ → Bytes → Error → Error
  delayed now ra err = if is_empty ra then err else elim (parse_retry_after s.parse_time ra now) [
    | none ↦ err
    | some d ↦ with_retry_after d err
  ]

  -- The end of send, from the response on.
  unfoldable pub conclude : ℤ → ℤ → Bytes → Response → Result
  conclude now max_bytes target resp = elim ((read_body resp.body max_bytes).0) [
    | none ↦ fails_with (message (codes "read response"))
    | some payload ↦
        let text = resp.status_text ++ (codes ": " ++ detail resp.headers payload) in
        elim (classify resp.status resp.headers) [
          | success ↦ returned (return_value resp.headers payload)
          | permanent_failure ↦ fails_with (permanent text)
          | retry ↦ fails_with (delayed now (get (codes "Retry-After") resp.headers) (message text))
        ]
  ]

  -- send; `now` is the time in nanoseconds.
  unfoldable pub send : Sender → ℤ → ℤ → Bytes → Bytes → Bytes → List (Bytes × Bytes) → Job → Result
  send snd ts now target body secret extra job = elim (s.parse_url target) [
    | none ↦ fails_with (permanent (codes "build request"))
    | some u ↦
        elim (snd.client (post u (request_headers snd.user_agent ts body secret extra job)) body) [
          | no_reply err ↦
              if is_error blocked err
              then fails_with (permanent (codes "not reachable"))
              else fails_with (wrap (codes "POST") err)
          | reply resp ↦ conclude now snd.max_bytes target resp
        ]
  ]

  -- (*webhookExecutor).Execute; `payload` is what encoding/json reads of the job's data.
  unfoldable pub execute_webhook : Webhook → Sender → ℤ → ℤ → Option Payload → Job → Result
  execute_webhook opts snd ts now none job = fails_with (permanent (codes "payload"))
  execute_webhook opts snd ts now (some p) job =
      if not (check_target p.url)
      then fails_with (permanent (codes "target"))
      else if not (check_headers p.headers)
      then fails_with (permanent (codes "headers"))
      else let secret = if is_empty p.secret then opts.secret else p.secret in
        let body = if is_empty p.body then codes "null" else p.body in
        send snd ts now p.url body secret (merge_headers opts.headers p.headers) job
