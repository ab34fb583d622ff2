-- ===== src/Examples/Responses.antt =====
-- Responses, key files and the lifecycle at concrete inputs.
use mkqd.ApDeliver.Outcomes.{conclude_delivery}
use mkqd.ApDeliver.Remote.{RemoteResponse}
use mkqd.ApDeliver.Signed.{execute_sends_verified}
use mkqd.ApDeliver.{Executor, execute, fixed_headers, add_headers, is_signed_or_reserved}
use mkqd.Base.Int.{ℤ, pos}
use mkqd.Base.{
  ℕ, ◌≡◌, ◌≢◌, ◌↔◌, ◌⊎◌, ◌≤◌, ◌<◌, inl, inr, refl, none, some, Option, Bool, true, false, Bytes,
  codes, ap, arith, [], ◌∷◌, List, All, bytes_eq, lower, equal_fold, if◌then◌else◌, lookup, insert,
  map, to_lower, ◌++◌,
}
use mkqd.Examples.Delivery.{codec, honest, check, inbox_url, note, codec-IsBase64, honest-IsHonest}
use mkqd.HttpExec.Outcomes.{conclude_outcome, is_permanent, is_returned, asked_delay, or_backoff}
use mkqd.HttpExec.Overlay.{request_headers_overlaid}
use mkqd.HttpExec.Reserved.{request_headers_reserved}
use mkqd.HttpExec.{
  Job, Services, conclude, merge_headers, request_headers, return_value, is_reserved_header,
}
use mkqd.HttpMessage.{
  Request, Response, Reply, reply, no_reply, Url, Headers, get, returned, success, retry,
  permanent_failure,
}
use mkqd.HttpSend.{read_body}
use mkqd.HttpSig.{Signature, accepted, verify}
use mkqd.KeyCache.Fresh.{load-uncached}
use mkqd.KeyCache.{Content, holds, gone, KeyFile, Entry, present, load, load_uncached, run}
use mkqd.Lifecycle.Accounting.{ended, run_ops-IsAccounted}
use mkqd.Lifecycle.{
  Calls, Op, do_start, do_shutdown, new_runtime, run_ops, shutdown, start, is_serving,
}
use mkqd.RetryAfter.Errors.{message}
use mkqd.RetryAfter.{parse_retry_after}

abbrev no_time : Bytes → Option ℤ
no_time s = none

abbrev one_url : Bytes → Option Url
one_url s = some inbox_url

abbrev pub services : Services
services = record {
  parse_url = one_url;
  parse_time = no_time;
  json_valid = λ s. true;
  json_error = λ s. none;
  hmac = λ key text. text;
}

abbrev pub job : Job
job = record {
  queue = codes "mail";
  id = codes "1";
  name = codes "send";
  payload = codes "{}";
  attempts_made = pos 0;
  timestamp = pos 0;
  src = none;
}

-- A response that asks for two minutes.
abbrev busy : Response
busy = record {
  status = 503;
  status_text = codes "503";
  headers = (codes "retry-after", codes "120") ∷ [];
  body = record { bytes = codes "later"; fails = false };
}

abbrev tampering : List (Bytes × Bytes)
tampering = (codes "X-MKQD-Signature", codes "v1=0") ∷ (codes "X-Ok", codes "1") ∷ []

request_headers_reserved_example :
    get
      (codes "X-Mkqd-Signature")
      (request_headers services (codes "ua") (pos 5) note (codes "s") tampering job)
    ≡ get
        (codes "X-Mkqd-Signature")
        (request_headers services (codes "ua") (pos 5) note (codes "s") [] job)
unfolding is_reserved_header bytes_eq lower mkqd.Base.has_prefix
request_headers_reserved_example =
    request_headers_reserved services (codes "ua") (pos 5) note (codes "s") tampering job
      (codes "X-Mkqd-Signature") refl

abbrev configured_headers : Headers
configured_headers = (codes "X-B", codes "2") ∷ []

abbrev job_headers : Headers
job_headers = (codes "X-B", codes "3") ∷ []

one_key :
    (k : Bytes) → mkqd.Base.is_some (lookup k job_headers) ≡ true → bytes_eq (codes "X-B") k ≡ true
unfolding lookup
one_key k p =
    ground
      (arith, p, mkqd.Base.bytes_eq_iff k (codes "X-B"), mkqd.Base.bytes_eq_iff (codes "X-B") k)

request_headers_overlaid_example :
    get (codes "X-B") (
      request_headers services
        (codes "ua")
        (pos 5)
        note
        (codes "s")
        (merge_headers configured_headers job_headers)
        job)
    ≡ codes "3"
unfolding merge_headers lookup insert is_reserved_header bytes_eq lower mkqd.Base.has_prefix
request_headers_overlaid_example =
    request_headers_overlaid services (codes "ua") (pos 5) note (codes "s") job configured_headers
      job_headers (merge_headers configured_headers job_headers) (codes "X-B") (codes "3")
      (refl, tt) (refl, tt) (λ k. refl) refl refl (λ k p e. one_key k p)

abbrev status : ℕ
status = 422

-- What conclude_outcome states of a response.
abbrev Outcomes : Response → Bytes → Type 0
Outcomes resp payload =
    ((mkqd.HttpExec.classify resp.status resp.headers ≡ success)
      × (conclude services (pos 0) (pos 0) [] resp
          ≡ returned (return_value services resp.headers payload)))
    ⊎ ((mkqd.HttpExec.classify resp.status resp.headers ≡ permanent_failure)
        × ((is_permanent (conclude services (pos 0) (pos 0) [] resp) ≡ true)
            × (asked_delay (conclude services (pos 0) (pos 0) [] resp) ≡ none)))
    ⊎ ((mkqd.HttpExec.classify resp.status resp.headers ≡ retry)
        × ((is_returned (conclude services (pos 0) (pos 0) [] resp) ≡ false)
            × ((is_permanent (conclude services (pos 0) (pos 0) [] resp) ≡ false)
                × (asked_delay (conclude services (pos 0) (pos 0) [] resp)
                    ≡ or_backoff (
                        parse_retry_after no_time (get (codes "Retry-After") resp.headers)
                          (pos 0))))))

conclude_outcome_example : Outcomes busy (codes "later")
unfolding read_body mkqd.HttpSend.read_limit
conclude_outcome_example = conclude_outcome services (pos 0) (pos 0) [] (codes "later") busy refl

abbrev pub ap_services : mkqd.ApDeliver.Services
ap_services = record { parse_url = one_url; parse_time = no_time; now = pos 0; date = codes "Mon" }

abbrev Deliveries : Response → Type 0
Deliveries resp =
    ((mkqd.ApDeliver.classify resp.status ≡ success)
      × (mkqd.ApDeliver.conclude codec ap_services (pos 0) resp ≡ returned none))
    ⊎ ((mkqd.ApDeliver.classify resp.status ≡ permanent_failure)
        × ((is_permanent (mkqd.ApDeliver.conclude codec ap_services (pos 0) resp) ≡ true)
            × (asked_delay (mkqd.ApDeliver.conclude codec ap_services (pos 0) resp) ≡ none)))
    ⊎ ((mkqd.ApDeliver.classify resp.status ≡ retry)
        × ((is_returned (mkqd.ApDeliver.conclude codec ap_services (pos 0) resp) ≡ false)
            × ((is_permanent (mkqd.ApDeliver.conclude codec ap_services (pos 0) resp) ≡ false)
                × (asked_delay (mkqd.ApDeliver.conclude codec ap_services (pos 0) resp)
                    ≡ or_backoff (
                        parse_retry_after no_time (get (codes "Retry-After") resp.headers)
                          (pos 0))))))

conclude_delivery_example : Deliveries busy
unfolding read_body mkqd.HttpSend.read_limit
conclude_delivery_example = conclude_delivery codec ap_services (pos 0) (codes "later") busy refl

abbrev answer_json : Bytes → Option RemoteResponse
answer_json s = some (record { key_id = codes "k"; algorithm = []; signature = s })

abbrev as_it_is : Bytes → Option Bytes
as_it_is s = some s

abbrev ok_response : Response
ok_response = record busy { status = 200 }

abbrev later_signature : Signature
later_signature = record {
  key_id = codes "k";
  algorithm = codes "rsa-sha256";
  bytes = codes "later";
}

abbrev kept : Headers
kept = (codes "x-ok", codes "1") ∷ []

abbrev silent_client : Request → Bytes → Reply
silent_client req body = no_reply (message [])

-- A client that answers only requests whose signature verifies.
abbrev strict_client : Request → Bytes → Reply
strict_client req body = elim (verify codec check req body) [
  | accepted ↦ silent_client req body
  | _ ↦ reply busy
]

abbrev deliverer : Executor
deliverer = record {
  signer = honest;
  client = silent_client;
  user_agent = codes "ua";
  max_bytes = pos 0;
  content_type = codes "application/activity+json";
}

abbrev pub create : mkqd.ApDeliver.Payload
create = record {
  inbox = codes "https://b.example/inbox";
  key_id = codes "k";
  activity = note;
  body = [];
  content_type = [];
  headers = [];
}

execute_sends_verified_example :
    execute codec ap_services deliverer (some create)
    ≡ execute codec ap_services (record deliverer { client = strict_client }) (some create)
execute_sends_verified_example =
    execute_sends_verified codec ap_services check codec-IsBase64 deliverer strict_client
      (some create) honest-IsHonest (λ req body e. strict_agrees req body e)
  where
    strict_agrees :
        (req : Request) (body : Bytes)
        → verify codec check req body ≡ accepted
        → silent_client req body ≡ strict_client req body
    strict_agrees req body e = rw (strict_client, e)

-- A file whose content is a byte of its time, so that the time tells the content.
abbrev content_of : Bytes → ℤ → ℤ → Content
content_of name (pos t) size = holds (t ∷ [])
content_of name t size = gone

abbrev at : ℕ → Bytes → Entry
at t name = present (record { mod_time = pos t; size = pos 1; content = holds (t ∷ []) })

load-uncached_example :
    (load
      (λ s. s)
      as_it_is
      (at 9)
      (codes "k")
      (run (λ s. s) as_it_is ((at 8, codes "k") ∷ (at 8, codes "k") ∷ []) [])).0
    ≡ load_uncached (λ s. s) as_it_is (at 9) (codes "k")
unfolding mkqd.KeyCache.Fresh.IsDated
load-uncached_example =
    load-uncached (λ s. s) as_it_is content_of ((at 8, codes "k") ∷ (at 8, codes "k") ∷ []) (at 9)
      (codes "k") (refl, (refl, tt)) refl

-- Two queues, of which the second does not start.
abbrev calls : Calls
calls = record {
  build_queues = none;
  queues = codes "a" ∷ codes "b" ∷ [];
  start_worker = λ name. if bytes_eq name (codes "b") then some (message []) else none;
  server_enabled = false;
  listen = none;
  close_server = none;
  drain = λ name. some (message []);
  stop = λ name. none;
  close_client = none;
  close_redis = none;
}

run_ops-IsAccounted_example :
    mkqd.Lifecycle.Accounting.IsAccounted
      (run_ops (do_start calls ∷ do_shutdown calls ∷ []) new_runtime)
run_ops-IsAccounted_example = run_ops-IsAccounted (do_start calls ∷ do_shutdown calls ∷ [])
