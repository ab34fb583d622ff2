-- ===== src/HttpExec/Outcomes.antt =====
-- What the runtime and mkq make of a response.
use mkqd.Base.{
  ℕ, ◌≡◌, refl, ◌≤◌, ◌<◌, Bool, true, false, not, ◌++◌, Option, none, some, [], ◌∷◌, Bytes, codes,
  equal_fold, arith, ◌↔◌, ◌⊎◌, if◌then◌else◌,
}
use mkqd.Base.Int.{ℤ, pos, ltb_ℤ}
use mkqd.HttpMessage.{
  Response, Headers, Result, fails_with, returned, retry, permanent_failure, success, get,
}
use mkqd.HttpSend.{read_body}
use mkqd.RetryAfter.Errors.{message, unrecoverable, is_error, as_retry_after}
use mkqd.RetryAfter.{parse_retry_after, retry_delay, with_retry_after, max_retry_after}
use mkqd.HttpExec.{Services, conclude, classify, delayed, detail, return_value, permanent}

-- A permanent failure is exactly: no 2xx, and the response header X-Mkqd-Retry says "no" in any
-- case, or the status is a redirect, 400, 409, 410 or 422.
pub classify_permanent_iff :
    (status : ℕ) (h : Headers)
    → (classify status h ≡ permanent_failure) ↔ (
        ((status < 200) ⊎ (300 ≤ status))
        × ((equal_fold (get (codes "X-Mkqd-Retry") h) (codes "no") ≡ true)
            ⊎ ((300 ≤ status) × (status < 400))
            ⊎ (status ≡ 400)
            ⊎ (status ≡ 409)
            ⊎ (status ≡ 410)
            ⊎ (status ≡ 422)))
unfolding classify
classify_permanent_iff status h = ground arith

-- The end of send, seen by mkq and the runtime.
abbrev pub is_permanent : Result → Bool
is_permanent (returned v) = false
is_permanent (fails_with e) = is_error unrecoverable e

abbrev pub asked_delay : Result → Option ℤ
asked_delay (returned v) = none
asked_delay (fails_with e) = (retry_delay e).0

abbrev pub is_returned : Result → Bool
is_returned (returned v) = true
is_returned (fails_with e) = false

abbrev pub capped : ℤ → Option ℤ
capped d =
    if not (ltb_ℤ (pos 0) d)
    then none
    else if ltb_ℤ (pos max_retry_after) d
    then some (pos max_retry_after)
    else some d

abbrev pub or_backoff : Option ℤ → Option ℤ
or_backoff none = none
or_backoff (some d) = capped d

parse_retry_after-nil : (s : Services) (now : ℤ) → parse_retry_after s.parse_time [] now ≡ none
unfolding parse_retry_after
parse_retry_after-nil s now = refl

delayed_lem :
    (s : Services) (now : ℤ) (ra text : Bytes)
    → ((retry_delay (delayed s now ra (message text))).0
        ≡ or_backoff (parse_retry_after s.parse_time ra now))
      × (is_error unrecoverable (delayed s now ra (message text)) ≡ false)
unfolding delayed retry_delay is_error as_retry_after with_retry_after
delayed_lem s now [] text = ground (arith, parse_retry_after-nil s now)
delayed_lem s now (c ∷ ra) text = ground arith

abbrev asked : Services → ℤ → Response → Option ℤ
asked s now resp =
    or_backoff (parse_retry_after s.parse_time (get (codes "Retry-After") resp.headers) now)

permanent_lem :
    (text : Bytes)
    → (is_error unrecoverable (permanent text) ≡ true) × ((retry_delay (permanent text)).0 ≡ none)
unfolding is_error retry_delay as_retry_after
permanent_lem text = (refl, refl)

-- Once the body of a response is read, the outcome of classify alone decides what mkq sees: a
-- success is returned; a permanent failure is unrecoverable and asks for no delay; any other
-- response is retried, with the delay of its Retry-After header, at most one hour, where that can
-- be read as a positive delay, and otherwise with the configured backoff.
pub conclude_outcome :
    (s : Services) (now max_bytes : ℤ) (target payload : Bytes) (resp : Response)
    → (read_body resp.body max_bytes).0 ≡ some payload
    → ((classify resp.status resp.headers ≡ success)
        × (conclude s now max_bytes target resp ≡ returned (return_value s resp.headers payload)))
      ⊎ ((classify resp.status resp.headers ≡ permanent_failure)
          × ((is_permanent (conclude s now max_bytes target resp) ≡ true)
              × (asked_delay (conclude s now max_bytes target resp) ≡ none)))
      ⊎ ((classify resp.status resp.headers ≡ retry)
          × ((is_returned (conclude s now max_bytes target resp) ≡ false)
              × ((is_permanent (conclude s now max_bytes target resp) ≡ false)
                  × (asked_delay (conclude s now max_bytes target resp) ≡ asked s now resp))))
unfolding conclude
conclude_outcome s now max_bytes target payload resp e =
    let text = resp.status_text ++ (codes ": " ++ detail s resp.headers payload) in
    ground
      (arith, permanent_lem text, delayed_lem s now (get (codes "Retry-After") resp.headers) text)
