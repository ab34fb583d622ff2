-- ===== src/ApDeliver/Outcomes.antt =====
-- What the runtime and mkq make of a delivery.
use mkqd.Base.{
  ℕ, ◌≡◌, refl, ◌≤◌, ◌<◌, ◌≢◌, true, false, ◌++◌, none, some, [], ◌∷◌, Bytes, codes, arith, ◌↔◌,
  ◌⊎◌,
}
use mkqd.Base.Int.{ℤ}
use mkqd.HttpMessage.{Response, returned, retry, permanent_failure, success, get}
use mkqd.HttpExec.Outcomes.{is_permanent, is_returned, asked_delay, or_backoff}
use mkqd.HttpSend.{read_body}
use mkqd.HttpSig.{Crypto}
use mkqd.RetryAfter.Errors.{message, unrecoverable, is_error, as_retry_after}
use mkqd.RetryAfter.{parse_retry_after, retry_delay, with_retry_after}
use mkqd.ApDeliver.{Services, conclude, classify, delayed, detail, permanent}

-- A delivery fails for good exactly on a redirect or a 4xx other than 401, 408 and 429.
pub classify_permanent_iff_4xx :
    (status : ℕ)
    → (classify status ≡ permanent_failure)
      ↔ (((300 ≤ status) × (status < 500)) × ((status ≢ 401) × ((status ≢ 408) × (status ≢ 429))))
unfolding classify
classify_permanent_iff_4xx status = ground arith

parse_retry_after-nil : (c : Crypto) (s : Services) → parse_retry_after s.parse_time [] s.now ≡ none
unfolding parse_retry_after
parse_retry_after-nil c s = refl

delayed_lem :
    (c : Crypto) (s : Services) (ra text : Bytes)
    → ((retry_delay (delayed c s ra (message text))).0
        ≡ or_backoff (parse_retry_after s.parse_time ra s.now))
      × (is_error unrecoverable (delayed c s ra (message text)) ≡ false)
unfolding delayed retry_delay is_error as_retry_after with_retry_after
delayed_lem c s [] text = ground (arith, parse_retry_after-nil c s)
delayed_lem c s (b ∷ ra) text = ground arith

permanent_lem :
    (text : Bytes)
    → (is_error unrecoverable (permanent text) ≡ true) × ((retry_delay (permanent text)).0 ≡ none)
unfolding is_error retry_delay as_retry_after
permanent_lem text = (refl, refl)

-- Once the body of an inbox's response is read, the outcome of classify alone decides what mkq
-- sees: a success is returned without a value; a permanent failure is unrecoverable and asks for no
-- delay; any other response is retried, with the delay of its Retry-After header, at most one hour,
-- where that can be read as a positive delay, and otherwise with the configured backoff.
pub conclude_delivery :
    (c : Crypto) (s : Services) (max_bytes : ℤ) (payload : Bytes) (resp : Response)
    → (read_body resp.body max_bytes).0 ≡ some payload
    → ((classify resp.status ≡ success) × (conclude c s max_bytes resp ≡ returned none))
      ⊎ ((classify resp.status ≡ permanent_failure)
          × ((is_permanent (conclude c s max_bytes resp) ≡ true)
              × (asked_delay (conclude c s max_bytes resp) ≡ none)))
      ⊎ ((classify resp.status ≡ retry)
          × ((is_returned (conclude c s max_bytes resp) ≡ false)
              × ((is_permanent (conclude c s max_bytes resp) ≡ false)
                  × (asked_delay (conclude c s max_bytes resp)
                      ≡ or_backoff (
                          parse_retry_after s.parse_time
                            (get (codes "Retry-After") resp.headers)
                            s.now)))))
unfolding conclude
conclude_delivery c s max_bytes payload resp e =
    let text = resp.status_text ++ (codes ": " ++ detail payload) in
    ground
      (arith, permanent_lem text, delayed_lem c s (get (codes "Retry-After") resp.headers) text)
