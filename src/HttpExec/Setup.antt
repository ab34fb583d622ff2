-- ===== src/HttpExec/Setup.antt =====
-- The configuration of the "http" and "webhook" executors, their constructors, and Execute of the
-- "http" one. `make_client` is httpsend.NewClient, and `encode` marshals the dispatch envelope.
use mathlib.Core.Path.{subst}
use mkqd.Base.{
  ◌≡◌, refl, Bool, true, false, not, Option, none, some, Bytes, codes, is_empty, List, arith,
  if-elim, if◌then◌else◌, ◌++◌,
}
use mkqd.Base.Int.{ℤ, pos, ltb_ℤ, ◌≤ℤ◌}
use mkqd.HttpExec.Fields.{check_headers}
use mkqd.HttpExec.{Job, Sender, Services, permanent, check_target, send}
use mkqd.HttpMessage.{Request, Reply, Result, fails_with}

abbrev pub default_timeout : ℤ
default_timeout = pos 30000000000

abbrev pub default_max_response_bytes : ℤ
default_max_response_bytes = pos 65536

-- Options; WebhookOptions has the same fields but the URL, which is empty there.
pub record Options : Type 0 where
  pub url : Bytes
  pub timeout : ℤ
  pub secret : Bytes
  pub user_agent : Bytes
  pub headers : List (Bytes × Bytes)
  pub max_response_bytes : ℤ
  pub allow_private_network : Option Bool

-- `if n <= 0 { return d }`.
abbrev positive_or : ℤ → ℤ → ℤ
positive_or n d = if not (ltb_ℤ (pos 0) n) then d else n

unfoldable pub timeout : Options → ℤ
timeout o = positive_or o.timeout default_timeout

unfoldable pub max_response_bytes : Options → ℤ
max_response_bytes o = positive_or o.max_response_bytes default_max_response_bytes

abbrev or_default : Option Bool → Bool → Bool
or_default none d = d
or_default (some b) d = b

-- Options.allowPrivate.
unfoldable pub allow_private : Options → Bool
allow_private o = or_default o.allow_private_network true

-- WebhookOptions.allowPrivate.
unfoldable pub allow_private_webhook : Options → Bool
allow_private_webhook o = or_default o.allow_private_network false

-- mkqd.UserAgent.
unfoldable pub user_agent_of : (version : Bytes) → Bytes
user_agent_of version = codes "mkqd/" ++ version

unfoldable pub user_agent : Bytes → Bytes → Bytes
unfolding user_agent_of
user_agent version override = if is_empty override then user_agent_of version else override

-- httpExecutor and webhookExecutor.
pub record Built : Type 0 where
  pub opts : Options
  pub snd : Sender

-- envelope: the JSON body of a dispatch.
pub record Envelope : Type 0 where
  pub queue : Bytes
  pub id : Bytes
  pub name : Bytes
  pub payload : Bytes
  pub attempts_made : ℤ
  pub timestamp : ℤ

-- What Execute of the "http" executor marshals.
unfoldable pub envelope_of : Job → Envelope
envelope_of job = record {
  queue = job.queue;
  id = job.id;
  name = job.name;
  payload = job.payload;
  attempts_made = job.attempts_made;
  timestamp = job.timestamp;
}

module _ (s : Services) (make_client : Bool → Request → Bytes → Reply) (version : Bytes) where
  unfoldable pub new_sender : Bool → ℤ → Bytes → Sender
  new_sender allow_private max_bytes ua = record {
    client = make_client allow_private;
    user_agent = ua;
    max_bytes = max_bytes;
  }

  -- newHTTPExecutor, behind the decoder; `none` is an error.
  unfoldable pub new_http_executor : Options → Option Built
  unfolding new_sender user_agent allow_private max_response_bytes
  new_http_executor o =
      if is_empty o.url
      then none
      else if not (check_target s o.url)
      then none
      else if not (check_headers o.headers)
      then none
      else some (record {
        opts = o;
        snd = new_sender (allow_private o) (max_response_bytes o) (user_agent version o.user_agent);
      })

  -- newWebhookExecutor, behind the decoder.
  unfoldable pub new_webhook_executor : Options → Option Built
  unfolding new_sender user_agent allow_private_webhook max_response_bytes
  new_webhook_executor o =
      if not (check_headers o.headers)
      then none
      else some (record {
        opts = o;
        snd =
            new_sender (allow_private_webhook o) (max_response_bytes o)
              (user_agent version o.user_agent);
      })

  -- (*httpExecutor).Execute; `ts` and `now` are the time in seconds and in nanoseconds.
  unfoldable pub execute_http : (Envelope → Option Bytes) → Built → ℤ → ℤ → Job → Result
  unfolding envelope_of
  execute_http encode ex ts now job = elim (encode (envelope_of job)) [
    | none ↦ fails_with (permanent (codes "encode dispatch envelope"))
    | some body ↦ send s ex.snd ts now ex.opts.url body ex.opts.secret ex.opts.headers job
  ]

  -- What both kinds of executor are like, once they are built: `private` is whether the payload or
  -- the configuration may name a private address.
  abbrev pub IsSetUp : Bool → Options → Built → Type 0
  IsSetUp private o ex =
      (check_headers o.headers ≡ true)
      × ((ex.snd.client ≡ make_client private)
          × ((pos 1 ≤ℤ ex.snd.max_bytes) × (pos 1 ≤ℤ timeout o)))

  abbrev OnBuilt : (Built → Type 0) → Option Built → Type 0
  OnBuilt P none = Unit {0}
  OnBuilt P (some b) = P b

  limits : (o : Options) → (pos 1 ≤ℤ max_response_bytes o) × (pos 1 ≤ℤ timeout o)
  unfolding max_response_bytes timeout
  limits o = ground arith

  http-IsSetUp :
      (o : Options)
      → OnBuilt
          (λ b. (check_target s o.url ≡ true) × IsSetUp (allow_private o) o b)
          (new_http_executor o)
  unfolding new_http_executor new_sender
  http-IsSetUp o =
      if-elim (OnBuilt _) (is_empty o.url) _ _ (λ _. tt)
        (λ _.
          if-elim (OnBuilt _) (not (check_target s o.url)) _ _ (λ _. tt)
            (λ t.
              if-elim (OnBuilt _) (not (check_headers o.headers)) _ _ (λ _. tt)
                (λ h. (ground (arith, t), (ground (arith, h), (refl, limits o))))))

  webhook-IsSetUp :
      (o : Options) → OnBuilt (IsSetUp (allow_private_webhook o) o) (new_webhook_executor o)
  unfolding new_webhook_executor new_sender
  webhook-IsSetUp o =
      if-elim (OnBuilt _) (not (check_headers o.headers)) _ _ (λ _. tt)
        (λ h. (ground (arith, h), (refl, limits o)))

  -- Executors that could be built have headers that can be sent, a client that reaches private
  -- addresses only as configured (by default for the "http" executor, and not for the "webhook"
  -- one), positive limits, and the "http" one a target that can be posted to.
  pub new_executors-IsSetUp :
      (o p : Options) (http webhook : Built)
      → new_http_executor o ≡ some http
      → new_webhook_executor p ≡ some webhook
      → ((check_target s o.url ≡ true) × IsSetUp (allow_private o) o http)
        × IsSetUp (allow_private_webhook p) p webhook
  new_executors-IsSetUp o p http webhook e f =
      (subst (OnBuilt _) e (http-IsSetUp o), subst (OnBuilt _) f (webhook-IsSetUp p))
