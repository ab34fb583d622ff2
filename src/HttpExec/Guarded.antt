-- ===== src/HttpExec/Guarded.antt =====
-- The "webhook" executor in its default configuration, from the options to the connection.
use mathlib.Core.Path.{fun_ext}
use mkqd.Base.{◌≡◌, ap, Bool, false, not, Option, none, some, Bytes, if◌then◌else◌}
use mkqd.Base.Int.{ℤ}
use mkqd.HttpExec.Setup.{
  Options, Built, allow_private_webhook, new_webhook_executor, new_sender, user_agent,
  max_response_bytes,
}
use mkqd.HttpExec.{Job, Sender, Services, Payload, execute_webhook}
use mkqd.HttpExec.Fields.{check_headers}
use mkqd.HttpMessage.{Result}
use mkqd.HttpSend.Client.{Network, HttpDo, IsControlled, on_network, SamePublic, guarded_reply}
use mkqd.SafeDial.Address.{Addr}

module _ (split_host_port : Bytes → Option Bytes) (parse_addr : Bytes → Option Addr) (s : Services)
    (version : Bytes) (http_do : HttpDo) where
  abbrev executed : ℤ → ℤ → Option Payload → Job → Option Built → Option Result
  executed ts now p job none = none
  executed ts now p job (some b) = some (
      execute_webhook s (record { secret = b.opts.secret; headers = b.opts.headers }) b.snd ts now p
        job)

  -- Execute of the executor that newWebhookExecutor makes of its options; `none` where it makes none.
  abbrev pub webhook_run : Network → Options → ℤ → ℤ → Option Payload → Job → Option Result
  webhook_run net o ts now p job =
      executed ts now p job
        (new_webhook_executor s (on_network split_host_port parse_addr http_do net) version o)

  module _ (net other : Network) (law : IsControlled http_do)
      (same : SamePublic split_host_port parse_addr net other) where
    same_sender :
        (allow_private : Bool) (max_bytes : ℤ) (ua : Bytes)
        → allow_private ≡ false
        → new_sender s
            (on_network split_host_port parse_addr http_do net)
            version
            allow_private
            max_bytes
            ua
          ≡ new_sender s
              (on_network split_host_port parse_addr http_do other)
              version
              allow_private
              max_bytes
              ua
    unfolding new_sender
    same_sender allow_private max_bytes ua h = rw h (
        ap (λ client. record { client = client; user_agent = ua; max_bytes = max_bytes })
          (fun_ext (λ req. fun_ext (λ body.
            guarded_reply split_host_port parse_addr http_do net other req body law same))))

    -- Unless the options of a webhook executor allow private networks, what Execute gives depends
    -- only on what answers at public IP addresses, whatever URL, headers and body the payload of
    -- the job holds: networks that answer alike there give the same result. Without a proxy,
    -- net/http connects only where the dialer's Control lets it.
    pub webhook_run_guarded :
        (o : Options) (ts now : ℤ) (p : Option Payload) (job : Job)
        → allow_private_webhook o ≡ false
        → webhook_run net o ts now p job ≡ webhook_run other o ts now p job
    unfolding new_webhook_executor
    webhook_run_guarded o ts now p job h =
        ap
          (λ (snd : Sender).
            executed ts now p job (
              if not (check_headers o.headers)
              then none
              else some (record { opts = o; snd = snd })))
          (same_sender (allow_private_webhook o) (max_response_bytes o)
            (user_agent version o.user_agent) h)
