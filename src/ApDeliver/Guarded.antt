-- ===== src/ApDeliver/Guarded.antt =====
-- The "ap-deliver" executor from its configuration to the connection. What the signers answer is a
-- parameter.
use mathlib.Core.Path.{fun_ext}
use mkqd.ApDeliver.{Executor, Payload, Services, execute}
use mkqd.Base.{◌≡◌, refl, ap, Bool, true, false, not, Option, none, some, Bytes, codes}
use mkqd.HttpMessage.{Result}
use mkqd.HttpSend.Client.{Network, HttpDo, IsControlled, on_network, SamePublic, guarded_reply}
use mkqd.HttpSig.{Crypto, Signer}
use mkqd.KeyCache.Signers.{
  AnySigner, BuiltSigner, made, refused, Delivery, DeliverConfig, Surroundings, build_signer,
  of_signer, new_delivery, new_executor, warns_no_secret,
}
use mkqd.SafeDial.Address.{Addr}

module _ (split_host_port : Bytes → Option Bytes) (parse_addr : Bytes → Option Addr)
    (http_do : HttpDo) (sign : AnySigner → Signer) (c : Crypto) (s : Services)
    (around : Surroundings) (own_agent : Bytes) where
  -- The Executor that New makes, on a network.
  unfoldable pub executor_on : Network → Delivery → Executor
  executor_on net d = record {
    signer = sign d.signer;
    client = on_network split_host_port parse_addr http_do net (not d.guarded);
    user_agent = d.user_agent;
    max_bytes = d.max_bytes;
    content_type = codes "application/activity+json";
  }

  abbrev delivered : Network → Option Payload → Option (Delivery × Bool) → Option Result
  delivered net p none = none
  delivered net p (some (d, warns)) = some (execute c s (executor_on net d) p)

  -- Execute of the executor that newExecutor makes of a configuration; `none` where it makes none.
  abbrev pub delivery_run : Network → DeliverConfig → Option Payload → Option Result
  delivery_run net config p = delivered net p (new_executor around own_agent config)

  module _ (net other : Network) (law : IsControlled http_do)
      (same : SamePublic split_host_port parse_addr net other) where
    same_executor : (d : Delivery) → d.guarded ≡ true → executor_on net d ≡ executor_on other d
    unfolding executor_on
    same_executor d h = rw h (
        ap
          (λ client. record {
            signer = sign d.signer;
            client = client;
            user_agent = d.user_agent;
            max_bytes = d.max_bytes;
            content_type = codes "application/activity+json";
          })
          (fun_ext (λ req. fun_ext (λ body.
            guarded_reply split_host_port parse_addr http_do net other req body law same))))

    -- Unless the configuration of an ap-deliver executor allows private networks, what Execute
    -- gives depends only on what answers at public IP addresses, whatever inbox, headers and body
    -- the payload holds and whatever its signer answers: networks that answer alike there give the
    -- same result. Without a proxy, net/http connects only where the dialer's Control lets it.
    pub delivery_run_guarded :
        (config : DeliverConfig) (p : Option Payload)
        → config.allow_private_network ≡ false
        → delivery_run net config p ≡ delivery_run other config p
    unfolding new_executor new_delivery warns_no_secret
    delivery_run_guarded config p h = built (build_signer around config.signer)
      where
        built :
            (b : BuiltSigner)
            → delivered net p (of_signer own_agent config b)
              ≡ delivered other p (of_signer own_agent config b)
        built (refused e) = refl
        built (made a) = ap (λ e. some (execute c s e p)) (same_executor _ (ap not h))
