-- ===== src/Examples/Network.antt =====
-- A webhook that is aimed at a metadata service.
use mkqd.ApDeliver.Guarded.{delivery_run, delivery_run_guarded}
use mkqd.Base.{◌≡◌, refl, false, Option, none, some, [], Bytes, codes}
use mkqd.Base.Int.{pos}
use mkqd.Examples.Delivery.{codec, honest}
use mkqd.Examples.Responses.{services, job, ap_services, create}
use mkqd.Examples.Services.{dir_config, one_directory}
use mkqd.KeyCache.Signers.{DeliverConfig}
use mkqd.Examples.SafeDial.{metadata, metadata_blocked}
use mkqd.HttpExec.Guarded.{webhook_run, webhook_run_guarded}
use mkqd.HttpExec.Setup.{Options, allow_private_webhook}
use mkqd.HttpExec.{Payload}
use mkqd.HttpMessage.{Request, Reply, reply, no_reply}
use mkqd.HttpSend.Client.{Client, Network, IsControlled, SamePublic}
use mkqd.RetryAfter.Errors.{Error, nil}
use mkqd.SafeDial.Address.{Addr}

-- Every host is the metadata service.
abbrev one_host : Bytes → Option Bytes
one_host address = some address

abbrev one_address : Bytes → Option Addr
one_address host = some metadata

abbrev dialed : Error → Reply → Reply
dialed nil r = r
dialed e r = no_reply e

-- Do, which dials the host of the URL.
abbrev direct : Client → Network → Request → Bytes → Reply
direct c net req body = dialed (c.control req.url.host) (net req.url.host req body)

dialed_same : (e : Error) (x y : Reply) → (e ≡ nil → x ≡ y) → dialed e x ≡ dialed e y
dialed_same nil x y h = h refl
dialed_same e x y h = refl

direct-IsControlled : IsControlled direct
direct-IsControlled c net other req body p h =
    dialed_same (c.control req.url.host) (net req.url.host req body) (other req.url.host req body)
      (h req.url.host req body)

abbrev answers : Bytes → Network
answers text a req body = reply (record {
  status = 200;
  status_text = [];
  headers = [];
  body = record { bytes = text; fails = false };
})

differ_in_private :
    SamePublic one_host one_address (answers (codes "secret")) (answers (codes "other"))
differ_in_private a host ip r b e f p = absurd (cc (f, p, metadata_blocked))

abbrev defaults : Options
defaults = record {
  url = [];
  timeout = pos 0;
  secret = [];
  user_agent = [];
  headers = [];
  max_response_bytes = pos 0;
  allow_private_network = none;
}

abbrev aimed : Payload
aimed = record { url = codes "http://169.254.169.254/"; secret = []; headers = []; body = [] }

webhook_run_guarded_example :
    webhook_run one_host one_address services
      (codes "1")
      direct
      (answers (codes "secret"))
      defaults
      (pos 5)
      (pos 5)
      (some aimed)
      job
    ≡ webhook_run one_host one_address services
        (codes "1")
        direct
        (answers (codes "other"))
        defaults
        (pos 5)
        (pos 5)
        (some aimed)
        job
unfolding allow_private_webhook
webhook_run_guarded_example =
    webhook_run_guarded one_host one_address services (codes "1") direct (answers (codes "secret"))
      (answers (codes "other")) direct-IsControlled differ_in_private defaults (pos 5) (pos 5)
      (some aimed) job refl

abbrev guarded_delivery : DeliverConfig
guarded_delivery = record {
  timeout = pos 0;
  user_agent = [];
  max_response_bytes = pos 0;
  allow_private_network = false;
  signer = dir_config;
}

delivery_run_guarded_example :
    delivery_run one_host one_address direct
      (λ a. honest)
      codec
      ap_services
      one_directory
      (codes "1")
      (answers (codes "secret"))
      guarded_delivery
      (some create)
    ≡ delivery_run one_host one_address direct
        (λ a. honest)
        codec
        ap_services
        one_directory
        (codes "1")
        (answers (codes "other"))
        guarded_delivery
        (some create)
delivery_run_guarded_example =
    delivery_run_guarded one_host one_address direct (λ a. honest) codec ap_services one_directory
      (codes "1") (answers (codes "secret")) (answers (codes "other")) direct-IsControlled
      differ_in_private guarded_delivery (some create) refl
