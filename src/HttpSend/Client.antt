-- ===== src/HttpSend/Client.antt =====
-- NewClient of internal/httpsend/httpsend.go: what it sets of an http.Client. net/http itself is a
-- parameter, which runs a request with these settings on a network. The limits on idle connections are
-- left out.
use mkqd.Base.{◌≡◌, refl, Bool, true, false, Option, some, Bytes}
use mkqd.HttpMessage.{Request, Reply}
use mkqd.RetryAfter.Errors.{Error, nil}
use mkqd.SafeDial.Address.{Addr}
use mkqd.SafeDial.Guard.{check_addr-is_public}
use mkqd.SafeDial.{is_public, new_dialer}

-- `control` is what the dialer's Control says of a resolved address, and `proxied` whether the proxies of
-- the environment are used.
pub record Client : Type 0 where
  pub control : Bytes → Error
  pub proxied : Bool
  pub follows_redirects : Bool

-- What answers a request at an address.
abbrev pub Network : Type 0
Network = Bytes → Request → Bytes → Reply

-- (*http.Client).Do.
abbrev pub HttpDo : Type 0
HttpDo = Client → Network → Request → Bytes → Reply

-- Without a proxy, Do connects only where Control lets it: what answers elsewhere makes no difference.
abbrev pub IsControlled : HttpDo → Type 0
IsControlled http_do =
    (c : Client) (net other : Network) (req : Request) (body : Bytes)
    → c.proxied ≡ false
    → ((a : Bytes) (r : Request) (b : Bytes) → c.control a ≡ nil → net a r b ≡ other a r b)
    → http_do c net req body ≡ http_do c other req body

module _ (split_host_port : Bytes → Option Bytes) (parse_addr : Bytes → Option Addr) where
  -- NewClient.
  unfoldable pub new_client : Bool → Client
  unfolding new_dialer
  new_client allow_private = record {
    control = new_dialer split_host_port parse_addr allow_private;
    proxied = allow_private;
    follows_redirects = false;
  }

  -- A client of NewClient on a network.
  abbrev pub on_network : HttpDo → Network → Bool → Request → Bytes → Reply
  on_network http_do net allow_private req body = http_do (new_client allow_private) net req body

  -- The networks differ at most where no public IP address is dialed.
  abbrev pub SamePublic : Network → Network → Type 0
  SamePublic net other =
      (a host : Bytes) (ip : Addr) (r : Request) (b : Bytes)
      → split_host_port a ≡ some host
      → parse_addr host ≡ some ip
      → is_public ip ≡ true
      → net a r b ≡ other a r b

  -- A guarded client meets only what answers at public addresses.
  pub guarded_reply :
      (http_do : HttpDo) (net other : Network) (req : Request) (body : Bytes)
      → IsControlled http_do
      → SamePublic net other
      → http_do (new_client false) net req body ≡ http_do (new_client false) other req body
  unfolding new_client new_dialer
  guarded_reply http_do net other req body law same =
      law (new_client false) net other req body refl (λ a r b h.
        let (host, ip, e, f, p) = check_addr-is_public split_host_port parse_addr a h in
        same a host ip r b e f p)
