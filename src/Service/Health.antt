-- ===== src/Service/Health.antt =====
-- server.go: the health listener. The routes are the mux's of net/http; `print` is an error's text.
use mkqd.Base.{
  ℕ, Bool, ◌&&◌, Option, none, some, List, [], ◌∷◌, ◌++◌, Bytes, codes, ◌⊎◌, inl, inr,
  if◌then◌else◌,
}
use mkqd.Config.{Config}
use mkqd.Lifecycle.{Runtime, is_serving}
use mkqd.RetryAfter.Errors.{Error, wrap}

-- writePlain: the status and the body.
pub record Plain : Type 0 where
  pub code : ℕ
  pub body : Bytes

unfoldable pub write_plain : ℕ → Bytes → Plain
write_plain code body = record { code = code; body = body ++ (b'\n' ∷ []) }

unfoldable pub healthz : Plain
unfolding write_plain
healthz = write_plain 200 (codes "ok")

abbrev after_ping : (Error → Bytes) → Option Error → Plain
unfolding write_plain
after_ping print (some e) = write_plain 503 (codes "redis unavailable: " ++ print e)
after_ping print none = write_plain 200 (codes "ready")

-- The handler of /readyz; `ping` is what Redis would answer.
unfoldable pub readyz : (Error → Bytes) → Runtime → Option Error → Plain
unfolding write_plain
readyz print rt ping =
    if is_serving rt then after_ping print ping else write_plain 503 (codes "not serving")

-- The patterns that the mux serves; `registry` tells whether the runtime has a metrics registry.
unfoldable pub routes : Config → (registry : Bool) → List Bytes
routes c registry =
    codes "GET /healthz"
    ∷ codes "GET /readyz"
    ∷ (if c.server.metrics && registry then codes "GET /metrics" ∷ [] else [])

-- healthServer: what it serves, and the address that it is bound to.
pub record HealthServer : Type 0 where
  pub served : List Bytes
  pub addr : Bytes

-- What net.Listen answers.
pub data Listening : Type 0 where
  bound : Bytes → Listening
  not_bound : Error → Listening

abbrev of_listening : List Bytes → Bytes → Listening → HealthServer ⊎ Error
of_listening served addr (bound actual) = inl (record { served = served; addr = actual })
of_listening served addr (not_bound e) = inr (wrap addr e)

-- newHealthServer.
unfoldable pub new_health_server :
    (Bytes → Listening) → Config → (registry : Bool) → HealthServer ⊎ Error
unfolding routes
new_health_server listen c registry =
    of_listening (routes c registry) c.server.addr (listen c.server.addr)

-- ServerAddr: the empty text where there is no listener.
unfoldable pub server_addr : Option HealthServer → Bytes
server_addr none = []
server_addr (some hs) = hs.addr

-- Close: `deadline` tells context.DeadlineExceeded, `shutdown` and `close` are what http.Server answers.
unfoldable pub close : (Error → Bool) → Option Error → Option Error → Option Error
close deadline none closed = none
close deadline (some e) closed = if deadline e then closed else some e
