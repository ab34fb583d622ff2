-- ===== src/ApDeliver/Signed.antt =====
-- What leaves for an inbox is signed, and the payload has no say in what the signature covers.
use mkqd.Base.{
  ◌≡◌, refl, Bool, true, Option, none, some, Option-cases, inl, inr, List, [], ◌∷◌, Bytes, bytes_eq,
  bytes_eq_iff, to_lower, arith,
}
use mkqd.HttpMessage.{Headers, Request, Reply, get, set, set_all, get-set, set_all-congr, post}
use mkqd.HttpSig.{Crypto, SignedRequest, ready, refused, verify, accepted}
use mkqd.HttpSig.RoundTrip.{IsBase64, IsHonest, IsAccepted, sign_request-IsAccepted}
use mkqd.ApDeliver.{
  Executor, Payload, Services, is_signed_or_reserved, add_headers, fixed_headers, dispatched,
  deliver, execute, resolve_body,
}

same_name :
    (k j : Bytes)
    → bytes_eq (to_lower k) (to_lower j) ≡ true
    → is_signed_or_reserved k ≡ is_signed_or_reserved j
unfolding is_signed_or_reserved
same_name k j e = cc ((bytes_eq_iff (to_lower k) (to_lower j)).0 e)

get-add_headers :
    (name : Bytes) (extra : List (Bytes × Bytes)) (h h' : Headers)
    → is_signed_or_reserved name ≡ true
    → add_headers extra h ≡ some h'
    → get name h' ≡ get name h
unfolding add_headers
get-add_headers name [] h h' r e = ground (arith)
get-add_headers name ((k, v) ∷ extra) h h' r e = ground (
  arith,
  same_name k name,
  get-set k name v h,
  get-add_headers name extra h h' r,
  get-add_headers name extra (set k v h) h' r,
)

-- Where the payload's headers are taken, a header that isSignedOrReserved names has on the request,
-- before signing, the value it has without them.
add_headers_controlled :
    (content_type user_agent name : Bytes) (extra : List (Bytes × Bytes)) (h : Headers)
    → is_signed_or_reserved name ≡ true
    → add_headers extra [] ≡ some h
    → get name (set_all (fixed_headers content_type user_agent) h)
      ≡ get name (set_all (fixed_headers content_type user_agent) [])
add_headers_controlled content_type user_agent name extra h r e =
    set_all-congr name (fixed_headers content_type user_agent) h []
      (get-add_headers name extra [] h r e)

module _ (c : Crypto) (s : Services) (check : Bytes → Bytes → Bool) (laws : IsBase64 c)
    (e : Executor) (client : Request → Bytes → Reply) where
  Agrees : Type 0
  Agrees =
      (req : Request) (body : Bytes)
      → verify c check req body ≡ accepted
      → e.client req body ≡ client req body

  abbrev swapped : Executor
  swapped = record e { client = client }

  dispatched_agrees :
      (body : Bytes) (r : SignedRequest)
      → Agrees
      → IsAccepted c check laws body r
      → dispatched c s e body r ≡ dispatched c s swapped body r
  unfolding dispatched Agrees IsAccepted
  dispatched_agrees body (refused err) h a = refl
  dispatched_agrees body (ready req) h a = rw (h req body a) refl

  deliver_agrees :
      (p : Payload) (body content_type : Bytes)
      → IsHonest c check e.signer
      → Agrees
      → deliver c s e p body content_type ≡ deliver c s swapped p body content_type
  unfolding deliver
  deliver_agrees p body content_type honest h = elim (Option-cases (s.parse_url p.inbox)) [
    | inl a ↦ rw (a) refl
    | inr (u, a) ↦ elim (Option-cases (add_headers p.headers [])) [
      | inl b ↦ rw (a, b) refl
      | inr (hd, b) ↦
          rw
            (
              a,
              b,
              dispatched_agrees body _ h (
                  sign_request-IsAccepted c check laws e.signer s.date body p.key_id
                    (post u (set_all (fixed_headers content_type e.user_agent) hd)) honest),
            )
            refl
    ]
  ]

  -- Every request that Execute hands to its HTTP client is one that Verify accepts for the body
  -- sent with it: if base64 is as documented and the signer is honest, a client that answers alike
  -- on such requests gives the same result on every payload, whatever it does on others.
  pub execute_sends_verified :
      (p : Option Payload)
      → IsHonest c check e.signer
      → ((req : Request) (body : Bytes)
          → verify c check req body ≡ accepted
          → e.client req body ≡ client req body)
      → execute c s e p ≡ execute c s (record e { client = client }) p
  unfolding execute Agrees
  execute_sends_verified none honest h = refl
  execute_sends_verified (some p) honest h = elim (Option-cases (resolve_body p e.content_type)) [
    | inl a ↦ rw (execute, a) refl
    | inr ((body, content_type), a) ↦ rw (execute, a) (deliver_agrees p body content_type honest h)
  ]
