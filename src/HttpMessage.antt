-- ===== src/HttpMessage.antt =====
-- The parts of package net/http that the executors and httpsig share: header fields by name in any
-- case, and a request with its parsed URL.
use mkqd.Base.{
  ℕ, ◌≡◌, Option, none, some, List, [], ◌∷◌, Bytes, codes, bytes_eq, to_lower, lookup, insert,
  lookup-insert, if◌then◌else◌,
}
use mkqd.HttpSend.{Body}
use mkqd.RetryAfter.Errors.{Error}
use native.Mathlib.Omega.{arith}

-- A header map. Keys are kept in lower case, since http.Header looks them up by a canonical spelling.
abbrev pub Headers : Type 0
Headers = List (Bytes × Bytes)

abbrev pub or_nil : Option Bytes → Bytes
or_nil none = []
or_nil (some v) = v

-- Header.Get: the empty text for a field that is not there.
unfoldable pub get : Bytes → Headers → Bytes
get name h = or_nil (lookup (to_lower name) h)

-- Header.Set.
unfoldable pub set : Bytes → Bytes → Headers → Headers
set name v h = insert (to_lower name) v h

pub get-set :
    (k j v : Bytes) (h : Headers)
    → get j (set k v h) ≡ (if bytes_eq (to_lower k) (to_lower j) then v else get j h)
unfolding get set
get-set k j v h = ground (arith, lookup-insert (to_lower k) (to_lower j) v h)

-- url.URL: the host, the scheme, and what RequestURI gives.
pub record Url : Type 0 where
  pub scheme : Bytes
  pub host : Bytes
  pub request_uri : Bytes

pub record Request : Type 0 where
  pub method : Bytes
  pub host : Bytes
  pub url : Url
  pub headers : Headers

abbrev pub set_header : Bytes → Bytes → Request → Request
set_header name v req = record req { headers = set name v req.headers }

-- http.Response, with its body as the server sends it.
pub record Response : Type 0 where
  pub status : ℕ
  pub status_text : Bytes
  pub headers : Headers
  pub body : Body

-- What Client.Do gives.
pub data Reply : Type 0 where
  no_reply : Error → Reply
  reply : Response → Reply

-- What an executor returns: a value for BullMQ's returnvalue, or an error.
pub data Result : Type 0 where
  returned : Option Bytes → Result
  fails_with : Error → Result

pub data Outcome : Type 0 where
  success retry permanent_failure : Outcome

-- A run of calls of Header.Set.
unfoldable pub set_all : List (Bytes × Bytes) → Headers → Headers
set_all [] h = h
set_all ((k, v) ∷ rest) h = set_all rest (set k v h)

-- What a run of writes makes of a field depends on that field only.
pub set_all-congr :
    (name : Bytes) (l : List (Bytes × Bytes)) (h h' : Headers)
    → get name h ≡ get name h'
    → get name (set_all l h) ≡ get name (set_all l h')
unfolding set_all
set_all-congr name [] h h' e = e
set_all-congr name ((k, v) ∷ l) h h' e =
    set_all-congr name l (set k v h) (set k v h')
      (ground (arith, e, get-set k name v h, get-set k name v h'))

-- http.NewRequest of a POST; the host is that of the URL.
abbrev pub post : Url → Headers → Request
post u h = record { method = codes "POST"; host = u.host; url = u; headers = h }
