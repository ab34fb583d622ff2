-- ===== src/HttpExec/Reserved.antt =====
-- The extra headers of a dispatch cannot touch the headers that mkqd controls.
use mkqd.Base.{
  ◌≡◌, refl, sym, ◌∙◌, true, List, [], ◌∷◌, Bytes, codes, is_empty, bytes_eq, bytes_eq_iff,
  to_lower, arith, Bool-cases, inl, inr, if◌then◌else◌,
}
use mkqd.Base.Int.{ℤ}
use mkqd.HttpMessage.{Headers, get, set, set_all, get-set, set_all-congr}
use mkqd.HttpExec.{Job, Services, is_reserved_header, set_extra, fixed_headers, request_headers}

-- A header's name matters up to case.
pub same_name :
    (k j : Bytes)
    → bytes_eq (to_lower k) (to_lower j) ≡ true
    → is_reserved_header k ≡ is_reserved_header j
unfolding is_reserved_header
same_name k j e = cc ((bytes_eq_iff (to_lower k) (to_lower j)).0 e)

pub get-set_extra :
    (name : Bytes) (extra : List (Bytes × Bytes)) (h : Headers)
    → is_reserved_header name ≡ true
    → get name (set_extra extra h) ≡ get name h
unfolding set_extra
get-set_extra name [] h r = refl
get-set_extra name ((k, v) ∷ extra) h r =
    get-set_extra name extra (if is_reserved_header k then h else set k v h) r
    ∙ ground (arith, same_name k name, get-set k name v h)

-- Whatever headers a configuration or a payload adds, a header that isReservedHeader names has on
-- the request the value it has when none are added: Content-Type, User-Agent and every x-mkqd-
-- header, the signature and its timestamp included.
pub request_headers_reserved :
    (s : Services) (user_agent : Bytes) (ts : ℤ) (body secret : Bytes)
    (extra : List (Bytes × Bytes)) (job : Job) (name : Bytes)
    → is_reserved_header name ≡ true
    → get name (request_headers s user_agent ts body secret extra job)
      ≡ get name (request_headers s user_agent ts body secret [] job)
unfolding request_headers set_all
request_headers_reserved s user_agent ts body secret extra job name r =
    let fixed =
      set_all-congr name (fixed_headers user_agent ts job) (set_extra extra []) (set_extra [] [])
        (get-set_extra name extra [] r ∙ sym (get-set_extra name [] [] r)) in
    elim (Bool-cases (is_empty secret)) [
      | inl e ↦ rw (e) fixed
      | inr e ↦ rw (e) (set_all-congr name ((codes "X-Mkqd-Signature", _) ∷ []) _ _ fixed)
    ]
