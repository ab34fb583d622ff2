-- ===== src/HttpSig/Coverage.antt =====
-- What the signing string of httpsig.go depends on, and what a covered list must name.
use mkqd.Base.{
  ◌≡◌, ◌↔◌, refl, true, false, List, [], ◌∷◌, Bytes, All, all_iff, bytes_eq, to_lower, map,
  mem_bytes,
}
use mkqd.HttpMessage.{Request, set_header, get-set}
use mkqd.HttpSig.{covered_value, signing_string, require_coverage, required_headers}
use mkqd.Config.Env.Dedupe.{In, mem_bytes-In}

covered_value-set :
    (k v name : Bytes) (req : Request)
    → bytes_eq (to_lower k) (to_lower name) ≡ false
    → covered_value (set_header k v req) name ≡ covered_value req name
unfolding covered_value
covered_value-set k v name req h = rw (get-set k name v req.headers, h)

-- A header that is not covered can change, and the signing string stays.
pub signing_string-set :
    (k v : Bytes) (req : Request) (headers : List Bytes)
    → All (λ h. bytes_eq (to_lower k) (to_lower (to_lower h)) ≡ false) headers
    → signing_string (set_header k v req) headers ≡ signing_string req headers
unfolding signing_string
signing_string-set k v req [] a = refl
signing_string-set k v req (name ∷ []) a = rw (covered_value-set k v (to_lower name) req a.0)
signing_string-set k v req (name ∷ next ∷ rest) a =
    rw (covered_value-set k v (to_lower name) req a.0, signing_string-set k v req (next ∷ rest) a.1)

-- A covered list is accepted exactly if it names, in any case, every required header.
pub require_coverage_iff :
    (covered : List Bytes)
    → (require_coverage covered ≡ true)
      ↔ All (λ want. In want (map to_lower covered)) required_headers
unfolding require_coverage
require_coverage_iff covered =
    all_iff (λ want. In want (map to_lower covered)) (λ want. mem_bytes want (map to_lower covered))
      (λ want. mem_bytes-In want (map to_lower covered)) required_headers
