-- ===== src/HttpExec/Overlay.antt =====
-- mergeHeaders of executor/httpexec/webhook.go, up to the request that is sent.
use mkqd.Base.{
  ◌≡◌, refl, sym, ap, ◌∙◌, Bool, true, false, Option, none, some, List, [], ◌∷◌, Bytes, codes,
  is_empty, is_some, lookup, insert, lookup-insert, bytes_eq, bytes_eq_iff, to_lower, arith, All,
  Bool-cases, inl, inr, if◌then◌else◌,
}
use mkqd.Base.Int.{ℤ}
use mkqd.HttpMessage.{Headers, get, set, set_all, get-set}
use mkqd.HttpExec.Reserved.{same_name}
use mkqd.HttpExec.{
  Job, Services, is_reserved_header, merge_headers, set_extra, fixed_headers, request_headers,
}

-- A map of Go has a key once.
abbrev pub IsMap : List (Bytes × Bytes) → Type 0
IsMap [] = Unit {0}
IsMap (entry ∷ rest) = (lookup entry.0 rest ≡ none) × IsMap rest

abbrev or_else : Option Bytes → Option Bytes → Option Bytes
or_else (some v) o = some v
or_else none o = o

lookup_key :
    (j k : Bytes) (l : List (Bytes × Bytes)) → bytes_eq j k ≡ true → lookup j l ≡ lookup k l
lookup_key j k l e = ap (λ x. lookup x l) ((bytes_eq_iff j k).0 e)

turned : (j k : Bytes) → bytes_eq j k ≡ bytes_eq k j
turned j k = ground (arith, bytes_eq_iff j k, bytes_eq_iff k j)

or_else-insert :
    (j k v : Bytes) (base over : List (Bytes × Bytes))
    → lookup j over ≡ none
    → or_else (lookup k over) (lookup k (insert j v base))
      ≡ or_else (lookup k ((j, v) ∷ over)) (lookup k base)
unfolding lookup
or_else-insert j k v base over n = elim (Bool-cases (bytes_eq k j)) [
  | inl e ↦ rw (lookup_key k j over e, n, lookup-insert j k v base, turned j k, e) refl
  | inr e ↦ rw (lookup-insert j k v base, turned j k, e) refl
]

-- The overlaid map has at each key the job's value, or else the configured one.
pub lookup-merge_headers :
    (base over : List (Bytes × Bytes)) (k : Bytes)
    → IsMap over
    → lookup k (merge_headers base over) ≡ or_else (lookup k over) (lookup k base)
unfolding merge_headers lookup
lookup-merge_headers base [] k m = refl
lookup-merge_headers base ((j, v) ∷ over) k m =
    lookup-merge_headers (insert j v base) over k m.1 ∙ or_else-insert j k v base over m.0

-- The name has no second spelling among the keys.
abbrev pub IsOneSpelling : Bytes → List (Bytes × Bytes) → Type 0
IsOneSpelling name l =
    (k : Bytes)
    → is_some (lookup k l) ≡ true
    → bytes_eq (to_lower k) (to_lower name) ≡ true
    → bytes_eq name k ≡ true

rest-IsOneSpelling :
    (name k v : Bytes) (rest : List (Bytes × Bytes))
    → IsOneSpelling name ((k, v) ∷ rest)
    → IsOneSpelling name rest
unfolding lookup
rest-IsOneSpelling name k v rest h = λ j p e. h j (ground (arith, p, bytes_eq_iff j k)) e

other_name :
    (name k v : Bytes) (rest : List (Bytes × Bytes))
    → IsOneSpelling name ((k, v) ∷ rest)
    → bytes_eq name k ≡ false
    → bytes_eq (to_lower k) (to_lower name) ≡ false
unfolding lookup
other_name name k v rest h d = ground (arith, h k (ground (arith, bytes_eq_iff k k)), d)

skips :
    (name k v : Bytes) (h : Headers)
    → bytes_eq (to_lower k) (to_lower name) ≡ false
    → get name (if is_reserved_header k then h else set k v h) ≡ get name h
skips name k v h d = ground (arith, get-set k name v h, d)

-- A header whose name is not in the map is left as it is.
get-set_extra_absent :
    (name : Bytes) (l : List (Bytes × Bytes)) (h : Headers)
    → lookup name l ≡ none
    → IsOneSpelling name l
    → get name (set_extra l h) ≡ get name h
unfolding set_extra lookup
get-set_extra_absent name [] h n o = refl
get-set_extra_absent name ((k, v) ∷ rest) h n o = elim (Bool-cases (bytes_eq name k)) [
  | inl e ↦ ground (arith, n, e)
  | inr e ↦
      get-set_extra_absent name rest (if is_reserved_header k then h else set k v h)
        (ground (arith, n, e)) (rest-IsOneSpelling name k v rest o)
      ∙ skips name k v h (other_name name k v rest o e)
]

writes :
    (name k w : Bytes) (h : Headers)
    → bytes_eq name k ≡ true
    → is_reserved_header name ≡ false
    → get name (if is_reserved_header k then h else set k w h) ≡ w
writes name k w h p r =
    let same = (bytes_eq_iff name k).0 p in
    ground (
      arith,
      get-set k name w h,
      r,
      ap is_reserved_header same,
      (bytes_eq_iff (to_lower k) (to_lower name)).1 (sym (ap to_lower same)),
    )

get-set_extra_present :
    (name v : Bytes) (l : List (Bytes × Bytes)) (h : Headers)
    → IsMap l
    → lookup name l ≡ some v
    → is_reserved_header name ≡ false
    → IsOneSpelling name l
    → get name (set_extra l h) ≡ v
unfolding set_extra lookup
get-set_extra_present name v [] h m e r o = ground (arith, e)
get-set_extra_present name v ((k, w) ∷ rest) h m e r o = elim (Bool-cases (bytes_eq name k)) [
  | inl p ↦
      get-set_extra_absent name rest (if is_reserved_header k then h else set k w h)
        (lookup_key name k rest p ∙ m.0) (rest-IsOneSpelling name k w rest o)
      ∙ (writes name k w h p r ∙ ground (arith, e, p))
  | inr p ↦
      get-set_extra_present name v rest (if is_reserved_header k then h else set k w h) m.1
        (ground (arith, e, p)) r (rest-IsOneSpelling name k w rest o)
]

misses :
    (k name : Bytes)
    → is_reserved_header k ≡ true
    → is_reserved_header name ≡ false
    → bytes_eq (to_lower k) (to_lower name) ≡ false
misses k name a b = ground (arith, same_name k name, a, b)

get-set_all_reserved :
    (name : Bytes) (l : List (Bytes × Bytes)) (h : Headers)
    → is_reserved_header name ≡ false
    → All (λ (entry : Bytes × Bytes). is_reserved_header entry.0 ≡ true) l
    → get name (set_all l h) ≡ get name h
unfolding set_all
get-set_all_reserved name [] h r a = refl
get-set_all_reserved name ((k, v) ∷ l) h r a =
    get-set_all_reserved name l (set k v h) r a.1
    ∙ ground (arith, get-set k name v h, misses k name a.0 r)

fixed_headers_reserved :
    (user_agent : Bytes) (ts : ℤ) (job : Job)
    → All
        (λ (entry : Bytes × Bytes). is_reserved_header entry.0 ≡ true)
        (fixed_headers user_agent ts job)
unfolding fixed_headers is_reserved_header bytes_eq mkqd.Base.lower mkqd.Base.has_prefix
fixed_headers_reserved user_agent ts job =
    (refl, (refl, (refl, (refl, (refl, (refl, (refl, tt)))))))

signature_reserved : is_reserved_header (codes "X-Mkqd-Signature") ≡ true
unfolding is_reserved_header bytes_eq mkqd.Base.lower mkqd.Base.has_prefix
signature_reserved = refl

module _ (s : Services) (user_agent : Bytes) (ts : ℤ) (body secret : Bytes) (job : Job) where
  -- A header that is not reserved comes from the extra headers alone.
  pub unreserved :
      (extra : List (Bytes × Bytes)) (name : Bytes)
      → is_reserved_header name ≡ false
      → get name (request_headers s user_agent ts body secret extra job)
        ≡ get name (set_extra extra [])
  unfolding request_headers set_all
  unreserved extra name r =
      let fixed =
        get-set_all_reserved name (fixed_headers user_agent ts job) (set_extra extra []) r
          (fixed_headers_reserved user_agent ts job) in
      elim (Bool-cases (is_empty secret)) [
        | inl e ↦ rw (e) fixed
        | inr e ↦ rw (e) (
            get-set_all_reserved name ((codes "X-Mkqd-Signature", _) ∷ []) _ r
              (signature_reserved, tt)
            ∙ fixed)
      ]

-- A header of a job whose name is not reserved is on the request with the value the job gives it,
-- over any configured value, whatever the order in which the overlaid map is read, given that the
-- job's map and the overlaid one have each key once and that no other key of the overlaid one
-- spells the same name in another case.
pub request_headers_overlaid :
    (s : Services) (user_agent : Bytes) (ts : ℤ) (body secret : Bytes) (job : Job)
    (base over extra : List (Bytes × Bytes)) (name v : Bytes)
    → IsMap over
    → IsMap extra
    → ((k : Bytes) → lookup k extra ≡ lookup k (merge_headers base over))
    → lookup name over ≡ some v
    → is_reserved_header name ≡ false
    → IsOneSpelling name extra
    → get name (request_headers s user_agent ts body secret extra job) ≡ v
request_headers_overlaid s user_agent ts body secret job base over extra name v m n same f r o =
    let there =
      same name
      ∙ (lookup-merge_headers base over name m ∙ ap (λ x. or_else x (lookup name base)) f) in
    unreserved s user_agent ts body secret job extra name r
    ∙ get-set_extra_present name v extra [] n there r o
