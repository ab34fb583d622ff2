-- ===== src/HttpExec/Order.antt =====
-- send of executor/httpexec/httpexec.go ranges over a map of Go, in an order that changes from run to run.
use mkqd.Base.{
  ◌≡◌, refl, sym, ap, ◌∙◌, ◌⊎◌, ◌↔◌, inl, inr, true, false, List, [], ◌∷◌, Bytes, bytes_eq,
  bytes_eq_iff, to_lower, All, Any, arith, Bool-cases, if◌then◌else◌,
}
use mkqd.Base.Int.{ℤ}
use mkqd.HttpExec.Overlay.{unreserved}
use mkqd.HttpExec.Reserved.{same_name, request_headers_reserved}
use mkqd.HttpExec.{Job, Services, is_reserved_header, set_extra, request_headers}
use mkqd.HttpMessage.{Headers, get, set, get-set}

-- No two keys are one name in two spellings.
abbrev pub IsSpelledOnce : List (Bytes × Bytes) → Type 0
IsSpelledOnce [] = Unit {0}
IsSpelledOnce (e ∷ rest) =
    All (λ (f : Bytes × Bytes). bytes_eq (to_lower f.0) (to_lower e.0) ≡ false) rest
    × IsSpelledOnce rest

-- The two lists have the same entries.
abbrev pub SameEntries : List (Bytes × Bytes) → List (Bytes × Bytes) → Type 0
SameEntries l m = (e : Bytes × Bytes) → Any (λ f. f ≡ e) l ↔ Any (λ f. f ≡ e) m

-- An entry spells the name and has the value.
abbrev Gives : Bytes → Bytes → List (Bytes × Bytes) → Type 0
Gives name v l =
    (k : Bytes) × (bytes_eq (to_lower k) (to_lower name) ≡ true) × Any (λ f. f ≡ (k, v)) l

later-Gives :
    (name v : Bytes) (e : Bytes × Bytes) (l : List (Bytes × Bytes))
    → Gives name v l
    → Gives name v (e ∷ l)
later-Gives name v e l (k, s, m) = (k, s, inr m)

apart :
    (k j name : Bytes)
    → k ≡ j
    → bytes_eq (to_lower k) (to_lower name) ≡ false
    → bytes_eq (to_lower j) (to_lower name) ≡ true
    → ⊥
apart k j name e d t = cc

tail-Gives :
    (name k w v : Bytes) (l : List (Bytes × Bytes))
    → bytes_eq (to_lower k) (to_lower name) ≡ false
    → Gives name v ((k, w) ∷ l)
    → Gives name v l
tail-Gives name k w v l d (j, t, inl e) =
    absurd (apart k j name (ap (λ (f : Bytes × Bytes). f.0) e) d t)
tail-Gives name k w v l d (j, t, inr m) = (j, t, m)

Gives-cases :
    (name : Bytes) (l : List (Bytes × Bytes))
    → ((v : Bytes) × Gives name v l) ⊎ ((v : Bytes) → Gives name v l → ⊥)
Gives-cases name [] = inr (λ v g. g.2)
Gives-cases name ((k, w) ∷ l) = elim (Bool-cases (bytes_eq (to_lower k) (to_lower name))) [
  | inl s ↦ inl (w, (k, s, inl refl))
  | inr d ↦ elim (Gives-cases name l) [
    | inl g ↦ inl (g.0, later-Gives name g.0 (k, w) l g.1)
    | inr none ↦ inr (λ v g. none v (tail-Gives name k w v l d g))
  ]
]

skips_other :
    (name k v : Bytes) (h : Headers)
    → bytes_eq (to_lower k) (to_lower name) ≡ false
    → get name (if is_reserved_header k then h else set k v h) ≡ get name h
skips_other name k v h d = ground (arith, get-set k name v h, d)

writes_name :
    (name k v : Bytes) (h : Headers)
    → bytes_eq (to_lower k) (to_lower name) ≡ true
    → is_reserved_header name ≡ false
    → get name (if is_reserved_header k then h else set k v h) ≡ v
writes_name name k v h s r = ground (arith, get-set k name v h, s, r, same_name k name s)

-- Without an entry for the name the headers are as they were.
get-set_extra_unnamed :
    (name : Bytes) (l : List (Bytes × Bytes)) (h : Headers)
    → ((v : Bytes) → Gives name v l → ⊥)
    → get name (set_extra l h) ≡ get name h
unfolding set_extra
get-set_extra_unnamed name [] h none = refl
get-set_extra_unnamed name ((k, v) ∷ l) h none =
    elim (Bool-cases (bytes_eq (to_lower k) (to_lower name))) [
      | inl s ↦ absurd (none v (k, s, inl refl))
      | inr d ↦
          get-set_extra_unnamed name l (if is_reserved_header k then h else set k v h)
            (λ w g. none w (later-Gives name w (k, v) l g))
          ∙ skips_other name k v h d
    ]

-- Behind the one entry for a name there is no other.
rest_unnamed :
    (name k v : Bytes) (l : List (Bytes × Bytes))
    → bytes_eq (to_lower k) (to_lower name) ≡ true
    → All (λ (f : Bytes × Bytes). bytes_eq (to_lower f.0) (to_lower k) ≡ false) l
    → Gives name v l
    → ⊥
rest_unnamed name k v [] s a (j, t, m) = m
rest_unnamed name k v (f ∷ l) s a (j, t, inl e) =
    let same =
      ap (λ (x : Bytes × Bytes). to_lower x.0) e
      ∙ ((bytes_eq_iff (to_lower j) (to_lower name)).0 t
          ∙ sym ((bytes_eq_iff (to_lower k) (to_lower name)).0 s)) in
    cc (a.0, (bytes_eq_iff (to_lower f.0) (to_lower k)).1 same)
rest_unnamed name k v (f ∷ l) s a (j, t, inr m) = rest_unnamed name k v l s a.1 (j, t, m)

first_value :
    (name k w v : Bytes) (l : List (Bytes × Bytes))
    → bytes_eq (to_lower k) (to_lower name) ≡ true
    → All (λ (f : Bytes × Bytes). bytes_eq (to_lower f.0) (to_lower k) ≡ false) l
    → Gives name v ((k, w) ∷ l)
    → w ≡ v
first_value name k w v l s a (j, t, inl e) = ap (λ (f : Bytes × Bytes). f.1) e
first_value name k w v l s a (j, t, inr m) = absurd (rest_unnamed name k v l s a (j, t, m))

get-set_extra_named :
    (name v : Bytes) (l : List (Bytes × Bytes)) (h : Headers)
    → is_reserved_header name ≡ false
    → IsSpelledOnce l
    → Gives name v l
    → get name (set_extra l h) ≡ v
unfolding set_extra
get-set_extra_named name v [] h r o g = absurd g.2
get-set_extra_named name v ((k, w) ∷ l) h r o g =
    elim (Bool-cases (bytes_eq (to_lower k) (to_lower name))) [
      | inl s ↦
          get-set_extra_unnamed name l (if is_reserved_header k then h else set k w h)
            (λ u x. rest_unnamed name k u l s o.0 x)
          ∙ (writes_name name k w h s r ∙ first_value name k w v l s o.0 g)
      | inr d ↦
          get-set_extra_named name v l (if is_reserved_header k then h else set k w h) r o.1
            (tail-Gives name k w v l d g)
    ]

set_extra_order :
    (name : Bytes) (l m : List (Bytes × Bytes))
    → is_reserved_header name ≡ false
    → IsSpelledOnce l
    → IsSpelledOnce m
    → SameEntries l m
    → get name (set_extra l []) ≡ get name (set_extra m [])
set_extra_order name l m r o p same = elim (Gives-cases name l) [
  | inl (v, (k, s, x)) ↦
      get-set_extra_named name v l [] r o (k, s, x)
      ∙ sym (get-set_extra_named name v m [] r p (k, s, (same (k, v)).0 x))
  | inr none ↦
      get-set_extra_unnamed name l [] none
      ∙ sym (get-set_extra_unnamed name m [] (λ v g. none v (g.0, g.1, (same (g.0, v)).1 g.2)))
]

module _ (s : Services) (user_agent : Bytes) (ts : ℤ) (body secret : Bytes) (job : Job) where
  -- The order in which send ranges over the map of the extra headers makes no difference: two lists
  -- with the same entries give every header the same value, given that no name is there in two
  -- spellings.
  pub request_headers_order :
      (l m : List (Bytes × Bytes)) (name : Bytes)
      → IsSpelledOnce l
      → IsSpelledOnce m
      → SameEntries l m
      → get name (request_headers s user_agent ts body secret l job)
        ≡ get name (request_headers s user_agent ts body secret m job)
  request_headers_order l m name o p same = elim (Bool-cases (is_reserved_header name)) [
    | inl r ↦
        request_headers_reserved s user_agent ts body secret l job name r
        ∙ sym (request_headers_reserved s user_agent ts body secret m job name r)
    | inr r ↦
        unreserved s user_agent ts body secret job l name r
        ∙ (set_extra_order name l m r o p same
            ∙ sym (unreserved s user_agent ts body secret job m name r))
  ]
