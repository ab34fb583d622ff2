-- ===== src/Config/Env/Print.antt =====
-- What expandEnvNode of config.go makes of one value: each reference is replaced once, and nothing
-- else changes.
use mathlib.Core.List.{append_assoc}
use mkqd.Base.{
  ℕ, zero, ◌-◌, ◌≡◌, ◌≢◌, refl, ap, ◌∙◌, Bool, true, false, not, Option, none, some, List, [], ◌∷◌,
  ◌++◌, Bytes, length, drop, arith, All, ◌==◌,
}
use mkqd.Config.Env.{
  Reference, Expanded, is_name_start, is_name_byte, take_while, match_tail, match_name,
  match_reference, print_reference, default_text, resolve, join, literal, expand,
}

-- A name that envPattern accepts.
abbrev pub IsName : Bytes → Type 0
IsName [] = ⊥
IsName (c ∷ s) = (is_name_start c ≡ true) × All (λ b. is_name_byte b ≡ true) s

abbrev IsDefault : Option Bytes → Type 0
IsDefault none = Unit {0}
IsDefault (some d) = All (λ b. b ≢ b'}') d

pub record IsReference (r : Reference) : Type 0 where
  pub name : IsName r.name
  pub default : IsDefault r.default

-- A value as a row of plain bytes and references.
pub data Piece : Type 0 where
  plain : ℕ → Piece
  ref : Reference → Piece

abbrev pub IsPiece : Piece → Type 0
IsPiece (plain c) = c ≢ b'$'
IsPiece (ref r) = IsReference r

abbrev pub print : List Piece → Bytes
print [] = []
print (plain c ∷ ps) = c ∷ print ps
print (ref r ∷ ps) = print_reference r ++ print ps

abbrev pub meaning : (Bytes → Option Bytes) → List Piece → Expanded
meaning env [] = record { text = []; missing = [] }
meaning env (plain c ∷ ps) = literal c (meaning env ps)
meaning env (ref r ∷ ps) = join (resolve env r) (meaning env ps)

drop-append : (s t : Bytes) → drop (length s) (s ++ t) ≡ t
drop-append [] t = refl
drop-append (c ∷ s) t = drop-append s t

take_while-append :
    (p : ℕ → Bool) (s : Bytes) (c : ℕ) (t : Bytes)
    → All (λ b. p b ≡ true) s
    → p c ≡ false
    → take_while p (s ++ (c ∷ t)) ≡ s
unfolding take_while
take_while-append p [] c t h e = rw e
take_while-append p (b ∷ s) c t h e = rw (h.0, take_while-append p s c t h.1 e)

expand_skip :
    (env : Bytes → Option Bytes) (s t : Bytes) → expand env (length s) (s ++ t) ≡ expand env zero t
unfolding expand
expand_skip env [] t = refl
expand_skip env (c ∷ s) t = expand_skip env s t

no_brace : (d : Bytes) → All (λ b. b ≢ b'}') d → All (λ b. not (b == b'}') ≡ true) d
no_brace [] h = tt
no_brace (c ∷ d) h = (ground arith, no_brace d h.1)

match_tail-none :
    (name t : Bytes) → match_tail name (b'}' ∷ t) ≡ some (record { name = name; default = none })
unfolding match_tail
match_tail-none name [] = refl
match_tail-none name (c ∷ t) = refl

match_tail-some :
    (name d t : Bytes)
    → All (λ b. b ≢ b'}') d
    → match_tail name (b':' ∷ b'-' ∷ (d ++ (b'}' ∷ t)))
      ≡ some (record { name = name; default = some d })
unfolding match_tail
match_tail-some name d t h = rw (
  take_while-append (λ b. not (b == b'}')) d b'}' t (no_brace d h) refl,
  drop-append d (b'}' ∷ t),
)

match_name-append :
    (name : Bytes) (c : ℕ) (t : Bytes)
    → IsName name
    → is_name_byte c ≡ false
    → match_name (name ++ (c ∷ t)) ≡ match_tail name (c ∷ t)
unfolding match_name
match_name-append [] c t h e = absurd h
match_name-append (b ∷ s) c t h e =
    let bytes : All (λ x. is_name_byte x ≡ true) (b ∷ s) = (ground arith, h.1) in
    rw (h.0, take_while-append is_name_byte (b ∷ s) c t bytes e, drop-append s (c ∷ t))

match_reference-print :
    (name : Bytes) (default : Option Bytes) (t : Bytes)
    → IsName name
    → IsDefault default
    → match_reference (print_reference (record { name = name; default = default }) ++ t)
      ≡ some (record { name = name; default = default })
unfolding match_reference print_reference
match_reference-print name none t h k =
    rw (append_assoc name (b'}' ∷ []) t)
      (match_name-append name b'}' t h refl ∙ match_tail-none name t)
match_reference-print name (some d) t h k =
    rw (append_assoc name (b':' ∷ b'-' ∷ (d ++ (b'}' ∷ []))) t, append_assoc d (b'}' ∷ []) t)
      (match_name-append name b':' _ h refl ∙ match_tail-some name d t k)

match_reference_plain : (c : ℕ) (s : Bytes) → c ≢ b'$' → match_reference (c ∷ s) ≡ none
unfolding match_reference
match_reference_plain c [] h = refl
match_reference_plain c (d ∷ s) h = ground arith

abbrev behind_dollar : Reference → Bytes
behind_dollar r = b'{' ∷ (r.name ++ (default_text r.default ++ (b'}' ∷ [])))

expand_match :
    (env : Bytes → Option Bytes) (c : ℕ) (s : Bytes) (r : Reference)
    → match_reference (c ∷ s) ≡ some r
    → expand env zero (c ∷ s) ≡ join (resolve env r) (expand env (length (print_reference r) - 1) s)
unfolding expand
expand_match env c s r e = rw (e, expand)

length-print_reference : (r : Reference) → length (print_reference r) - 1 ≡ length (behind_dollar r)
unfolding print_reference
length-print_reference r = omega arith

expand_reference :
    (env : Bytes → Option Bytes) (r : Reference) (t : Bytes)
    → IsReference r
    → expand env zero (print_reference r ++ t) ≡ join (resolve env r) (expand env zero t)
unfolding print_reference
expand_reference env r t h =
    expand_match env b'$' (behind_dollar r ++ t) r
      (match_reference-print r.name r.default t h.name h.default)
    ∙ ap (λ (n : ℕ). join (resolve env r) (expand env n (behind_dollar r ++ t)))
        (length-print_reference r)
    ∙ ap (join (resolve env r)) (expand_skip env (behind_dollar r) t)

-- A value that is printed from plain bytes and references expands to what its references stand for,
-- in place, with the undefined ones listed from left to right; replacements are not read again.
pub expand-print :
    (env : Bytes → Option Bytes) (ps : List Piece)
    → All IsPiece ps
    → expand env zero (print ps) ≡ meaning env ps
unfolding expand
expand-print env [] h = refl
expand-print env (plain c ∷ ps) h =
    rw (match_reference_plain c (print ps) h.0, expand) (ap (literal c) (expand-print env ps h.1))
expand-print env (ref r ∷ ps) h =
    expand_reference env r (print ps) h.0 ∙ ap (join (resolve env r)) (expand-print env ps h.1)
