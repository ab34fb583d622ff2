-- ===== src/HttpSig/Header.antt =====
-- The Signature header of httpsig.go: how SignRequest writes it, and ParseSignatureHeader with
-- splitParams.
use mkqd.Base.{
  ℕ, Bool, true, false, not, ◌&&◌, ◌||◌, Option, none, some, List, [], ◌∷◌, ◌++◌, Bytes, codes,
  is_empty, bytes_eq, trim, is_space, ◌==◌, if◌then◌else◌,
}

pub record ParsedSignature : Type 0 where
  pub key_id : Bytes
  pub algorithm : Bytes
  pub headers : List Bytes
  pub signature : Bytes

-- strings.Join with a space.
unfoldable pub joined : List Bytes → Bytes
joined [] = []
joined (s ∷ []) = s
joined (s ∷ t ∷ r) = s ++ (b' ' ∷ joined (t ∷ r))

abbrev pub quoted : Bytes → Bytes
quoted v = b'"' ∷ (v ++ (b'"' ∷ []))

abbrev pub param : Bytes → Bytes → Bytes
param name v = name ++ (b'=' ∷ quoted v)

-- The Sprintf of SignRequest.
unfoldable pub format_signature : Bytes → Bytes → List Bytes → Bytes → Bytes
format_signature key_id algorithm headers signature =
    param (codes "keyId") key_id
    ++ (b','
        ∷ (param (codes "algorithm") algorithm
            ++ (b','
                ∷ (param (codes "headers") (joined headers)
                    ++ (b',' ∷ param (codes "signature") signature)))))

-- The loop of splitParams: whether a quote is open, the part being read, and what is left.
unfoldable pub split_from : Bool → Bytes → Bytes → List Bytes
split_from in_quotes cur [] = if is_empty cur then [] else cur ∷ []
split_from in_quotes cur (c ∷ v) =
    let quote = split_from (not in_quotes) (cur ++ (c ∷ [])) v in
    let comma = split_from in_quotes [] v in
    let other = split_from in_quotes (cur ++ (c ∷ [])) v in
    if c == b'"' then quote else if (c == b',') && not in_quotes then cur ∷ comma else other

unfoldable pub split_params : Bytes → List Bytes
split_params = split_from false []

-- strings.Cut at the first `=`.
unfoldable pub cut_equals : Bytes → Option (Bytes × Bytes)
cut_equals [] = none
cut_equals (c ∷ s) =
    let rest = cut_equals s in
    if c == b'=' then some ([], s) else elim rest [ none ↦ none | some (a, b) ↦ some (c ∷ a, b) ]

-- strings.Fields: the maximal runs of bytes that are no space.
unfoldable pub fields_from : Bytes → Bytes → List Bytes
fields_from cur [] = if is_empty cur then [] else cur ∷ []
fields_from cur (c ∷ s) =
    let skip = fields_from [] s in
    let other = fields_from (cur ++ (c ∷ [])) s in
    if is_space c then (if is_empty cur then skip else cur ∷ skip) else other

abbrev is_quote : ℕ → Bool
is_quote c = c == b'"'

-- strings.Trim(strings.TrimSpace(value), `"`).
unfoldable pub unquote : Bytes → Bytes
unquote v = trim is_quote (trim is_space v)

abbrev pub no_fields : ParsedSignature
no_fields = record { key_id = []; algorithm = []; headers = []; signature = [] }

-- The switch of ParseSignatureHeader.
unfoldable pub assign : Bytes → Bytes → ParsedSignature → ParsedSignature
unfolding fields_from
assign key v out =
    if bytes_eq key (codes "keyId")
    then record out { key_id = v }
    else if bytes_eq key (codes "algorithm")
    then record out { algorithm = v }
    else if bytes_eq key (codes "headers")
    then record out { headers = fields_from [] v }
    else if bytes_eq key (codes "signature")
    then record out { signature = v }
    else out

unfoldable pub read_param : Bytes → ParsedSignature → ParsedSignature
unfolding cut_equals trim is_space
read_param part out = elim (cut_equals part) [
  | none ↦ out
  | some (key, v) ↦ assign (trim is_space key) (unquote v) out
]

unfoldable pub read_params : List Bytes → ParsedSignature → ParsedSignature
read_params [] out = out
read_params (p ∷ ps) out = read_params ps (read_param p out)

abbrev no_names : List Bytes → Bool
no_names [] = true
no_names (_ ∷ _) = false

unfoldable pub complete : ParsedSignature → Option ParsedSignature
complete out =
    if is_empty out.key_id || is_empty out.signature
    then none
    else some (if no_names out.headers then record out { headers = codes "date" ∷ [] } else out)

-- ParseSignatureHeader; `none` is an error.
unfoldable pub parse_signature_header : Bytes → Option ParsedSignature
unfolding complete
parse_signature_header v =
    if is_empty v then none else complete (read_params (split_params v) no_fields)
