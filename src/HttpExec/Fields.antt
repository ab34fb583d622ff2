-- ===== src/HttpExec/Fields.antt =====
-- Header names and values of executor/httpexec/httpexec.go.
use mkqd.Base.{
  ℕ, ◌≡◌, refl, ap, suc, ◌≤◌, ◌+◌, Bool, true, not, ◌&&◌, ◌||◌, List, [], ◌∷◌, Bytes, codes,
  is_empty, leb, ltb, ◌==◌, length, all, any, map, arith, if◌then◌else◌,
}
use mkqd.HttpSend.{truncate, truncated_mark}
use mkqd.HttpSend.Truncation.{length-truncate}

abbrev pub header_value_limit : ℕ
header_value_limit = 256

-- validHeaderValueByte.
unfoldable pub valid_header_value_byte : ℕ → Bool
valid_header_value_byte b = (leb 32 b || b == b'\t') && not (b == 127)

-- validHeaderValue.
unfoldable pub valid_header_value : Bytes → Bool
valid_header_value s = all valid_header_value_byte s

-- isTokenByte.
unfoldable pub is_token_byte : ℕ → Bool
is_token_byte b =
    (leb b'a' b && leb b b'z')
    || (leb b'A' b && leb b b'Z')
    || (leb b'0' b && leb b b'9')
    || any (λ c. c == b) (codes "!#$%&'*+-.^_`|~")

-- validHeaderName.
unfoldable pub valid_header_name : Bytes → Bool
valid_header_name s = not (is_empty s) && all is_token_byte s

-- checkHeaders; true is the nil error.
unfoldable pub check_headers : List (Bytes × Bytes) → Bool
check_headers h = all (λ kv. valid_header_name kv.0 && valid_header_value kv.1) h

abbrev replaced : ℕ → ℕ
replaced b = if valid_header_value_byte b then b else b'_'

-- sanitizeHeaderValue.
unfoldable pub sanitize_header_value : Bytes → Bytes
sanitize_header_value v =
    map replaced (if ltb header_value_limit (length v) then truncate v header_value_limit else v)

replaced_byte : (b : ℕ) → valid_header_value_byte (replaced b) ≡ true
unfolding valid_header_value_byte
replaced_byte b = ground arith

replaced-valid : (s : Bytes) → all valid_header_value_byte (map replaced s) ≡ true
replaced-valid [] = refl
replaced-valid (c ∷ s) = ground (arith, replaced_byte c, replaced-valid s)

length-replaced : (s : Bytes) → length (map replaced s) ≡ length s
length-replaced [] = refl
length-replaced (c ∷ s) = ap suc (length-replaced s)

-- Whatever text a job carries, the sanitized value is one that net/http accepts, of at most 256
-- bytes and the truncation mark.
sanitize_header_value-valid :
    (v : Bytes)
    → (valid_header_value (sanitize_header_value v) ≡ true)
      × (length (sanitize_header_value v) ≤ header_value_limit + length truncated_mark)
unfolding sanitize_header_value valid_header_value
sanitize_header_value-valid v = (
  replaced-valid _,
  ground (
    arith,
    length-replaced
        (if ltb header_value_limit (length v) then truncate v header_value_limit else v),
    length-truncate v header_value_limit,
  ),
)
