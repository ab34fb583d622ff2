-- ===== src/ApDeliver/Fields.antt =====
-- Header names and values of executor/apdeliver/apdeliver.go.
use mkqd.Base.{ℕ, Bool, not, ◌&&◌, ◌||◌, Bytes, codes, is_empty, leb, ltb, ◌==◌, all, any}

-- isTokenByte.
unfoldable pub is_token_byte : ℕ → Bool
is_token_byte b =
    (leb b'a' b && leb b b'z')
    || (leb b'A' b && leb b b'Z')
    || (leb b'0' b && leb b b'9')
    || any (λ c. c == b) (codes "!#$%&'*+-.^_`|~")

-- validHeaderName.
unfoldable pub valid_header_name : Bytes → Bool
valid_header_name s = not (is_empty s) && all is_token_byte s

-- validHeaderValue.
unfoldable pub valid_header_value : Bytes → Bool
valid_header_value s = all (λ b. not ((ltb b 32 && not (b == b'\t')) || b == 127)) s
