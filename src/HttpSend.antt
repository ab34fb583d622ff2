-- ===== src/HttpSend.antt =====
-- internal/httpsend/httpsend.go: the bounded body read, the truncation of failure messages and the
-- request signature that the executors share.
pub mod Decimal
pub mod Truncation
pub mod Transfer
pub mod Material
pub mod Client
use mkqd.Base.{
  ℕ, zero, suc, ◌+◌, ◌/◌, Bool, true, false, not, ◌&&◌, ◌||◌, Option, none, some, List, [], ◌∷◌,
  ◌++◌, Bytes, codes, length, take, drop, leb, ltb, ◌==◌, if◌then◌else◌,
}
use mkqd.Base.Int.{ℤ, pos, ltb_ℤ, pos_part}
use Decimal.{format_int}

abbrev pub default_max_response_bytes : ℕ
default_max_response_bytes = 65536

abbrev pub drain_limit : ℕ
drain_limit = 8192

-- What the server sends: its bytes, and whether the connection then fails in place of ending.
pub record Body : Type 0 where
  pub bytes : Bytes
  pub fails : Bool

-- How many bytes ReadBody keeps.
unfoldable pub read_limit : ℤ → ℕ
read_limit max = if not (ltb_ℤ (pos 0) max) then default_max_response_bytes else pos_part max

-- ReadBody: the bytes kept, `none` for a read error, and the bytes left unread when the body is
-- closed. The limit ends the read before a failure behind it is met.
unfoldable pub read_body : Body → ℤ → Option Bytes × Bytes
read_body body max =
    let kept = take (read_limit max) body.bytes in
    let rest = drop drain_limit (drop (read_limit max) body.bytes) in
    if body.fails && ltb (length body.bytes) (read_limit max)
    then (none, rest)
    else (some kept, rest)

-- utf8.RuneStart: not a continuation byte, 10xxxxxx.
unfoldable pub is_rune_start : ℕ → Bool
is_rune_start b = not (b / 64 == 2)

-- s[i]; the calls below stay inside the text.
abbrev pub byte_at : Bytes → ℕ → ℕ
byte_at [] i = 0
byte_at (b ∷ s) zero = b
byte_at (b ∷ s) (suc i) = byte_at s i

-- The loop of Truncate, from `cut` down.
unfoldable pub back_up : Bytes → ℕ → ℕ
back_up s zero = zero
back_up s (suc n) =
    let rest = back_up s n in if not (is_rune_start (byte_at s (suc n))) then rest else suc n

abbrev pub truncated_mark : Bytes
truncated_mark = codes "... (truncated)"

unfoldable pub truncate : Bytes → ℕ → Bytes
truncate s limit = if leb (length s) limit then s else take (back_up s limit) s ++ truncated_mark

-- What SignHMAC feeds to the HMAC.
unfoldable pub signed_material : ℤ → Bytes → Bytes
signed_material unix_seconds body = codes "v1:" ++ (format_int unix_seconds ++ (b':' ∷ body))

-- SignHMAC, over `hmac`, the hexadecimal HMAC-SHA256 of a message under a key.
unfoldable pub sign_hmac : (Bytes → Bytes → Bytes) → Bytes → ℤ → Bytes → Bytes
sign_hmac hmac secret unix_seconds body =
    codes "v1=" ++ hmac secret (signed_material unix_seconds body)
