-- ===== src/HttpSig/KeyId.antt =====
-- validateKeyID of httpsig.go: what a key id may hold.
use mkqd.Base.{ℕ, ◌≡◌, ◌≢◌, ◌↔◌, ◌≤◌, true, false, [], ◌∷◌, Bytes, All, any, length, arith}
use mkqd.HttpSig.Params.{NoQuote}
use mkqd.HttpSig.{validate_key_id, is_unsafe_key_byte, key_id_limit}

-- No control byte, double quote or backslash.
abbrev pub IsKeyByte : ℕ → Type 0
IsKeyByte b = (32 ≤ b) × (b ≢ 127) × (b ≢ b'"') × (b ≢ 92)

no_unsafe : (s : Bytes) → (any is_unsafe_key_byte s ≡ false) ↔ All IsKeyByte s
no_unsafe [] = ground arith
no_unsafe (c ∷ s) = ground (arith, no_unsafe s)

-- A key id is accepted exactly if it is not empty, has at most 512 bytes, and holds no control
-- byte, double quote or backslash.
pub validate_key_id_iff :
    (id : Bytes)
    → (validate_key_id id ≡ true) ↔ ((id ≢ []) × (length id ≤ key_id_limit) × All IsKeyByte id)
unfolding validate_key_id
validate_key_id_iff [] = ground arith
validate_key_id_iff (c ∷ s) = ground (arith, no_unsafe (c ∷ s))

pub IsKeyByte-NoQuote : (s : Bytes) → All IsKeyByte s → NoQuote s
IsKeyByte-NoQuote [] h = tt
IsKeyByte-NoQuote (c ∷ s) h = (h.0.2, IsKeyByte-NoQuote s h.1)
