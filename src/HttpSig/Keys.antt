-- ===== src/HttpSig/Keys.antt =====
-- httpsig.go: reading a private key and wrapping it under a key id. PEM and the x509 parsers are
-- parameters; a private key stands as its encoding.
use mkqd.Base.{Option, none, some, Bytes, codes, is_empty, bytes_eq, if◌then◌else◌}

pub record PemBlock : Type 0 where
  pub type : Bytes
  pub bytes : Bytes

-- What x509.ParsePKCS8PrivateKey gives: an RSA key, a key of another kind, or an error.
pub data Pkcs8 : Type 0 where
  rsa_key : Bytes → Pkcs8
  other_key : Pkcs8
  not_a_key : Pkcs8

abbrev rsa_only : Pkcs8 → Option Bytes
rsa_only (rsa_key k) = some k
rsa_only other_key = none
rsa_only not_a_key = none

module _ (decode : Bytes → Option PemBlock) (pkcs1 : Bytes → Option Bytes)
    (pkcs8 : Bytes → Pkcs8) where
  unfoldable pub parse_block : Option PemBlock → Option Bytes
  parse_block none = none
  parse_block (some block) =
      if bytes_eq block.type (codes "RSA PRIVATE KEY")
      then pkcs1 block.bytes
      else if bytes_eq block.type (codes "PRIVATE KEY")
      then rsa_only (pkcs8 block.bytes)
      else none

  -- ParsePrivateKey; `none` is an error.
  unfoldable pub parse_private_key : Bytes → Option Bytes
  unfolding parse_block
  parse_private_key pem = parse_block (decode pem)

-- LocalSigner: its key id and its key.
abbrev pub LocalSigner : Type 0
LocalSigner = Bytes × Bytes

-- NewLocalSigner; a nil key is `none`, and so is an error.
unfoldable pub new_local_signer : Bytes → Option Bytes → Option LocalSigner
new_local_signer key_id none = none
new_local_signer key_id (some key) = if is_empty key_id then none else some (key_id, key)
