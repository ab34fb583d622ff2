-- ===== src/KeyCache/Signers.antt =====
-- The constructors of executor/apdeliver/signer.go, remote.go and apdeliver.go, from their
-- configuration on. Files, URLs and the decoder of the configuration are parameters.
use mathlib.Core.Path.{subst}
use mkqd.Base.{
  if-elim, Option-cases, ◌≡◌, ◌≢◌, inl, inr, refl, Bool, true, false, not, ◌&&◌, ◌||◌, Option, none,
  some, [], ◌∷◌, Bytes, codes, is_empty, bytes_eq, arith, if◌then◌else◌,
}
use mkqd.Base.Int.{ℤ, pos, ltb_ℤ, ◌≤ℤ◌}
use mkqd.HttpMessage.{Url}
use mkqd.HttpSig.Keys.{LocalSigner, new_local_signer}
use mkqd.RetryAfter.Errors.{Error, message}

-- SignerConfig.
pub record SignerConfig : Type 0 where
  pub type : Bytes
  pub key_id : Bytes
  pub private_key_path : Bytes
  pub path : Bytes
  pub url : Bytes
  pub secret : Bytes
  pub timeout : ℤ
  pub allow_private_network : Option Bool

-- remoteSigner. `guarded` tells whether its client refuses private addresses.
pub record RemoteSigner : Type 0 where
  pub url : Bytes
  pub secret : Bytes
  pub timeout : ℤ
  pub guarded : Bool

pub data AnySigner : Type 0 where
  file_signer : LocalSigner → AnySigner
  dir_signer : (dir : Bytes) → AnySigner
  remote_signer : RemoteSigner → AnySigner

pub data BuiltSigner : Type 0 where
  made : AnySigner → BuiltSigner
  refused : Error → BuiltSigner

-- What the file system and the parsers answer: os.ReadFile, ParsePrivateKey, os.Stat with IsDir, and
-- url.Parse.
pub record Surroundings : Type 0 where
  pub read_file : Bytes → Option Bytes
  pub parse_key : Bytes → Option Bytes
  pub is_dir : Bytes → Option Bool
  pub parse_url : Bytes → Option Url

abbrev pub default_remote_timeout : ℤ
default_remote_timeout = pos 5000000000

abbrev pub default_timeout : ℤ
default_timeout = pos 30000000000

abbrev pub default_max_response_bytes : ℤ
default_max_response_bytes = pos 65536

-- `if n <= 0 { n = d }`.
abbrev pub positive_or : ℤ → ℤ → ℤ
positive_or n d = if ltb_ℤ (pos 0) n then n else d

abbrev refuse : Bytes → BuiltSigner
refuse text = refused (message text)

abbrev of_local : Option LocalSigner → BuiltSigner
of_local none = refuse (codes "httpsig")
of_local (some s) = made (file_signer s)

abbrev of_key : Bytes → Option Bytes → BuiltSigner
of_key key_id none = refuse (codes "private_key_path")
of_key key_id (some key) = of_local (new_local_signer key_id (some key))

abbrev of_pem : Surroundings → Bytes → Option Bytes → BuiltSigner
of_pem s key_id none = refuse (codes "read")
of_pem s key_id (some pem) = of_key key_id (s.parse_key pem)

unfoldable pub new_file_signer : Surroundings → SignerConfig → BuiltSigner
unfolding new_local_signer
new_file_signer s c =
    if is_empty c.key_id
    then refuse (codes "signer.key_id is required")
    else if is_empty c.private_key_path
    then refuse (codes "signer.private_key_path is required")
    else of_pem s c.key_id (s.read_file c.private_key_path)

abbrev of_stat : Bytes → Option Bool → BuiltSigner
of_stat path none = refuse (codes "stat")
of_stat path (some false) = refuse (codes "not a directory")
of_stat path (some true) = made (dir_signer path)

unfoldable pub new_dir_signer : Surroundings → SignerConfig → BuiltSigner
new_dir_signer s c =
    if is_empty c.path
    then refuse (codes "signer.path is required")
    else of_stat c.path (s.is_dir c.path)

abbrev or_true : Option Bool → Bool
or_true none = true
or_true (some b) = b

abbrev pub is_web : Url → Bool
is_web u = bytes_eq u.scheme (codes "http") || bytes_eq u.scheme (codes "https")

abbrev of_url : SignerConfig → Option Url → BuiltSigner
of_url c none = refuse (codes "signer.url is not parseable")
of_url c (some u) =
    if not (is_web u)
    then refuse (codes "signer.url must use http or https")
    else if is_empty u.host
    then refuse (codes "signer.url has no host")
    else made (
        remote_signer (record {
          url = c.url;
          secret = c.secret;
          timeout = positive_or c.timeout default_remote_timeout;
          guarded = not (or_true c.allow_private_network);
        }))

unfoldable pub new_remote_signer : Surroundings → SignerConfig → BuiltSigner
new_remote_signer s c =
    if is_empty c.url then refuse (codes "signer.url is required") else of_url c (s.parse_url c.url)

unfoldable pub build_signer : Surroundings → SignerConfig → BuiltSigner
unfolding new_file_signer new_dir_signer new_remote_signer
build_signer s c =
    if bytes_eq c.type (codes "file")
    then new_file_signer s c
    else if bytes_eq c.type (codes "dir")
    then new_dir_signer s c
    else if bytes_eq c.type (codes "remote")
    then new_remote_signer s c
    else if is_empty c.type
    then refuse (codes "signer.type is required")
    else refuse (codes "unknown signer type")

-- Config of the executor.
pub record DeliverConfig : Type 0 where
  pub timeout : ℤ
  pub user_agent : Bytes
  pub max_response_bytes : ℤ
  pub allow_private_network : Bool
  pub signer : SignerConfig

-- The fields of Executor that New fills in.
pub record Delivery : Type 0 where
  pub signer : AnySigner
  pub timeout : ℤ
  pub user_agent : Bytes
  pub max_bytes : ℤ
  pub guarded : Bool

-- New; no signer is `none`, and so is an error.
unfoldable pub new_delivery : Bytes → DeliverConfig → Option AnySigner → Option Delivery
new_delivery own_agent c none = none
new_delivery own_agent c (some signer) = some (record {
  signer = signer;
  timeout = positive_or c.timeout default_timeout;
  user_agent = if is_empty c.user_agent then own_agent else c.user_agent;
  max_bytes = positive_or c.max_response_bytes default_max_response_bytes;
  guarded = not c.allow_private_network;
})

-- The warning of newExecutor.
unfoldable pub warns_no_secret : SignerConfig → Bool
warns_no_secret c = bytes_eq c.type (codes "remote") && is_empty c.secret

-- newExecutor behind the decoder: the executor, and whether it warned.
abbrev pub of_signer : Bytes → DeliverConfig → BuiltSigner → Option (Delivery × Bool)
unfolding new_delivery warns_no_secret
of_signer own_agent c (refused e) = none
of_signer own_agent c (made signer) = elim (new_delivery own_agent c (some signer)) [
  | none ↦ none
  | some d ↦ some (d, warns_no_secret c.signer)
]

unfoldable pub new_executor : Surroundings → Bytes → DeliverConfig → Option (Delivery × Bool)
unfolding build_signer new_delivery warns_no_secret
new_executor s own_agent c = of_signer own_agent c (build_signer s c.signer)

-- What an executor that could be built is like.
abbrev pub IsUsable : Surroundings → AnySigner → Type 0
IsUsable s (file_signer l) =
    (l.0 ≢ [])
    × ((pem : Bytes) × (path : Bytes) × (s.read_file path ≡ some pem)
        × (s.parse_key pem ≡ some l.1))
IsUsable s (dir_signer dir) = (dir ≢ []) × (s.is_dir dir ≡ some true)
IsUsable s (remote_signer r) =
    (u : Url) × (s.parse_url r.url ≡ some u)
    × ((is_web u ≡ true) × ((u.host ≢ []) × (pos 1 ≤ℤ r.timeout)))

abbrev Sound : Surroundings → BuiltSigner → Type 0
Sound s (refused e) = Unit {0}
Sound s (made a) = IsUsable s a

nonempty : (b : Bytes) → is_empty b ≡ false → b ≢ []
nonempty [] h e = ground (arith, h)
nonempty (x ∷ b) h e = ground (arith, e)

positive_or-positive : (n d : ℤ) → pos 1 ≤ℤ d → pos 1 ≤ℤ positive_or n d
positive_or-positive n d h = ground arith

file_Sound : (s : Surroundings) (c : SignerConfig) → Sound s (new_file_signer s c)
unfolding new_file_signer new_local_signer
file_Sound s c =
    if-elim (Sound s) (is_empty c.key_id) _ _ (λ _. tt)
      (λ n.
        if-elim (Sound s) (is_empty c.private_key_path) _ _ (λ _. tt)
          (λ _. elim (Option-cases (s.read_file c.private_key_path)) [
            | inl q ↦ rw q tt
            | inr (pem, q) ↦ rw q (elim (Option-cases (s.parse_key pem)) [
              | inl r ↦ rw r tt
              | inr (key, r) ↦ rw (r, n) (nonempty c.key_id n, (pem, c.private_key_path, q, r))
            ])
          ]))

dir_Sound : (s : Surroundings) (c : SignerConfig) → Sound s (new_dir_signer s c)
unfolding new_dir_signer
dir_Sound s c =
    if-elim (Sound s) (is_empty c.path) _ _ (λ _. tt)
      (λ n. stat (nonempty c.path n) (s.is_dir c.path) refl)
  where
    stat : c.path ≢ [] → (o : Option Bool) → s.is_dir c.path ≡ o → Sound s (of_stat c.path o)
    stat n none q = tt
    stat n (some false) q = tt
    stat n (some true) q = (n, q)

remote_Sound : (s : Surroundings) (c : SignerConfig) → Sound s (new_remote_signer s c)
unfolding new_remote_signer
remote_Sound s c =
    if-elim (Sound s) (is_empty c.url) _ _ (λ _. tt) (λ _. parsed (s.parse_url c.url) refl)
  where
    parsed : (o : Option Url) → s.parse_url c.url ≡ o → Sound s (of_url c o)
    parsed none q = tt
    parsed (some u) q =
        if-elim (Sound s) (not (is_web u)) _ _ (λ _. tt)
          (λ w.
            if-elim (Sound s) (is_empty u.host) _ _ (λ _. tt)
              (λ h. (
                u,
                q,
                (
                  ground (arith, w),
                  (
                    nonempty u.host h,
                    positive_or-positive c.timeout default_remote_timeout (omega arith),
                  ),
                ),
              )))

build_Sound : (s : Surroundings) (c : SignerConfig) → Sound s (build_signer s c)
unfolding build_signer
build_Sound s c =
    if-elim (Sound s) (bytes_eq c.type (codes "file")) _ _ (λ _. file_Sound s c)
      (λ _.
        if-elim (Sound s) (bytes_eq c.type (codes "dir")) _ _ (λ _. dir_Sound s c)
          (λ _.
            if-elim (Sound s) (bytes_eq c.type (codes "remote")) _ _ (λ _. remote_Sound s c)
              (λ _. if-elim (Sound s) (is_empty c.type) _ _ (λ _. tt) (λ _. tt))))

-- A signer that BuildSigner makes can be used: a file signer has a key id and a key that was parsed
-- from a file that was read, a dir signer a directory that is there, and a remote signer an http or
-- https URL with a host and a positive timeout.
pub build_signer-IsUsable :
    (s : Surroundings) (c : SignerConfig) (a : AnySigner) → build_signer s c ≡ made a → IsUsable s a
build_signer-IsUsable s c a e = subst (Sound s) e (build_Sound s c)
