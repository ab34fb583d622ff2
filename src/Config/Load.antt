-- ===== src/Config/Load.antt =====
-- Reading a configuration: LoadConfig and ParseConfig of config.go, with the YAML hooks of its types.
-- The yaml package is a parameter, and so are the file and the environment.
use mathlib.Core.Path.{subst}
use mkqd.Base.{◌≡◌, refl, false, Option, none, some, List, [], Bytes}
use mkqd.Base.Int.{ℤ, pos}
use mkqd.Config.Defaulted.{apply_defaults_idem}
use mkqd.Config.Env.{EnvResult, expanded, undefined, expand_env_node}
use mkqd.Config.Validity.{IsValid, validate_iff}
use mkqd.Config.Yaml.{Node, strict_node}
use mkqd.Config.{Config, ConfigError, ExecutorConfig, apply_defaults, validate}

-- What the yaml package gives: the document of a text, which an empty text does not have, its text
-- again, and the configuration of a text with no unknown field.
pub record YamlPackage : Type 0 where
  pub unmarshal : Bytes → Option (Option Node)
  pub marshal : Node → Option Bytes
  pub decode_config : Bytes → Option Config

pub data LoadError : Type 0 where
  unreadable bad_yaml : LoadError
  undefined_variables : List Bytes → LoadError
  invalid_config : ConfigError → LoadError

pub data LoadResult : Type 0 where
  load_error : LoadError → LoadResult
  parsed : Config → LoadResult

-- The zero value of Config.
abbrev pub zero_config : Config
zero_config = record {
  redis = record {
    addrs = [];
    db = pos 0;
    username = [];
    password = [];
    master_name = [];
    pool_size = pos 0;
  };
  key_prefix = [];
  log = record { level = []; format = [] };
  server = record { addr = []; metrics = false };
  shutdown_timeout = pos 0;
  defaults = record {
    concurrency = pos 0;
    lock_duration = pos 0;
    stalled_interval = pos 0;
    max_stalled_count = pos 0;
    job_metrics = pos 0;
  };
  queues = [];
}

-- The end of ParseConfig: the defaults and the checks.
unfoldable pub validated : Config → Option ConfigError → LoadResult
validated c none = parsed c
validated c (some e) = load_error (invalid_config e)

unfoldable pub finish : Option Config → LoadResult
unfolding validated
finish none = load_error bad_yaml
finish (some c) = validated (apply_defaults c) (validate (apply_defaults c))

module _ (y : YamlPackage) where
  abbrev decode_text : Option Bytes → Option Config
  decode_text none = none
  decode_text (some text) = y.decode_config text

  unfoldable pub parse_expanded : EnvResult → LoadResult
  unfolding finish
  parse_expanded (undefined names) = load_error (undefined_variables names)
  parse_expanded (expanded root) = finish (decode_text (y.marshal root))

  unfoldable pub parse_root : (Bytes → Option Bytes) → Option (Option Node) → LoadResult
  unfolding parse_expanded finish
  parse_root env none = load_error bad_yaml
  parse_root env (some none) = finish (some zero_config)
  parse_root env (some (some root)) = parse_expanded (expand_env_node env root)

  -- ParseConfig.
  unfoldable pub parse_config : (Bytes → Option Bytes) → Bytes → LoadResult
  unfolding parse_root
  parse_config env raw = parse_root env (y.unmarshal raw)

  -- LoadConfig; `file` is what os.ReadFile gives.
  unfoldable pub load_config : (Bytes → Option Bytes) → Option Bytes → LoadResult
  unfolding parse_config
  load_config env none = load_error unreadable
  load_config env (some raw) = parse_config env raw

-- Duration's hooks. `text_of` decodes a node as a text, `parse` is time.ParseDuration and `print` is
-- the String method of time.Duration.
abbrev parse_text : (Bytes → Option ℤ) → Option Bytes → Option ℤ
parse_text parse none = none
parse_text parse (some s) = parse s

unfoldable pub unmarshal_duration : (Node → Option Bytes) → (Bytes → Option ℤ) → Node → Option ℤ
unmarshal_duration text_of parse n = parse_text parse (text_of n)

unfoldable pub marshal_duration : (ℤ → Bytes) → ℤ → Bytes
marshal_duration print d = print d

-- ExecutorConfig's hooks. `type_of` decodes the field "type" of a node.
abbrev with_node : Node → Option Bytes → Option ExecutorConfig
with_node n none = none
with_node n (some type) = some (record { type = type; node = some n })

unfoldable pub unmarshal_executor : (Node → Option Bytes) → Node → Option ExecutorConfig
unmarshal_executor type_of n = with_node n (type_of n)

-- Decode into a value that was `before`.
unfoldable pub decode : {A : Type 0} → (Node → Option A) → A → ExecutorConfig → Option A
decode read before e = elim e.node [ none ↦ some before | some n ↦ read n ]

-- What a decoder that knows the fields gives: a value, the end of the text, or an error.
pub data Read (A : Type 0) : Type 0 where
  known : A → Read A
  at_end : Read A
  bad : Read A

abbrev or_before : {A : Type 0} → A → Read A → Option A
or_before before (known a) = some a
or_before before at_end = some before
or_before before bad = none

-- DecodeStrict: `read_known` marshals the node and decodes it with no unknown field.
unfoldable pub decode_strict : {A : Type 0} → (Node → Read A) → A → ExecutorConfig → Option A
decode_strict read_known before e = elim e.node [
  | none ↦ some before
  | some n ↦ or_before before (read_known (strict_node n))
]

-- What a loaded configuration is.
abbrev pub IsLoaded : Config → Type 0
IsLoaded c = IsValid c × (apply_defaults c ≡ c)

abbrev OnParsed : LoadResult → Type 0
OnParsed (load_error e) = Unit {0}
OnParsed (parsed c) = IsLoaded c

validated-IsLoaded :
    (c : Config) (o : Option ConfigError)
    → validate (apply_defaults c) ≡ o
    → OnParsed (validated (apply_defaults c) o)
unfolding validated
validated-IsLoaded c none h = ((validate_iff (apply_defaults c)).0 h, apply_defaults_idem c)
validated-IsLoaded c (some e) h = tt

finish-IsLoaded : (o : Option Config) → OnParsed (finish o)
unfolding finish
finish-IsLoaded none = tt
finish-IsLoaded (some c) = validated-IsLoaded c (validate (apply_defaults c)) refl

module _ (y : YamlPackage) where
  expanded-IsLoaded : (r : EnvResult) → OnParsed (parse_expanded y r)
  unfolding parse_expanded
  expanded-IsLoaded (undefined names) = tt
  expanded-IsLoaded (expanded root) = finish-IsLoaded _

  root-IsLoaded :
      (env : Bytes → Option Bytes) (o : Option (Option Node)) → OnParsed (parse_root y env o)
  unfolding parse_root
  root-IsLoaded env none = tt
  root-IsLoaded env (some none) = finish-IsLoaded (some zero_config)
  root-IsLoaded env (some (some root)) = expanded-IsLoaded (expand_env_node env root)

  load-IsLoaded :
      (env : Bytes → Option Bytes) (file : Option Bytes) → OnParsed (load_config y env file)
  unfolding load_config parse_config
  load-IsLoaded env none = tt
  load-IsLoaded env (some raw) = root-IsLoaded env (y.unmarshal raw)

  -- What LoadConfig gives is valid, with its defaults filled in.
  pub load_config-IsLoaded :
      (env : Bytes → Option Bytes) (file : Option Bytes) (c : Config)
      → load_config y env file ≡ parsed c
      → IsLoaded c
  load_config-IsLoaded env file c e = subst OnParsed e (load-IsLoaded env file)
