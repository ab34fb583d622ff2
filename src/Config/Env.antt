-- ===== src/Config/Env.antt =====
-- The environment references of config.go: envPattern, expandEnvNode, walkScalars and dedupe. The
-- environment, os.LookupEnv, is an argument. A text is read from the left; `skip` counts the bytes of
-- a reference that are still to be passed over.
pub mod Print
pub mod Dedupe
use mkqd.Base.{
  ℕ, zero, suc, ◌+◌, ◌-◌, Bool, true, false, not, ◌&&◌, ◌||◌, Option, none, some, List, [], ◌∷◌,
  ◌++◌, Bytes, codes, leb, ◌==◌, mem_bytes, is_empty, length, drop, if◌then◌else◌,
}
use mkqd.Config.Yaml.{
  Node, Nodes, Kind, node, end, cons, document_node, sequence_node, mapping_node, scalar_node,
  alias_node,
}

-- [A-Za-z_] and [A-Za-z0-9_].
abbrev pub is_name_start : ℕ → Bool
is_name_start c = (leb b'A' c && leb c b'Z') || (leb b'a' c && leb c b'z') || c == b'_'

abbrev pub is_name_byte : ℕ → Bool
is_name_byte c = is_name_start c || (leb b'0' c && leb c b'9')

-- The longest front of a text whose bytes pass the test.
unfoldable pub take_while : (ℕ → Bool) → Bytes → Bytes
take_while p [] = []
take_while p (c ∷ s) = if p c then c ∷ take_while p s else []

pub record Reference : Type 0 where
  pub name : Bytes
  pub default : Option Bytes

-- Behind the name: `}`, or `:-`, a default without `}`, and `}`.
unfoldable pub match_tail : Bytes → Bytes → Option Reference
match_tail name [] = none
match_tail name (c ∷ []) = if c == b'}' then some (record { name = name; default = none }) else none
match_tail name (c ∷ d ∷ s) =
    let default = take_while (λ b. not (b == b'}')) s in
    if c == b'}'
    then some (record { name = name; default = none })
    else if c == b':' && d == b'-' && not (is_empty (drop (length default) s))
    then some (record { name = name; default = some default })
    else none

unfoldable pub match_name : Bytes → Option Reference
match_name [] = none
match_name (c ∷ s) =
    let name = take_while is_name_byte (c ∷ s) in
    if is_name_start c then match_tail name (drop (length name) (c ∷ s)) else none

-- envPattern at the front of a text.
unfoldable pub match_reference : Bytes → Option Reference
unfolding match_name
match_reference (c ∷ d ∷ s) = if c == b'$' && d == b'{' then match_name s else none
match_reference _ = none

abbrev pub default_text : Option Bytes → Bytes
default_text none = []
default_text (some d) = codes ":-" ++ d

-- A reference as it is written.
unfoldable pub print_reference : Reference → Bytes
print_reference r = codes "${" ++ (r.name ++ (default_text r.default ++ (b'}' ∷ [])))

pub record Expanded : Type 0 where
  pub text : Bytes
  pub missing : List Bytes

-- What a reference stands for, and its name if it stands for nothing.
unfoldable pub resolve : (Bytes → Option Bytes) → Reference → Expanded
resolve env r = elim (env r.name) [
  | some v ↦ record { text = v; missing = [] }
  | none ↦ elim r.default [
    | some d ↦ record { text = d; missing = [] }
    | none ↦ record { text = []; missing = r.name ∷ [] }
  ]
]

abbrev pub join : Expanded → Expanded → Expanded
join a b = record { text = a.text ++ b.text; missing = a.missing ++ b.missing }

abbrev pub literal : ℕ → Expanded → Expanded
literal c b = record { text = c ∷ b.text; missing = b.missing }

-- ReplaceAllStringFunc with the function of expandEnvNode.
unfoldable pub expand : (Bytes → Option Bytes) → ℕ → Bytes → Expanded
expand env skip [] = record { text = []; missing = [] }
expand env (suc skip) (c ∷ s) = expand env skip s
expand env zero (c ∷ s) = elim (match_reference (c ∷ s)) [
  | none ↦ literal c (expand env zero s)
  | some r ↦ join (resolve env r) (expand env (length (print_reference r) - 1) s)
]

-- envPattern.MatchString.
unfoldable pub has_reference : Bytes → Bool
has_reference [] = false
has_reference (c ∷ s) = elim (match_reference (c ∷ s)) [ some r ↦ true | none ↦ has_reference s ]

-- The function that expandEnvNode gives to walkScalars: the new value loses its tag.
unfoldable pub expand_scalar : (Bytes → Option Bytes) → Bytes → Bytes → Nodes → Node × List Bytes
unfolding expand has_reference
expand_scalar env tag value content =
    let e = expand env zero value in
    if has_reference value
    then (node scalar_node [] e.text content, e.missing)
    else (node scalar_node tag value content, [])

unfoldable mutual
  -- walkScalars, with the nodes after the call and the names that are missing.
  pub walk_scalars : (Bytes → Option Bytes) → Node → Node × List Bytes
  walk_scalars env (node scalar_node tag value content) = expand_scalar env tag value content
  walk_scalars env (node kind tag value content) =
      let (content', missing) = walk_content env content in (node kind tag value content', missing)

  pub walk_content : (Bytes → Option Bytes) → Nodes → Nodes × List Bytes
  walk_content env end = (end, [])
  walk_content env (cons n rest) =
      let (n', missing) = walk_scalars env n in
      let (rest', missing') = walk_content env rest in (cons n' rest', missing ++ missing')

-- The loop of dedupe, which writes over its input: `seen` is the set, `out` follows from the rest.
unfoldable pub dedupe_from : List Bytes → List Bytes → List Bytes
dedupe_from seen [] = []
dedupe_from seen (s ∷ rest) =
    if mem_bytes s seen then dedupe_from seen rest else s ∷ dedupe_from (s ∷ seen) rest

unfoldable pub dedupe : List Bytes → List Bytes
unfolding dedupe_from
dedupe = dedupe_from []

-- expandEnvNode: the expanded document, or the undefined variables.
pub data EnvResult : Type 0 where
  expanded : Node → EnvResult
  undefined : List Bytes → EnvResult

abbrev env_result : Node × List Bytes → EnvResult
env_result (n, []) = expanded n
env_result (n, m ∷ ms) = undefined (dedupe (m ∷ ms))

unfoldable pub expand_env_node : (Bytes → Option Bytes) → Node → EnvResult
unfolding walk_scalars walk_content dedupe
expand_env_node env n = env_result (walk_scalars env n)
