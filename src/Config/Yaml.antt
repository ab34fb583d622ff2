-- ===== src/Config/Yaml.antt =====
-- The part of yaml.Node that config.go reads and writes: the kind, the tag, the value and the content.
use mkqd.Base.{Bool, true, false, Bytes, codes, bytes_eq, if◌then◌else◌}

-- An alias's target is not in its content, so an alias has none.
pub data Kind : Type 0 where
  document_node sequence_node mapping_node scalar_node alias_node : Kind

mutual
  pub data Node : Type 0 where
    node : Kind → Bytes → Bytes → Nodes → Node

  pub data Nodes : Type 0 where
    end : Nodes
    cons : Node → Nodes → Nodes

abbrev pub is_mapping : Kind → Bool
is_mapping mapping_node = true
is_mapping _ = false

abbrev pub node_value : Node → Bytes
node_value (node kind tag value content) = value

-- The loop of DecodeStrict over the pairs of a mapping, which drops the key "type". A key with no
-- value behind it is dropped too.
unfoldable pub without_type : Nodes → Nodes
without_type end = end
without_type (cons key end) = end
without_type (cons key (cons value rest)) =
    if bytes_eq (node_value key) (codes "type")
    then without_type rest
    else cons key (cons value (without_type rest))

-- The node that DecodeStrict decodes into the executor's options.
unfoldable pub strict_node : Node → Node
unfolding without_type
strict_node (node kind tag value content) =
    if is_mapping kind
    then node kind tag value (without_type content)
    else node kind tag value content
