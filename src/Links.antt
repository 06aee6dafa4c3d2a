-- ===== src/Links.antt =====
-- The parser of node links as the store sees it (internal/manager/node.go): `prepareStoredNode`
-- and `prepareNode` over an interface for the parsers of the five protocols and for
-- `validateNodeRuntimeCompatibility`.
use Prim.Native.String.{◌++◌}
use proxyscene.Common.{
  Bool, Option, Result, String, bad_link, empty_link, err, if◌then◌else◌, len, long_link, long_name,
  ltb, none, not, ok, reject_if, some, trim_space, unsupported_node, ℕ, ◌==◌, ◌>>=◌, ◌>>◌,
}

-- `parsedNode`, as far as the store reads it. `outbound` is the canonical JSON text of the outbound
-- map, `none` where `json.Marshal` fails.
pub record ParsedNode : Type 0 where
  pub protocol : String
  pub name : String
  pub outbound : Option String

-- `parseNode`, and whether the core of this release supports a parsed node.
pub record LinkParser : Type 0 where
  pub parse_node : String → Option ParsedNode
  pub is_compatible : ParsedNode → Bool

-- `preparedNode`
pub record PreparedNode : Type 0 where
  pub raw_url : String
  pub parsed : ParsedNode

abbrev pub max_node_url_bytes : ℕ
max_node_url_bytes = 16384

abbrev pub max_node_name_bytes : ℕ
max_node_name_bytes = 256

-- The last steps of `prepareStoredNode`.
unfoldable named_node : String → Option ParsedNode → Result PreparedNode
named_node raw none = err bad_link
named_node raw (some pn) =
    if ltb max_node_name_bytes (len pn.name)
    then err long_name
    else ok (record { raw_url = raw; parsed = pn })

prepare_trimmed : LinkParser → String → Result PreparedNode
unfolding named_node
prepare_trimmed l raw =
    if raw == ""
    then err empty_link
    else if ltb max_node_url_bytes (len raw)
    then err long_link
    else named_node raw (l.parse_node raw)

-- `prepareStoredNode`
unfoldable pub prepare_stored_node : LinkParser → String → Result PreparedNode
unfolding prepare_trimmed
prepare_stored_node l raw = prepare_trimmed l (trim_space raw)

-- `prepareNode`
unfoldable pub prepare_node : LinkParser → String → Result PreparedNode
prepare_node l raw = do
  prepared ← prepare_stored_node l raw
  reject_if (not (l.is_compatible prepared.parsed)) unsupported_node
  ok prepared

-- The name of a node that brings none.
unfoldable pub unnamed : PreparedNode → String
unnamed prepared = prepared.parsed.protocol ++ "-node"
