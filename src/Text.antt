-- ===== src/Text.antt =====
-- The texts that are shown to the operator: `sanitizeDisplayText` (internal/manager/store.go) and
-- `sanitizeNodeName` (internal/manager/node.go).
pub mod Sanitize
use Prim.Native.Char.{len_utf8}
use proxyscene.Common.{
  Bool, Char, String, [], if◌then◌else◌, is_control, is_format, keep_runes, leb, len, ltb, not,
  trim_space, ℕ, ◌-◌, ◌==◌, ◌||◌,
}

-- What `strings.Map` keeps in both functions.
unfoldable pub is_shown : Char → Bool
unfolding is_control is_format
is_shown r = not (is_control r || is_format r)

-- The whole runes at the start of a text that fit into a number of bytes. `sanitizeDisplayText` cuts
-- a valid text at that byte and then drops bytes until it is valid again, which leaves these.
unfoldable pub take_bytes : ℕ → String → String
take_bytes n String.[] = ""
take_bytes n (String.◌∷◌ c s) =
    let rest = take_bytes (n - len_utf8 c) s in if leb (len_utf8 c) n then String.◌∷◌ c rest else ""

-- `sanitizeDisplayText`
unfoldable pub sanitize_display_text : String → ℕ → String
unfolding is_shown keep_runes take_bytes
sanitize_display_text value max_bytes =
    let clean = keep_runes is_shown value in
    if ltb max_bytes (len clean) then take_bytes max_bytes clean else clean

-- `sanitizeNodeName`
unfoldable pub sanitize_node_name : String → String
unfolding is_shown keep_runes trim_space
sanitize_node_name s =
    let cleaned = trim_space (keep_runes is_shown s) in if cleaned == "" then "node" else cleaned
