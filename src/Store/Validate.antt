-- ===== src/Store/Validate.antt =====
-- `validateStoreSemantics` (internal/manager/store.go).
use Prim.Native.String.{◌++◌}
use proxyscene.Common.{
  Assoc, Bool, Char, List, Option, Result, String, [], bad_default, bad_node_id, bad_node_url,
  bad_protocol, bad_result, bad_scene, bad_source, bad_subscription, bad_target, bad_version,
  between, code, contains, eqb, every_rune, false, if◌then◌else◌, int_eqb, len, length, long_name,
  lowers_to, ltb, map, none, not, ok, reject_if, scene_without_node, some, timed_out,
  too_many_nodes, too_many_sources, too_many_subscriptions, too_many_targets, trim_space, true, ℕ,
  ℤ, ◌&&◌, ◌+◌, ◌==◌, ◌>>=◌, ◌>>◌, ◌||◌, ◌∷◌,
}
use proxyscene.Config.{Config, RuntimeConfig, apply_to, empty_config, runtime_config_version}
use proxyscene.Config.Validate.{max_telegram_targets, validate_runtime}
use proxyscene.Links.{LinkParser, max_node_name_bytes, max_node_url_bytes, prepare_stored_node}
use proxyscene.Platform.{Platform, Url}
use proxyscene.Store.{Node, SpeedResult, Store, has_enabled_scene, known_scene}
use proxyscene.Systemd.{safe_systemd_target_name}
use proxyscene.Text.{sanitize_display_text, sanitize_node_name}

abbrev pub max_subscription_url_bytes : ℕ
max_subscription_url_bytes = 4096

abbrev pub max_subscriptions : ℕ
max_subscriptions = 512

abbrev pub max_total_nodes : ℕ
max_total_nodes = 4096

-- `subscriptionID` (internal/manager/subscription.go)
unfoldable pub subscription_id : Platform → String → String
subscription_id p raw = "sub-" ++ p.sha256_hex raw

-- [A-Za-z0-9-_.], the runes of an identifier.
unfoldable pub is_identifier_rune : Char → Bool
is_identifier_rune r =
    let c = code r in
    between b'a' b'z' c
    || between b'A' b'Z' c
    || between b'0' b'9' c
    || eqb c b'-'
    || eqb c b'_'
    || eqb c b'.'

-- `safeStoreIdentifier`
unfoldable pub safe_store_identifier : String → Bool
unfolding is_identifier_rune every_rune
safe_store_identifier value =
    if value == "" || ltb 128 (len value) || value == "." || value == ".."
    then false
    else every_rune is_identifier_rune value

-- `validateRuntimeConfig`; the ports of the configuration stand in the order of Go's map.
unfoldable pub validate_stored_config :
    Platform → (Config → List ℤ) → Option RuntimeConfig → Result (Unit {0})
validate_stored_config p order none = ok tt
validate_stored_config p order (some r) = do
  reject_if (not (int_eqb r.version runtime_config_version)) bad_version
  reject_if (ltb max_telegram_targets (length r.tg_target_services)) too_many_targets
  let c = apply_to (some r) empty_config
  validate_runtime p (order c) c

-- The tests on one subscription link.
unfoldable pub url_is_web : Option Url → Bool
url_is_web none = false
url_is_web (some u) =
    not (u.host == "") && (lowers_to u.scheme "https" || lowers_to u.scheme "http")

unfoldable pub check_subscriptions : Platform → List String → List String → Result (Unit {0})
unfolding url_is_web
check_subscriptions p seen [] = ok tt
check_subscriptions p seen (s ∷ rest) = do
  reject_if
      (s == ""
        || ltb max_subscription_url_bytes (len s)
        || not (trim_space s == s)
        || contains seen s)
      bad_subscription
  reject_if (not (url_is_web (p.parse_url s))) bad_subscription
  check_subscriptions p (s ∷ seen) rest

-- The sources of one node: known ones, none twice.
unfoldable pub check_sources : List String → List String → List String → Result (Unit {0})
check_sources known seen [] = ok tt
check_sources known seen (s ∷ rest) = do
  reject_if (not (contains known s) || contains seen s) bad_source
  check_sources known (s ∷ seen) rest

-- The node with its name cleaned, and whether that changed it.
unfoldable pub clean_name : Node → Node × Bool
clean_name node =
    let clean = sanitize_node_name node.name in
    if clean == node.name then (node, false) else (record node { name = clean }, true)

-- One round of the loop over the nodes, after the check of the time.
unfoldable pub check_node :
    LinkParser → List String → List String → List String → Node → Result (Node × Bool)
unfolding check_sources clean_name
check_node l known ids urls node = do
  reject_if (not (safe_store_identifier node.id) || contains ids node.id) bad_node_id
  reject_if (ltb max_subscriptions (length node.subscription_ids)) too_many_sources
  check_sources known [] node.subscription_ids
  reject_if
      (ltb max_node_url_bytes (len node.raw_url)
        || not (trim_space node.raw_url == node.raw_url)
        || contains urls node.raw_url)
      bad_node_url
  prepared ← prepare_stored_node l node.raw_url
  reject_if (not (node.protocol == prepared.parsed.protocol)) bad_protocol
  reject_if (ltb max_node_name_bytes (len (sanitize_node_name node.name))) long_name
  ok (clean_name node)

-- The loop over the nodes: `late i` tells whether the deadline has passed before the node at `i`.
unfoldable pub check_nodes :
    LinkParser
    → (ℕ → Bool)
    → List String
    → ℕ
    → List String
    → List String
    → List Node
    → Result (List Node × Bool)
unfolding check_node
check_nodes l late known i ids urls [] = ok ([], false)
check_nodes l late known i ids urls (n ∷ rest) = do
  reject_if (late i) timed_out
  first ← check_node l known ids urls n
  others ← check_nodes l late known (i + 1) (n.id ∷ ids) (n.raw_url ∷ urls) rest
  ok (first.0 ∷ others.0, first.1 || others.1)

unfoldable pub check_scene_nodes : List String → Assoc String → Result (Unit {0})
check_scene_nodes ids [] = ok tt
check_scene_nodes ids ((scene, id) ∷ rest) = do
  reject_if (not (known_scene scene) || id == "" || not (contains ids id)) bad_scene
  check_scene_nodes ids rest

unfoldable pub check_scene_enabled : Assoc Bool → Result (Unit {0})
check_scene_enabled [] = ok tt
check_scene_enabled ((scene, on) ∷ rest) = do
  reject_if (not (known_scene scene)) bad_scene
  check_scene_enabled rest

-- A speed result with its texts cleaned, and whether that changed it.
unfoldable pub clean_result : SpeedResult → SpeedResult × Bool
clean_result r =
    let target = sanitize_display_text r.target 512 in
    let error = sanitize_display_text r.error 4096 in
    if not (target == r.target) || not (error == r.error)
    then (record r { target = target; error = error }, true)
    else (r, false)

unfoldable pub check_results : List String → Assoc SpeedResult → Result (Assoc SpeedResult × Bool)
unfolding clean_result
check_results ids [] = ok ([], false)
check_results ids ((id, r) ∷ rest) = do
  reject_if (not (contains ids id) || not (r.node_id == id)) bad_result
  others ← check_results ids rest
  ok ((id, (clean_result r).0) ∷ others.0, (clean_result r).1 || others.1)

-- The Telegram targets of the store: well formed, none twice.
unfoldable pub check_stored_targets : List String → List String → Result (Unit {0})
check_stored_targets seen [] = ok tt
check_stored_targets seen (t ∷ rest) = do
  reject_if (contains seen t) bad_target
  safe_systemd_target_name t
  check_stored_targets (t ∷ seen) rest

abbrev pub node_ids : List Node → List String
node_ids = map (λ n. n.id)

abbrev pub node_urls : List Node → List String
node_urls = map (λ n. n.raw_url)

-- What the validation depends on: Go's packages, the link parsers, the order of the map of ports,
-- and the clock.
pub record Checker : Type 0 where
  pub platform : Platform
  pub parser : LinkParser
  pub order : Config → List ℤ
  pub late : ℕ → Bool

-- `validateStoreSemantics`: the store with its display texts cleaned, and whether that changed it.
unfoldable pub validate_store_semantics : Checker → Store → Result (Store × Bool)
unfolding validate_stored_config check_subscriptions check_nodes check_scene_nodes
    check_scene_enabled check_results check_stored_targets
validate_store_semantics k st = do
  validate_stored_config k.platform k.order st.stored_config
  reject_if (ltb max_total_nodes (length st.nodes)) too_many_nodes
  reject_if (ltb max_subscriptions (length st.subscriptions)) too_many_subscriptions
  reject_if (ltb max_telegram_targets (length st.telegram_targets)) too_many_targets
  reject_if (eqb (length st.nodes) 0 && has_enabled_scene st) scene_without_node
  check_subscriptions k.platform [] st.subscriptions
  let known = map (subscription_id k.platform) st.subscriptions
  checked ← check_nodes k.parser k.late known 0 [] [] st.nodes
  let ids = node_ids st.nodes
  reject_if (not (st.default_node_id == "") && not (contains ids st.default_node_id)) bad_default
  check_scene_nodes ids st.scene_nodes
  check_scene_enabled st.scene_enabled
  results ← check_results ids st.speed_results
  check_stored_targets [] st.telegram_targets
  ok (record st { nodes = checked.0; speed_results = results.0 }, checked.1 || results.1)
