-- ===== src/Store/Valid.antt =====
-- What a validated store promises (internal/manager/store.go), as a predicate on stores.
use proxyscene.Common.{
  All, Bool, IsNodup, List, Option, String, contains, false, len, length, lowers_to, map, none, ok,
  some, trim_space, true, ◌≡◌, ◌≢◌, ◌≤◌, ◌⊎◌,
}
use proxyscene.Config.{RuntimeConfig, apply_to, empty_config, runtime_config_version}
use proxyscene.Config.Accepts.{IsRunnable}
use proxyscene.Config.Validate.{max_telegram_targets}
use proxyscene.Links.{
  LinkParser, PreparedNode, max_node_name_bytes, max_node_url_bytes, prepare_stored_node,
}
use proxyscene.Platform.{Platform, Url}
use proxyscene.Store.{Node, SpeedResult, Store, has_enabled_scene, known_scene}
use proxyscene.Store.Validate.{
  Checker, max_subscription_url_bytes, max_subscriptions, max_total_nodes, node_ids, node_urls,
  safe_store_identifier, subscription_id,
}
use proxyscene.Systemd.{safe_systemd_target_name}
use proxyscene.Text.{sanitize_display_text, sanitize_node_name}

-- A node by itself: a safe ID, known sources, a link that parses with the node's protocol, and a
-- name that is clean.
pub record IsNode (l : LinkParser) (known : List String) (n : Node) : Type 0 where
  pub safe_id : safe_store_identifier n.id ≡ true
  pub few : length n.subscription_ids ≤ max_subscriptions
  pub sources : All (λ s. contains known s ≡ true) n.subscription_ids
  pub unique : IsNodup n.subscription_ids
  pub short : len n.raw_url ≤ max_node_url_bytes
  pub trimmed : trim_space n.raw_url ≡ n.raw_url
  pub link :
      (q : PreparedNode) × (prepare_stored_node l n.raw_url ≡ ok q)
      × (n.protocol ≡ q.parsed.protocol)
  pub clean : sanitize_node_name n.name ≡ n.name
  pub short_name : len n.name ≤ max_node_name_bytes

-- The nodes of a store: each one fine, no ID and no link twice.
pub record AreNodes (l : LinkParser) (known : List String) (nodes : List Node) : Type 0 where
  pub each : All (IsNode l known) nodes
  pub unique_ids : IsNodup (node_ids nodes)
  pub unique_urls : IsNodup (node_urls nodes)

-- A subscription link by itself.
pub record IsSubscription (p : Platform) (s : String) : Type 0 where
  pub nonempty : s ≢ ""
  pub short : len s ≤ max_subscription_url_bytes
  pub trimmed : trim_space s ≡ s
  pub web :
      (u : Url) × (p.parse_url s ≡ some u)
      × (u.host ≢ "")
      × ((lowers_to u.scheme "https" ≡ true) ⊎ (lowers_to u.scheme "http" ≡ true))

abbrev pub IsSceneNode : List String → String × String → Type 0
IsSceneNode ids (scene, id) = (known_scene scene ≡ true) × (id ≢ "") × (contains ids id ≡ true)

abbrev pub IsSceneSwitch : String × Bool → Type 0
IsSceneSwitch (scene, on) = known_scene scene ≡ true

-- A speed result of an existing node, with clean texts.
abbrev pub IsResult : List String → String × SpeedResult → Type 0
IsResult ids (id, r) =
    (contains ids id ≡ true)
    × (r.node_id ≡ id)
    × (sanitize_display_text r.target 512 ≡ r.target)
    × (sanitize_display_text r.error 4096 ≡ r.error)

abbrev pub IsStoredConfig : Platform → Option RuntimeConfig → Type 0
IsStoredConfig p none = Unit
IsStoredConfig p (some r) =
    (r.version ≡ runtime_config_version) × IsRunnable p (apply_to (some r) empty_config)

abbrev pub known_sources : Platform → Store → List String
known_sources p st = map (subscription_id p) st.subscriptions

pub record IsValid (k : Checker) (st : Store) : Type 0 where
  pub config : IsStoredConfig k.platform st.stored_config
  pub few_nodes : length st.nodes ≤ max_total_nodes
  pub few_subscriptions : length st.subscriptions ≤ max_subscriptions
  pub few_targets : length st.telegram_targets ≤ max_telegram_targets
  pub idle : length st.nodes ≡ 0 → has_enabled_scene st ≡ false
  pub subscriptions : All (IsSubscription k.platform) st.subscriptions
  pub unique_subscriptions : IsNodup st.subscriptions
  pub nodes : AreNodes k.parser (known_sources k.platform st) st.nodes
  pub default : (st.default_node_id ≡ "") ⊎ (contains (node_ids st.nodes) st.default_node_id ≡ true)
  pub scenes : All (IsSceneNode (node_ids st.nodes)) st.scene_nodes
  pub switches : All IsSceneSwitch st.scene_enabled
  pub results : All (IsResult (node_ids st.nodes)) st.speed_results
  pub targets : All (λ t. safe_systemd_target_name t ≡ ok tt) st.telegram_targets
  pub unique_targets : IsNodup st.telegram_targets
