-- ===== src/Store.antt =====
-- The state of internal/manager/types.go (`Node`, `SpeedResult`, `Store`) and the reads of
-- internal/manager/store.go. A Go map is an association list, and a nil map is the empty one, so
-- `normalizeStore` has nothing to do; a store is a value, so `cloneStore` and `restoreStore` copy
-- nothing. A `time.Time` is a number.
pub mod Select
pub mod Validate
pub mod Valid
pub mod CheckParts
pub mod CheckNodes
pub mod Checked
pub mod Persist
pub mod Crash
pub mod Generation
pub mod Resolve
pub mod Runtime
use proxyscene.Common.{
  Assoc, Bool, List, Option, String, [], false, if◌then◌else◌, lookup, none, not, some, true, ℕ, ℤ,
  ◌&&◌, ◌==◌, ◌||◌, ◌∷◌,
}
use proxyscene.Config.{RuntimeConfig, Scene, scene_dev, scene_global, scene_telegram}

-- `Node`
pub record Node : Type 0 where
  pub id : String
  pub name : String
  pub protocol : String
  pub raw_url : String
  pub created_at : ℕ
  pub updated_at : ℕ
  pub subscription_ids : List String
  pub subscription_managed : Bool

-- `SpeedResult`
pub record SpeedResult : Type 0 where
  pub node_id : String
  pub target : String
  pub latency_ms : ℤ
  pub success : Bool
  pub tested_at : ℕ
  pub error : String

-- `Store`; `generation` is a uint64.
pub record Store : Type 0 where
  pub generation : ℕ
  pub stored_config : Option RuntimeConfig
  pub nodes : List Node
  pub default_node_id : String
  pub scene_nodes : Assoc String
  pub scene_enabled : Assoc Bool
  pub subscriptions : List String
  pub speed_results : Assoc SpeedResult
  pub telegram_targets : List String

-- `newStore`
abbrev pub new_store : Store
new_store = record {
  generation = 0;
  stored_config = none;
  nodes = [];
  default_node_id = "";
  scene_nodes = [];
  scene_enabled = [];
  subscriptions = [];
  speed_results = [];
  telegram_targets = [];
}

-- `Store.findNode`, the first node with the ID.
unfoldable pub find_node : List Node → String → Option Node
find_node [] id = none
find_node (n ∷ rest) id = if n.id == id then some n else find_node rest id

-- `Store.findNodeByURL`
unfoldable pub find_node_by_url : List Node → String → Option Node
find_node_by_url [] raw = none
find_node_by_url (n ∷ rest) raw = if n.raw_url == raw then some n else find_node_by_url rest raw

abbrev pub is_found {ℓ} : {A : Type ℓ} → Option A → Bool
is_found none = false
is_found (some a) = true

-- `Store.firstNodeID`
unfoldable pub first_node_id : List Node → String
first_node_id [] = ""
first_node_id (n ∷ rest) = n.id

-- Reads of the maps: a missing key reads as the zero value.
abbrev text_or_empty : Option String → String
text_or_empty none = ""
text_or_empty (some s) = s

abbrev true_or_false : Option Bool → Bool
true_or_false none = false
true_or_false (some b) = b

-- `st.SceneNodes[scene]`
unfoldable pub scene_node : Store → Scene → String
scene_node st scene = text_or_empty (lookup scene st.scene_nodes)

-- `st.SceneEnabled[scene]`
unfoldable pub is_enabled : Store → Scene → Bool
is_enabled st scene = true_or_false (lookup scene st.scene_enabled)

-- `hasEnabledScene` (internal/manager/scenes.go)
unfoldable pub has_enabled_scene : Store → Bool
unfolding is_enabled
has_enabled_scene st =
    is_enabled st scene_global || is_enabled st scene_dev || is_enabled st scene_telegram

-- `Store.selectedNodeID`
unfoldable pub selected_node_id : Store → Scene → String
unfolding scene_node find_node first_node_id
selected_node_id st scene =
    let id = scene_node st scene in
    if not (id == "") && is_found (find_node st.nodes id)
    then id
    else if not (st.default_node_id == "") && is_found (find_node st.nodes st.default_node_id)
    then st.default_node_id
    else first_node_id st.nodes

-- `knownScene`
unfoldable pub known_scene : Scene → Bool
known_scene scene = scene == scene_global || scene == scene_dev || scene == scene_telegram
