-- ===== src/Nodes.antt =====
-- The changes of internal/manager/node.go to a store: a node is added, removed, renamed or chosen
-- for a scope, and the results of a speed test are merged. A change that fails is dropped with its
-- store by the caller, so an error carries none. The clock is the argument `now`, and `newNodeID`
-- is `new_id`, from the value of its counter to the ID that it draws there.
pub mod References
pub mod Remove
pub mod Use
pub mod Draw
pub mod Add
pub mod AddNode
pub mod Append
pub mod Speed
use proxyscene.Common.{
  List, Option, Result, String, [], bad_node, delete, empty_name, eqb, err, false, if◌then◌else◌,
  insert, keep_if, leb, len, length, long_name, ltb, no_fresh_id, no_node, none, not, ok, reject_if,
  some, suc, too_many_nodes, trim_space, unknown_scope, zero, ℕ, ◌&&◌, ◌++◌, ◌+◌, ◌==◌, ◌>>=◌, ◌>>◌,
  ◌||◌, ◌∷◌,
}
use proxyscene.Config.{scene_dev, scene_global, scene_telegram}
use proxyscene.Links.{LinkParser, PreparedNode, max_node_name_bytes, prepare_node, unnamed}
use proxyscene.Store.{
  Node, Store, find_node, find_node_by_url, first_node_id, has_enabled_scene, is_found,
}
use proxyscene.Store.Validate.{max_total_nodes}
use proxyscene.Text.{sanitize_node_name}

-- `normalizeScope`
unfoldable pub normalize_scope : String → String
normalize_scope scope =
    let s = trim_space scope in
    if s == "默认"
    then "default"
    else if s == "全局"
    then "global"
    else if s == "开发"
    then "dev"
    else if s == "电报" || s == "tg"
    then "telegram"
    else if s == "全部"
    then "all"
    else s

-- The choice of a node that exists, for a normalized scope.
unfoldable pub use_scope : Store → String → String → Result Store
use_scope st id scope =
    if scope == "" || scope == "default"
    then ok (record st { default_node_id = id })
    else if scope == "global" || scope == "dev" || scope == "telegram"
    then ok (record st { scene_nodes = insert scope id st.scene_nodes })
    else if scope == "all"
    then ok (record st {
      default_node_id = id;
      scene_nodes =
          insert scene_telegram id (insert scene_dev id (insert scene_global id st.scene_nodes));
    })
    else err unknown_scope

-- `useNodeInStore`
unfoldable pub use_node_in_store : Store → String → String → Result Store
unfolding use_scope normalize_scope
use_node_in_store st id scope = do
  reject_if (id == "") no_node
  reject_if (not (is_found (find_node st.nodes id))) no_node
  use_scope st id (normalize_scope scope)

-- `removeAllNodesFromStore`
unfoldable pub remove_all_nodes_from_store : Store → Store
remove_all_nodes_from_store st = record st {
  nodes = [];
  default_node_id = "";
  scene_nodes = [];
  speed_results = [];
  scene_enabled =
      insert scene_telegram false
        (insert scene_dev false (insert scene_global false st.scene_enabled));
}

-- The store without the node, its selections and its result.
unfoldable pub without_node : Store → String → Store
unfolding first_node_id
without_node st id =
    let nodes = keep_if (λ n. not (n.id == id)) st.nodes in
    record st {
      nodes = nodes;
      default_node_id =
          if st.default_node_id == id then first_node_id nodes else st.default_node_id;
      scene_nodes = keep_if (λ entry. not (entry.1 == id)) st.scene_nodes;
      speed_results = delete id st.speed_results;
    }

-- The scenes switched off when no node is left.
unfoldable pub without_scenes : Store → Store
unfolding has_enabled_scene
without_scenes st =
    if eqb (length st.nodes) 0 && has_enabled_scene st
    then record st {
      scene_enabled =
          insert scene_telegram false
            (insert scene_dev false (insert scene_global false st.scene_enabled));
    }
    else st

-- `removeNodeFromStore`
unfoldable pub remove_node_from_store : Store → String → Result Store
unfolding without_node without_scenes find_node
remove_node_from_store st id = do
  reject_if (id == "") no_node
  reject_if (not (is_found (find_node st.nodes id))) no_node
  ok (without_scenes (without_node st id))

-- A change of the first node with the ID, as through the pointer that `findNode` returns.
unfoldable pub change_node : String → (Node → Node) → List Node → List Node
change_node id f [] = []
change_node id f (n ∷ rest) = if n.id == id then f n ∷ rest else n ∷ change_node id f rest

-- The mutation of `renameNode`.
unfoldable pub rename_node : ℕ → Store → String → String → Result Store
unfolding change_node
rename_node now st id name = do
  reject_if (not (is_found (find_node st.nodes id))) no_node
  reject_if (trim_space name == "") empty_name
  let clean = sanitize_node_name (trim_space name)
  reject_if (ltb max_node_name_bytes (len clean)) long_name
  ok (record st {
    nodes = change_node id (λ n. record n { name = clean; updated_at = now }) st.nodes;
  })

-- The loop that draws an ID which no node has, within a number of draws.
unfoldable pub free_id : (ℕ → String) → List Node → ℕ → ℕ → Option String
free_id new_id nodes seq zero = none
free_id new_id nodes seq (suc fuel) =
    let rest = free_id new_id nodes (seq + 1) fuel in
    if is_found (find_node nodes (new_id seq)) then rest else some (new_id seq)

unfoldable pub or_no_id : Option String → Result String
or_no_id none = err no_fresh_id
or_no_id (some id) = ok id

-- The name given for a node, cleaned; none is kept as none.
unfoldable pub given_name : String → Result String
given_name name = if name == "" then ok "" else (do
  reject_if (ltb max_node_name_bytes (len (sanitize_node_name name))) long_name
  ok (sanitize_node_name name))

-- The name of a new node.
unfoldable pub new_name : String → PreparedNode → String
unfolding unnamed
new_name name prepared =
    if not (name == "")
    then name
    else if not (prepared.parsed.name == "")
    then prepared.parsed.name
    else unnamed prepared

unfoldable pub use_if_scope : Store → String → String → Result Store
unfolding use_node_in_store
use_if_scope st id scope = if scope == "" then ok st else use_node_in_store st id scope

-- A node of the same link that is there already.
unfoldable pub add_again : ℕ → Store → Node → String → String → Result (Store × String)
unfolding use_if_scope change_node
add_again now st old name scope = do
  let changed =
      change_node old.id
        (λ n.
          if name == ""
          then record n { subscription_managed = false }
          else record n { subscription_managed = false; name = name; updated_at = now })
        st.nodes
  used ← use_if_scope (record st { nodes = changed }) old.id scope
  ok (used, old.id)

-- The record of a new node.
unfoldable pub new_node : ℕ → String → PreparedNode → String → Node
unfolding new_name
new_node now id prepared name = record {
  id = id;
  name = new_name name prepared;
  protocol = prepared.parsed.protocol;
  raw_url = prepared.raw_url;
  created_at = now;
  updated_at = now;
  subscription_ids = [];
  subscription_managed = false;
}

-- A new node, behind the others; the first one is the default.
unfoldable pub add_new :
    ℕ → (ℕ → String) → ℕ → Store → PreparedNode → String → String → Result (Store × String)
unfolding new_node free_id or_no_id use_if_scope
add_new now new_id seq st prepared name scope = do
  reject_if (leb max_total_nodes (length st.nodes)) too_many_nodes
  id ← or_no_id (free_id new_id st.nodes seq (length st.nodes + 1))
  let grown = record st {
    nodes = st.nodes ++ (new_node now id prepared name ∷ []);
    default_node_id = if st.default_node_id == "" then id else st.default_node_id;
  }
  used ← use_if_scope grown id scope
  ok (used, id)

unfoldable pub add_found :
    ℕ
    → (ℕ → String)
    → ℕ
    → Store
    → PreparedNode
    → String
    → String
    → Option Node
    → Result (Store × String)
unfolding add_again add_new
add_found now new_id seq st prepared name scope (some old) = add_again now st old name scope
add_found now new_id seq st prepared name scope none = add_new now new_id seq st prepared name scope

-- `addPreparedNodeIndexed` without an index, as every call outside the tests has it.
unfoldable pub add_prepared_node :
    ℕ → (ℕ → String) → ℕ → Store → PreparedNode → String → String → Result (Store × String)
unfolding add_found given_name find_node_by_url
add_prepared_node now new_id seq st prepared name scope = do
  reject_if (prepared.raw_url == "") bad_node
  clean ← given_name name
  add_found now new_id seq st prepared clean scope (find_node_by_url st.nodes prepared.raw_url)

-- `addNode`
unfoldable pub add_node :
    LinkParser → ℕ → (ℕ → String) → ℕ → Store → String → String → String → Result (Store × String)
unfolding add_prepared_node
add_node l now new_id seq st raw name scope = do
  prepared ← prepare_node l raw
  add_prepared_node now new_id seq st prepared name scope
