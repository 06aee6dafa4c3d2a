-- ===== src/Nodes/Add.antt =====
-- Renaming and adding nodes keeps a store valid (internal/manager/node.go).
use proxyscene.Common.{
  >>-eq-ok, All, All-map, Bool-cases, IsNodup, List, String, [], accepted, ap, contains, empty_name,
  inl, inr, len, length, long_name, ltb, ltb→ge, map, no_node, ok, ok-injective, refl, reject_if,
  subst, sym, trim_space, true, ℕ, ◌==◌, ◌∙◌, ◌∷◌, ◌≡◌, ◌≤◌, ◌⊎◌,
}
use proxyscene.Links.{LinkParser, max_node_name_bytes}
use proxyscene.Nodes.{change_node, rename_node}
use proxyscene.Nodes.Draw.{ids-length}
use proxyscene.Store.{Node, Store, has_enabled_scene}
use proxyscene.Store.Valid.{AreNodes, IsNode, IsResult, IsSceneNode, IsValid, known_sources}
use proxyscene.Store.Validate.{Checker, max_total_nodes, node_ids, node_urls}
use proxyscene.Text.{sanitize_node_name}
use proxyscene.Text.Sanitize.{sanitize_node_name_clean}

-- Other nodes for a store, that hold the IDs of the old ones.
pub grown-IsValid :
    (k : Checker) (st : Store) (nodes : List Node) (default : String)
    → length nodes ≤ max_total_nodes
    → (length nodes ≡ 0 → length st.nodes ≡ 0)
    → AreNodes k.parser (known_sources k.platform st) nodes
    → (default ≡ "") ⊎ (contains (node_ids nodes) default ≡ true)
    → ((y : String) → contains (node_ids st.nodes) y ≡ true → contains (node_ids nodes) y ≡ true)
    → IsValid k st
    → IsValid k (record st { nodes = nodes; default_node_id = default })
unfolding has_enabled_scene
grown-IsValid k st nodes default few idle fine chosen more v = record {
  config = v.config;
  few_nodes = few;
  few_subscriptions = v.few_subscriptions;
  few_targets = v.few_targets;
  idle = λ e. v.idle (idle e);
  subscriptions = v.subscriptions;
  unique_subscriptions = v.unique_subscriptions;
  nodes = fine;
  default = chosen;
  scenes =
      All-map (IsSceneNode (node_ids st.nodes)) (IsSceneNode (node_ids nodes)) st.scene_nodes
        (λ (scene, id) (known, some_id, there). (known, some_id, more id there)) v.scenes;
  switches = v.switches;
  results =
      All-map (IsResult (node_ids st.nodes)) (IsResult (node_ids nodes)) st.speed_results
        (λ (id, r) (there, same, target, error). (more id there, same, target, error)) v.results;
  targets = v.targets;
  unique_targets = v.unique_targets;
}

pub map-change_node :
    (g : Node → String) (id : String) (f : Node → Node) (nodes : List Node)
    → ((n : Node) → g (f n) ≡ g n)
    → map g (change_node id f nodes) ≡ map g nodes
unfolding change_node
map-change_node g id f [] same = refl
map-change_node g id f (n ∷ rest) same = elim (Bool-cases (n.id == id)) [
  | inl e ↦ rw (e, same n)
  | inr e ↦ rw (e, map-change_node g id f rest same)
]

pub All-change_node :
    (P : Node → Type 0) (id : String) (f : Node → Node) (nodes : List Node)
    → ((n : Node) → P n → P (f n))
    → All P nodes
    → All P (change_node id f nodes)
unfolding change_node
All-change_node P id f [] keeps h = tt
All-change_node P id f (n ∷ rest) keeps h = elim (Bool-cases (n.id == id)) [
  | inl e ↦ rw e (keeps n h.0, h.1)
  | inr e ↦ rw e (h.0, All-change_node P id f rest keeps h.1)
]

-- A change of a node that keeps its ID and its link.
pub changed-IsValid :
    (k : Checker) (st : Store) (id : String) (f : Node → Node)
    → ((n : Node) → (f n).id ≡ n.id)
    → ((n : Node) → (f n).raw_url ≡ n.raw_url)
    → ((n : Node)
        → IsNode k.parser (known_sources k.platform st) n
        → IsNode k.parser (known_sources k.platform st) (f n))
    → IsValid k st
    → IsValid k (record st { nodes = change_node id f st.nodes })
changed-IsValid k st id f same_id same_url keeps v =
    let nodes = change_node id f st.nodes in
    let ids = map-change_node (λ n. n.id) id f st.nodes same_id in
    let urls = map-change_node (λ n. n.raw_url) id f st.nodes same_url in
    let same : length nodes ≡ length st.nodes =
      sym (ids-length nodes) ∙ ap length ids ∙ ids-length st.nodes in
    grown-IsValid k st nodes st.default_node_id
      (subst (λ n. n ≤ max_total_nodes) (sym same) v.few_nodes) (λ e. sym same ∙ e)
      (record {
        each =
            All-change_node (IsNode k.parser (known_sources k.platform st)) id f st.nodes keeps
              v.nodes.each;
        unique_ids = subst IsNodup (sym ids) v.nodes.unique_ids;
        unique_urls = subst IsNodup (sym urls) v.nodes.unique_urls;
      })
      (rw ids v.default) (λ y h. rw ids h) v

-- A node with a name that is clean and short.
pub renamed :
    (l : LinkParser) (known : List String) (n : Node) (name : String) (now : ℕ)
    → sanitize_node_name name ≡ name
    → len name ≤ max_node_name_bytes
    → IsNode l known n
    → IsNode l known (record n { name = name; updated_at = now })
renamed l known n name now clean short h = record {
  safe_id = h.safe_id;
  few = h.few;
  sources = h.sources;
  unique = h.unique;
  short = h.short;
  trimmed = h.trimmed;
  link = h.link;
  clean = clean;
  short_name = short;
}

-- A node renamed in a valid store leaves a valid store, with the IDs and the links as they were.
pub rename_node-IsValid :
    (k : Checker) (now : ℕ) (st : Store) (id name : String) {st' : Store}
    → IsValid k st
    → rename_node now st id name ≡ ok st'
    → IsValid k st'
      × (node_ids st'.nodes ≡ node_ids st.nodes)
      × (node_urls st'.nodes ≡ node_urls st.nodes)
unfolding rename_node
rename_node-IsValid k now st id name {st'} v h =
    let clean = sanitize_node_name (trim_space name) in
    let (_, h) = >>-eq-ok (reject_if _ no_node) _ h in
    let (_, h) = >>-eq-ok (reject_if (trim_space name == "") empty_name) _ h in
    let (short, h) = >>-eq-ok (reject_if (ltb max_node_name_bytes (len clean)) long_name) _ h in
    let f = λ (n : Node). record n { name = clean; updated_at = now } in
    subst
      (λ s.
        IsValid k s
        × (node_ids s.nodes ≡ node_ids st.nodes)
        × (node_urls s.nodes ≡ node_urls st.nodes))
      (ok-injective h)
      (
        changed-IsValid k st id f (λ n. refl) (λ n. refl)
            (λ n.
              renamed k.parser _ n clean now (sanitize_node_name_clean (trim_space name)).2
                (ltb→ge _ _ (accepted _ long_name short)))
            v,
        map-change_node (λ n. n.id) id f st.nodes (λ n. refl),
        map-change_node (λ n. n.raw_url) id f st.nodes (λ n. refl),
      )
