-- ===== src/Nodes/Remove.antt =====
-- Removal of nodes keeps a store valid (internal/manager/node.go).
use proxyscene.Common.{
  >>-eq-ok, All, Assoc, Bool, Bool-cases, List, String, [], accepted, arith, contains, eq_iff,
  eq_refl, eqb, false, if◌then◌else◌, inl, inr, insert, keep_if, le_trans, length, length-keep_if,
  lookup-insert, no_node, not, ok, ok-injective, refl, reject_if, subst, sym, true, ℕ, ◌&&◌, ◌==◌,
  ◌↔◌, ◌∙◌, ◌∷◌, ◌≡◌, ◌⊎◌,
}
use proxyscene.Config.{scene_dev, scene_global, scene_telegram}
use proxyscene.Links.{LinkParser}
use proxyscene.Nodes.{
  remove_all_nodes_from_store, remove_node_from_store, without_node, without_scenes,
}
use proxyscene.Nodes.References.{
  All-delete, All-insert, All-keep_if, IsNodup-keep_if, contains-kept, is_found-find_node,
}
use proxyscene.Store.{
  Node, SpeedResult, Store, first_node_id, has_enabled_scene, is_enabled, known_scene,
}
use proxyscene.Store.Valid.{IsNode, IsResult, IsSceneNode, IsSceneSwitch, IsValid}
use proxyscene.Store.Validate.{Checker, node_ids, safe_store_identifier}

abbrev idle : Assoc Bool → Assoc Bool
idle m = insert scene_telegram false (insert scene_dev false (insert scene_global false m))

idle-none :
    (st : Store) → has_enabled_scene (record st { scene_enabled = idle st.scene_enabled }) ≡ false
unfolding has_enabled_scene is_enabled
idle-none st =
    let m1 = insert scene_global false st.scene_enabled in
    let m2 = insert scene_dev false m1 in
    rw (
      lookup-insert scene_telegram scene_global false m2,
      lookup-insert scene_dev scene_global false m1,
      lookup-insert scene_global scene_global false st.scene_enabled,
      lookup-insert scene_telegram scene_dev false m2,
      lookup-insert scene_dev scene_dev false m1,
      lookup-insert scene_telegram scene_telegram false m2,
    )

idle-known : (m : Assoc Bool) → All IsSceneSwitch m → All IsSceneSwitch (idle m)
unfolding known_scene
idle-known m h = All-insert IsSceneSwitch scene_telegram false _ refl (
    All-insert IsSceneSwitch scene_dev false _ refl
      (All-insert IsSceneSwitch scene_global false m refl h))

-- The removal of all nodes keeps a valid store valid: with its scenes off, and its subscriptions and
-- Telegram targets kept.
pub remove_all_nodes-IsValid :
    (k : Checker) (st : Store) → IsValid k st → IsValid k (remove_all_nodes_from_store st)
unfolding remove_all_nodes_from_store
remove_all_nodes-IsValid k st v = record {
  config = v.config;
  few_nodes = omega arith;
  few_subscriptions = v.few_subscriptions;
  few_targets = v.few_targets;
  idle = λ _. idle-none _;
  subscriptions = v.subscriptions;
  unique_subscriptions = v.unique_subscriptions;
  nodes = record { each = tt; unique_ids = tt; unique_urls = tt };
  default = inl refl;
  scenes = tt;
  switches = idle-known st.scene_enabled v.switches;
  results = tt;
  targets = v.targets;
  unique_targets = v.unique_targets;
}

first_left :
    (nodes : List Node)
    → (first_node_id nodes ≡ "") ⊎ (contains (node_ids nodes) (first_node_id nodes) ≡ true)
unfolding first_node_id contains
first_left [] = inl refl
first_left (n ∷ rest) = inr (ground (arith, eq_refl n.id))

abbrev others : List Node → String → List Node
others nodes id = keep_if (λ n. not (n.id == id)) nodes

-- The default behind a removal: the first node that is left, or none.
default_left :
    (nodes : List Node) (old id : String)
    → (old ≡ "") ⊎ (contains (node_ids nodes) old ≡ true)
    → ((if old == id then first_node_id (others nodes id) else old) ≡ "")
      ⊎ (contains
            (node_ids (others nodes id))
            (if old == id then first_node_id (others nodes id) else old)
          ≡ true)
default_left nodes old id h = elim (Bool-cases (old == id)) [
  | inl e ↦ rw e (first_left (others nodes id))
  | inr e ↦ rw (e, contains-kept id nodes old) (ground (arith, h))
]

scene_left :
    (nodes : List Node) (id : String) (x : String × String)
    → not (x.1 == id) ≡ true
    → IsSceneNode (node_ids nodes) x
    → IsSceneNode (node_ids (others nodes id)) x
scene_left nodes id (scene, chosen) e (known, some_id, there) =
    (known, some_id, rw (contains-kept id nodes chosen) (ground (arith, e, there)))

row_left :
    (nodes : List Node) (id j : String) (r : SpeedResult)
    → (j == id) ≡ false
    → IsResult (node_ids nodes) (j, r)
    → IsResult (node_ids (others nodes id)) (j, r)
row_left nodes id j r e (there, same, target, error) =
    (rw (contains-kept id nodes j) (ground (arith, e, there)), same, target, error)

module _ (k : Checker) (st : Store) (id : String) (v : IsValid k st) where
  removed-IsValid :
      (on : Assoc Bool)
      → All IsSceneSwitch on
      → (length (others st.nodes id) ≡ 0
          → has_enabled_scene (record (without_node st id) { scene_enabled = on }) ≡ false)
      → IsValid k (record (without_node st id) { scene_enabled = on })
  unfolding without_node
  removed-IsValid on switches idle = record {
    config = v.config;
    few_nodes = le_trans (length-keep_if _ st.nodes) v.few_nodes;
    few_subscriptions = v.few_subscriptions;
    few_targets = v.few_targets;
    idle = idle;
    subscriptions = v.subscriptions;
    unique_subscriptions = v.unique_subscriptions;
    nodes = record {
      each =
          All-keep_if (IsNode k.parser _) (IsNode k.parser _) _ st.nodes (λ _ _ h. h) v.nodes.each;
      unique_ids = IsNodup-keep_if _ _ st.nodes v.nodes.unique_ids;
      unique_urls = IsNodup-keep_if _ _ st.nodes v.nodes.unique_urls;
    };
    default = default_left st.nodes st.default_node_id id v.default;
    scenes =
        All-keep_if (IsSceneNode (node_ids st.nodes)) (IsSceneNode (node_ids (others st.nodes id)))
          _ st.scene_nodes (scene_left st.nodes id) v.scenes;
    switches = switches;
    results =
        All-delete (IsResult (node_ids st.nodes)) (IsResult (node_ids (others st.nodes id))) id
          st.speed_results (row_left st.nodes id) v.results;
    targets = v.targets;
    unique_targets = v.unique_targets;
  }

  none_enabled : (n : ℕ) (b : Bool) → (eqb n 0 && b) ≡ false → n ≡ 0 → b ≡ false
  none_enabled n b e z = ground arith

  without_scenes-IsValid : IsValid k (without_scenes (without_node st id))
  unfolding without_scenes without_node
  without_scenes-IsValid =
      let left = record st { nodes = others st.nodes id } in
      elim (Bool-cases (eqb (length (others st.nodes id)) 0 && has_enabled_scene left)) [
        | inl e ↦ rw e (
            removed-IsValid (idle st.scene_enabled) (idle-known st.scene_enabled v.switches)
              (λ _. idle-none (without_node st id)))
        | inr e ↦ rw e (removed-IsValid st.scene_enabled v.switches (none_enabled _ _ e))
      ]

without_scenes-nodes : (st : Store) → (without_scenes st).nodes ≡ st.nodes
unfolding without_scenes
without_scenes-nodes st = ground arith

gone : (nodes : List Node) (id : String) → contains (node_ids (others nodes id)) id ≡ false
gone nodes id = rw (contains-kept id nodes id) (ground (arith, eq_refl id))

-- The removal of a node of a valid store, when it succeeds, leaves a valid store: no selection and no
-- speed result names the node any more, its ID is gone, and the other nodes are left as they stood.
pub remove_node-IsValid :
    (k : Checker) (st : Store) (id : String) {st' : Store}
    → IsValid k st
    → remove_node_from_store st id ≡ ok st'
    → IsValid k st'
      × (st'.nodes ≡ keep_if (λ n. not (n.id == id)) st.nodes)
      × (contains (node_ids st'.nodes) id ≡ false)
unfolding remove_node_from_store
remove_node-IsValid k st id v h =
    let (_, h) = >>-eq-ok (reject_if (id == "") no_node) _ h in
    let (_, h) = >>-eq-ok (reject_if _ no_node) _ h in
    subst
      (λ s. IsValid k s × (s.nodes ≡ others st.nodes id) × (contains (node_ids s.nodes) id ≡ false))
      (ok-injective h) (without_scenes-IsValid k st id v, left, rw left (gone st.nodes id))
  where
    left : (without_scenes (without_node st id)).nodes ≡ others st.nodes id
    left = without_scenes-nodes (without_node st id)

-- The nodes of a valid store have no empty ID.
pub some_ids :
    (l : LinkParser) (known : List String) (nodes : List Node)
    → All (IsNode l known) nodes
    → contains (node_ids nodes) "" ≡ false
unfolding contains safe_store_identifier
some_ids l known [] h = refl
some_ids l known (n ∷ rest) (fine, h) =
    let safe = fine.safe_id in ground (arith, eq_iff n.id "", some_ids l known rest h)

nonempty :
    (ids : List String) (id : String)
    → contains ids "" ≡ false
    → contains ids id ≡ true
    → (id == "") ≡ false
nonempty ids id free held = elim (Bool-cases (id == "")) [
  | inl e ↦ cc (sym free ∙ subst (λ z. contains ids z ≡ true) ((eq_iff id "").0 e) held)
  | inr e ↦ e
]

there : (b : Bool) → not b ≡ false → b ≡ true
there b h = ground arith

-- A removal from a valid store succeeds for exactly the IDs of its nodes.
pub remove_node_iff :
    (k : Checker) (st : Store) (id : String)
    → IsValid k st
    → ((st' : Store) × (remove_node_from_store st id ≡ ok st'))
      ↔ (contains (node_ids st.nodes) id ≡ true)
unfolding remove_node_from_store
remove_node_iff k st id v = (
  λ (st', h).
      let (_, h) = >>-eq-ok (reject_if (id == "") no_node) _ h in
      let (found, h) = >>-eq-ok (reject_if _ no_node) _ h in
      sym (is_found-find_node st.nodes id) ∙ there _ (accepted _ no_node found),
  λ held. (
    without_scenes (without_node st id),
    rw (
      nonempty (node_ids st.nodes) id (some_ids _ _ st.nodes v.nodes.each) held,
      is_found-find_node st.nodes id,
      held,
    ),
  ),
)
