-- ===== src/Nodes/Use.antt =====
-- The choice of a node for a scope (internal/manager/node.go).
use proxyscene.Common.{
  >>-eq-ok, All, Assoc, Bool, Bool-cases, String, accepted, ap, arith, contains, eq_iff, false,
  if◌then◌else◌, inl, inr, insert, lookup-insert, no_node, not, ok, ok-injective, refl, reject_if,
  sym, true, ◌==◌, ◌||◌, ◌∙◌, ◌≡◌, ◌≢◌, ◌⊎◌,
}
use proxyscene.Config.{Scene, scene_dev, scene_global, scene_telegram}
use proxyscene.Nodes.{normalize_scope, use_node_in_store, use_scope}
use proxyscene.Nodes.References.{All-insert, is_found-find_node}
use proxyscene.Store.{
  Store, find_node, has_enabled_scene, is_found, known_scene, scene_node, selected_node_id,
}
use proxyscene.Store.Valid.{IsSceneNode, IsValid}
use proxyscene.Store.Validate.{Checker, node_ids}

-- What a choice did, for a normalized scope: the default, one scene, or all of them.
pub data Choice (st : Store) (id scope : String) (st' : Store) : Type 0 where
  by_default :
      (scope ≡ "") ⊎ (scope ≡ "default")
      → st' ≡ record st { default_node_id = id }
      → Choice st id scope st'
  by_scene :
      known_scene scope ≡ true
      → st' ≡ record st { scene_nodes = insert scope id st.scene_nodes }
      → Choice st id scope st'
  by_all :
      scope ≡ "all"
      → st' ≡ record st {
        default_node_id = id;
        scene_nodes =
            insert scene_telegram id (insert scene_dev id (insert scene_global id st.scene_nodes));
      }
      → Choice st id scope st'

either : (s a b : String) → (s == a || s == b) ≡ true → (s ≡ a) ⊎ (s ≡ b)
either s a b h = ground (arith, eq_iff s a, eq_iff s b)

use_scope_cases :
    (st : Store) (id scope : String) {st' : Store}
    → use_scope st id scope ≡ ok st'
    → Choice st id scope st'
unfolding use_scope known_scene
use_scope_cases st id scope h = elim (Bool-cases (scope == "" || scope == "default")) [
  | inl e ↦ by_default (either scope _ _ e) (sym (ok-injective (rw e at h)))
  | inr e1 ↦ elim (Bool-cases (scope == "global" || scope == "dev" || scope == "telegram")) [
    | inl e ↦ by_scene e (sym (ok-injective (rw (e1, e) at h)))
    | inr e2 ↦ elim (Bool-cases (scope == "all")) [
      | inl e ↦ by_all ((eq_iff scope "all").0 e) (sym (ok-injective (rw (e1, e2, e) at h)))
      | inr e ↦ cc (rw (e1, e2, e) at h)
    ]
  ]
]

-- Another default and other scene nodes, each a node that exists.
rechosen :
    (k : Checker) (st : Store) (default : String) (scenes : Assoc String)
    → (default ≡ "") ⊎ (contains (node_ids st.nodes) default ≡ true)
    → All (IsSceneNode (node_ids st.nodes)) scenes
    → IsValid k st
    → IsValid k (record st { default_node_id = default; scene_nodes = scenes })
unfolding has_enabled_scene
rechosen k st default scenes there each v = record {
  config = v.config;
  few_nodes = v.few_nodes;
  few_subscriptions = v.few_subscriptions;
  few_targets = v.few_targets;
  idle = v.idle;
  subscriptions = v.subscriptions;
  unique_subscriptions = v.unique_subscriptions;
  nodes = v.nodes;
  default = there;
  scenes = each;
  switches = v.switches;
  results = v.results;
  targets = v.targets;
  unique_targets = v.unique_targets;
}

Choice-IsValid :
    (k : Checker) (st : Store) (id scope : String) {st' : Store}
    → IsValid k st
    → id ≢ ""
    → contains (node_ids st.nodes) id ≡ true
    → Choice st id scope st'
    → IsValid k st'
unfolding known_scene
Choice-IsValid k st id scope v some_id there (by_default _ e) =
    rw e (rechosen k st id st.scene_nodes (inr there) v.scenes v)
Choice-IsValid k st id scope v some_id there (by_scene known e) = rw e (
    rechosen k st st.default_node_id _ v.default
      (All-insert (IsSceneNode (node_ids st.nodes)) scope id st.scene_nodes (known, some_id, there)
        v.scenes)
      v)
Choice-IsValid k st id scope v some_id there (by_all _ e) =
    let P = IsSceneNode (node_ids st.nodes) in
    rw e (
      rechosen k st id _ (inr there)
        (All-insert P scene_telegram id _ (refl, some_id, there)
          (All-insert P scene_dev id _ (refl, some_id, there)
            (All-insert P scene_global id st.scene_nodes (refl, some_id, there) v.scenes)))
        v)

-- What `useNodeInStore` went through.
pub use_node_made :
    (st : Store) (id scope : String) {st' : Store}
    → use_node_in_store st id scope ≡ ok st'
    → (id ≢ "")
      × (is_found (find_node st.nodes id) ≡ true)
      × Choice st id (normalize_scope scope) st'
unfolding use_node_in_store
use_node_made st id scope h =
    let (named, h) = >>-eq-ok (reject_if (id == "") no_node) _ h in
    let (found, h) = >>-eq-ok (reject_if _ no_node) _ h in
    (
      text_there id (accepted _ no_node named),
      held _ (accepted _ no_node found),
      use_scope_cases st id (normalize_scope scope) h,
    )
  where
    text_there : (id : String) → (id == "") ≡ false → id ≢ ""
    text_there id e z = ground (arith, eq_iff id "")

    held : (b : Bool) → not b ≡ false → b ≡ true
    held b e = ground arith

-- The choice of a node for a scope keeps a valid store valid.
pub use_node-IsValid :
    (k : Checker) (st : Store) (id scope : String) {st' : Store}
    → IsValid k st
    → use_node_in_store st id scope ≡ ok st'
    → IsValid k st'
use_node-IsValid k st id scope v h =
    let (some_id, found, made) = use_node_made st id scope h in
    Choice-IsValid k st id (normalize_scope scope) v some_id
      (sym (is_found-find_node st.nodes id) ∙ found) made

-- A node with a name that a scene selects.
selects :
    (st : Store) (scene id : String)
    → id ≢ ""
    → is_found (find_node st.nodes id) ≡ true
    → scene_node st scene ≡ id
    → selected_node_id st scene ≡ id
unfolding selected_node_id
selects st scene id some_id found e = rw e (ground (arith, eq_iff id "", found))

scene_node-insert :
    (st : Store) (scenes : Assoc String) (k id scene : String)
    → scene_node (record st { scene_nodes = insert k id scenes }) scene
      ≡ (if k == scene then id else scene_node (record st { scene_nodes = scenes }) scene)
unfolding scene_node
scene_node-insert st scenes k id scene = rw (lookup-insert k scene id scenes) (ground arith)

apart : (s t : String) → s ≢ t → (s == t) ≡ false
apart s t h = ground (arith, eq_iff s t)

all_set :
    (st : Store) (id : String) (scene : Scene)
    → known_scene scene ≡ true
    → scene_node
        (record st {
          default_node_id = id;
          scene_nodes =
              insert scene_telegram id
                (insert scene_dev id (insert scene_global id st.scene_nodes));
        })
        scene
      ≡ id
unfolding known_scene
all_set st id scene known =
    let m1 = insert scene_global id st.scene_nodes in
    rw
      (
        scene_node-insert (record st { default_node_id = id }) (insert scene_dev id m1)
            scene_telegram id scene,
        scene_node-insert (record st { default_node_id = id }) m1 scene_dev id scene,
        scene_node-insert (record st { default_node_id = id }) st.scene_nodes scene_global id scene,
      )
      (ground (
        arith,
        known,
        eq_iff scene "global",
        eq_iff scene "dev",
        eq_iff scene "telegram",
        eq_iff "global" scene,
        eq_iff "dev" scene,
        eq_iff "telegram" scene,
      ))

-- The scenes that a choice sets, and those that it leaves.
module _ (st : Store) (id scope : String) (scene : Scene) (known : known_scene scene ≡ true) where
  Choice-sets :
      {st' : Store}
      → Choice st id scope st'
      → ((scope ≡ scene) ⊎ (scope ≡ "all"))
      → (scene_node st' scene ≡ id) × (st'.nodes ≡ st.nodes)
  unfolding known_scene
  Choice-sets (by_default (inl a) e) (inl b) = cc (rw (← b, a) at known)
  Choice-sets (by_default (inr a) e) (inl b) = cc (rw (← b, a) at known)
  Choice-sets (by_default (inl a) e) (inr b) = cc
  Choice-sets (by_default (inr a) e) (inr b) = cc
  Choice-sets (by_scene a e) (inl b) = rw e (
    scene_node-insert st st.scene_nodes scope id scene
        ∙ ap (λ (t : Bool). if t then id else scene_node st scene) ((eq_iff scope scene).1 b),
    refl,
  )
  Choice-sets (by_scene a e) (inr b) = cc (rw b at a)
  Choice-sets (by_all a e) b = rw e (all_set st id scene known, refl)

  Choice-leaves :
      {st' : Store}
      → Choice st id scope st'
      → scope ≢ scene
      → scope ≢ "all"
      → scene_node st' scene ≡ scene_node st scene
  unfolding scene_node
  Choice-leaves (by_default a e) b c = rw e refl
  Choice-leaves (by_scene a e) b c =
      rw (e, scene_node-insert st st.scene_nodes scope id scene, apart scope scene b)
  Choice-leaves (by_all a e) b c = elim (c a) [ ]

-- After a node was chosen for a scene, by its name or an alias or with all scenes, that scene selects
-- this node; a scene that was not chosen keeps its own choice.
pub use_node_selects :
    (st : Store) (id scope : String) (scene : Scene) {st' : Store}
    → use_node_in_store st id scope ≡ ok st'
    → known_scene scene ≡ true
    → (((normalize_scope scope ≡ scene) ⊎ (normalize_scope scope ≡ "all"))
        → selected_node_id st' scene ≡ id)
      × (normalize_scope scope ≢ scene
          → normalize_scope scope ≢ "all"
          → scene_node st' scene ≡ scene_node st scene)
use_node_selects st id scope scene {st'} h known =
    let (some_id, found, made) = use_node_made st id scope h in
    (
      λ chosen.
          let (e, same) = Choice-sets st id (normalize_scope scope) scene known made chosen in
          selects st' scene id some_id (rw same found) e,
      Choice-leaves st id (normalize_scope scope) scene known made,
    )
