-- ===== src/Examples/Changes.antt =====
-- Changes of the store with two nodes.
use proxyscene.Common.{
  Bool-cases, Option, String, [], ap, arith, cons-eq-cons, cons-ne-nil, contains, delete, eq_iff,
  false, inl, inr, insert, keep_if, none, not, ok, refl, some, subst, suc, sym, trim_space, true,
  zero, ℕ, ◌<◌, ◌==◌, ◌↔◌, ◌∷◌, ◌≡◌, ◌≢◌, ◌⊎◌,
}
use proxyscene.Config.{scene_dev, scene_global}
use proxyscene.Examples.Stores.{
  node_a, node_b, test_checker, test_in_order, test_parser, two_nodes, two_nodes-IsValid,
  two_nodes_checked,
}
use proxyscene.Links.{ParsedNode, prepare_node, prepare_stored_node}
use proxyscene.Nodes.{
  add_node, free_id, normalize_scope, remove_all_nodes_from_store, remove_node_from_store,
  rename_node, use_node_in_store,
}
use proxyscene.Nodes.Add.{rename_node-IsValid}
use proxyscene.Nodes.AddNode.{add_node-IsValid}
use proxyscene.Nodes.Draw.{free_id_enough}
use proxyscene.Nodes.Remove.{remove_all_nodes-IsValid, remove_node-IsValid, remove_node_iff}
use proxyscene.Nodes.Use.{use_node-IsValid, use_node_selects}
use proxyscene.Store.{Store, find_node, is_found, known_scene, scene_node, selected_node_id}
use proxyscene.Store.Checked.{IsValid-validate, clean_store, validated-IsValid}
use proxyscene.Store.Select.{selected_node_id_found}
use proxyscene.Store.Valid.{IsValid}
use proxyscene.Store.Validate.{node_ids, node_urls, safe_store_identifier, validate_store_semantics}
use proxyscene.Text.{sanitize_node_name}

validated-IsValid_example : IsValid test_checker two_nodes × (two_nodes ≡ clean_store two_nodes)
validated-IsValid_example = validated-IsValid test_checker test_in_order two_nodes two_nodes_checked

IsValid-validate_example : validate_store_semantics test_checker two_nodes ≡ ok (two_nodes, false)
IsValid-validate_example =
    IsValid-validate test_checker test_in_order (λ i. refl) two_nodes two_nodes-IsValid

selected_node_id_found_example :
    (is_found (find_node two_nodes.nodes (selected_node_id two_nodes scene_dev)) ≡ true)
    ⊎ ((two_nodes.nodes ≡ []) × (selected_node_id two_nodes scene_dev ≡ ""))
selected_node_id_found_example = selected_node_id_found two_nodes scene_dev

-- The store after the removal of the second node.
abbrev one_node : Store
one_node = record two_nodes { nodes = node_a ∷ []; scene_nodes = []; speed_results = [] }

node_removed : remove_node_from_store two_nodes "b" ≡ ok one_node
unfolding remove_node_from_store delete
node_removed = refl

remove_node-IsValid_example :
    IsValid test_checker one_node
    × (one_node.nodes ≡ keep_if (λ n. not (n.id == "b")) two_nodes.nodes)
    × (contains (node_ids one_node.nodes) "b" ≡ false)
remove_node-IsValid_example =
    remove_node-IsValid test_checker two_nodes "b" two_nodes-IsValid node_removed

remove_node_iff_example :
    ((st' : Store) × (remove_node_from_store two_nodes "a" ≡ ok st'))
    ↔ (contains (node_ids two_nodes.nodes) "a" ≡ true)
remove_node_iff_example = remove_node_iff test_checker two_nodes "a" two_nodes-IsValid

remove_all_nodes-IsValid_example : IsValid test_checker (remove_all_nodes_from_store two_nodes)
remove_all_nodes-IsValid_example = remove_all_nodes-IsValid test_checker two_nodes two_nodes-IsValid

-- The store after the second node was chosen for the development proxy.
abbrev dev_chosen : Store
dev_chosen = record two_nodes { scene_nodes = (scene_global, "b") ∷ (scene_dev, "b") ∷ [] }

dev_used : use_node_in_store two_nodes "b" " 开发" ≡ ok dev_chosen
unfolding use_node_in_store find_node trim_space insert
dev_used = refl

use_node-IsValid_example : IsValid test_checker dev_chosen
use_node-IsValid_example =
    use_node-IsValid test_checker two_nodes "b" " 开发" two_nodes-IsValid dev_used

use_node_selects_example :
    (((normalize_scope " 开发" ≡ scene_dev) ⊎ (normalize_scope " 开发" ≡ "all"))
      → selected_node_id dev_chosen scene_dev ≡ "b")
    × (normalize_scope " 开发" ≢ scene_dev
        → normalize_scope " 开发" ≢ "all"
        → scene_node dev_chosen scene_dev ≡ scene_node two_nodes scene_dev)
unfolding known_scene
use_node_selects_example = use_node_selects two_nodes "b" " 开发" scene_dev dev_used refl

abbrev renamed_store : Store
renamed_store = record two_nodes {
  nodes = node_a ∷ record node_b { name = "third"; updated_at = 9 } ∷ [];
}

node_renamed : rename_node 9 two_nodes "b" " third" ≡ ok renamed_store
unfolding rename_node find_node trim_space sanitize_node_name
node_renamed = refl

rename_node-IsValid_example :
    IsValid test_checker renamed_store
    × (node_ids renamed_store.nodes ≡ node_ids two_nodes.nodes)
    × (node_urls renamed_store.nodes ≡ node_urls two_nodes.nodes)
rename_node-IsValid_example =
    rename_node-IsValid test_checker 9 two_nodes "b" " third" two_nodes-IsValid node_renamed

-- IDs that differ in their length.
letters : ℕ → String
letters zero = ""
letters (suc i) = String.◌∷◌ "n" (letters i)

letters-injective : (i j : ℕ) → letters i ≡ letters j → i ≡ j
unfolding letters
letters-injective zero zero e = refl
letters-injective zero (suc j) e = elim (cons-ne-nil _ _ (sym e)) [ ]
letters-injective (suc i) zero e = elim (cons-ne-nil _ _ e) [ ]
letters-injective (suc i) (suc j) e = ap suc (letters-injective i j (cons-eq-cons.0 e).1)

apart_numbers : (i j : ℕ) → j ≡ i → i < j → ⊥
apart_numbers i j e l = omega arith

letters_differ : (i j : ℕ) → i < j → (letters j == letters i) ≡ false
letters_differ i j l = elim (Bool-cases (letters j == letters i)) [
  | inl e ↦ elim (apart_numbers i j (letters-injective j i ((eq_iff _ _).0 e)) l) [ ]
  | inr e ↦ e
]

free_id_enough_example :
    (j : ℕ) × (free_id letters two_nodes.nodes 0 3 ≡ some (letters j))
    × (find_node two_nodes.nodes (letters j) ≡ none)
free_id_enough_example = free_id_enough letters letters_differ two_nodes.nodes 0

abbrev draw : ℕ → String
draw i = "c"

abbrev added_store : Store
added_store = record two_nodes {
  nodes =
      node_a
      ∷ node_b
      ∷ record {
        id = "c";
        name = "node";
        protocol = "vless";
        raw_url = "vless://c";
        created_at = 9;
        updated_at = 9;
        subscription_ids = [];
        subscription_managed = false;
      }
      ∷ [];
}

node_added :
    add_node test_parser 9 draw 0 two_nodes " vless://c" "" "default"
    ≡ ok (record added_store { default_node_id = "c" }, "c")
unfolding add_node prepare_node prepare_stored_node trim_space find_node
node_added = refl

name_of : Option ParsedNode → String
name_of none = ""
name_of (some pn) = pn.name

clean_names :
    (raw : String) (pn : ParsedNode)
    → test_parser.parse_node raw ≡ some pn
    → sanitize_node_name pn.name ≡ pn.name
unfolding sanitize_node_name name_of
clean_names raw pn h = subst (λ s. sanitize_node_name s ≡ s) (ap name_of h) refl

add_node-IsValid_example : IsValid test_checker (record added_store { default_node_id = "c" })
unfolding safe_store_identifier
add_node-IsValid_example =
    add_node-IsValid test_checker 9 draw 0 clean_names (λ i. refl) two_nodes " vless://c" ""
      "default" two_nodes-IsValid node_added
