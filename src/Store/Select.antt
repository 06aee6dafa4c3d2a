-- ===== src/Store/Select.antt =====
-- The node of a scene (internal/manager/store.go).
use proxyscene.Common.{
  Bool-cases, List, String, [], arith, eq_iff, eq_refl, inl, inr, refl, some, true, ◌==◌, ◌∷◌, ◌≡◌,
  ◌⊎◌,
}
use proxyscene.Config.{Scene}
use proxyscene.Store.{Node, Store, find_node, first_node_id, is_found, selected_node_id}

find_node-cons : (n : Node) (rest : List Node) → is_found (find_node (n ∷ rest) n.id) ≡ true
unfolding find_node
find_node-cons n rest = ground (arith, eq_refl n.id)

first_found :
    (nodes : List Node)
    → (is_found (find_node nodes (first_node_id nodes)) ≡ true)
      ⊎ ((nodes ≡ []) × (first_node_id nodes ≡ ""))
unfolding first_node_id
first_found [] = inr (refl, refl)
first_found (n ∷ rest) = inl (find_node-cons n rest)

-- `findNode` returns a node of that ID.
pub find_node-id :
    (nodes : List Node) (id : String) {n : Node} → find_node nodes id ≡ some n → n.id ≡ id
unfolding find_node
find_node-id [] id h = cc
find_node-id (m ∷ rest) id {n} h = elim (Bool-cases (m.id == id)) [
  | inl e ↦ ground (arith, eq_iff m.id id)
  | inr e ↦ find_node-id rest id (rw e at h)
]

-- Whatever a store holds, as long as it has a node the node selected for a scene exists: a scene's own
-- choice if it names an existing node, else the default if that exists, else the first node; a
-- store with no node selects the empty ID.
pub selected_node_id_found :
    (st : Store) (scene : Scene)
    → (is_found (find_node st.nodes (selected_node_id st scene)) ≡ true)
      ⊎ ((st.nodes ≡ []) × (selected_node_id st scene ≡ ""))
unfolding selected_node_id
selected_node_id_found st scene = ground (arith, first_found st.nodes)
