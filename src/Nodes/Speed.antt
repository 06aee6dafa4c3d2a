-- ===== src/Nodes/Speed.antt =====
-- `mergeSpeedResults` and `fastestNodeID` (internal/manager/node.go).
pub mod Merge
use Prim.Native.Nat.{Ordering}
use Prim.Native.String.{compare}
use proxyscene.Common.{
  Assoc, Bool, List, Option, String, [], contains, delete, false, if◌then◌else◌, insert, int_eqb,
  keep_if, lookup, ltb, negsuc, none, not, pos, some, true, ℤ, ◌&&◌, ◌==◌, ◌||◌, ◌∷◌,
}
use proxyscene.Store.{Node, SpeedResult, Store}
use proxyscene.Store.Validate.{node_ids}
use proxyscene.Subscriptions.{by_id}

-- The first loop: the links of the snapshot, and the results that stand at the place of their node.
unfoldable pub collect :
    List Node
    → List SpeedResult
    → Assoc String
    → Assoc SpeedResult
    → Assoc String × Assoc SpeedResult
collect [] results urls by_id = (urls, by_id)
collect (n ∷ rest) [] urls by_id = collect rest [] (insert n.id n.raw_url urls) by_id
collect (n ∷ rest) (r ∷ results) urls by_id =
    collect rest results (insert n.id n.raw_url urls)
      (if r.node_id == n.id then insert n.id r by_id else by_id)

-- A result for a node, if there is one: into the store, and into the fresh ones.
unfoldable pub take_result :
    String
    → Option SpeedResult
    → Assoc SpeedResult × Assoc SpeedResult
    → Assoc SpeedResult × Assoc SpeedResult
take_result id none (kept, fresh) = (kept, fresh)
take_result id (some r) (kept, fresh) = (insert id r kept, insert id r fresh)

-- One node of the store, by its link in the snapshot: a node that is not in the snapshot keeps its
-- result, one with another link loses it.
unfoldable pub merge_node :
    Option String
    → Node
    → Option SpeedResult
    → Assoc SpeedResult × Assoc SpeedResult
    → Assoc SpeedResult × Assoc SpeedResult
unfolding take_result
merge_node none n result (kept, fresh) = (kept, fresh)
merge_node (some raw) n result (kept, fresh) =
    if not (raw == n.raw_url)
    then (delete n.id kept, fresh)
    else take_result n.id result (kept, fresh)

unfoldable pub merge_nodes :
    Assoc String
    → Assoc SpeedResult
    → List Node
    → Assoc SpeedResult × Assoc SpeedResult
    → Assoc SpeedResult × Assoc SpeedResult
unfolding merge_node
merge_nodes urls by_id [] both = both
merge_nodes urls by_id (n ∷ rest) both =
    merge_nodes urls by_id rest (merge_node (lookup n.id urls) n (lookup n.id by_id) both)

-- `mergeSpeedResults`: the store, and the results that were taken.
unfoldable pub merge_speed_results :
    Store → List Node → List SpeedResult → Store × Assoc SpeedResult
unfolding collect merge_nodes
merge_speed_results st snapshot results =
    let maps = collect snapshot results [] [] in
    let both = merge_nodes maps.0 maps.1 st.nodes (st.speed_results, []) in
    (record st { speed_results = keep_if (λ e. contains (node_ids st.nodes) e.0) both.0 }, both.1)

-- Go's `<` on int64 and on strings.
abbrev int_ltb : ℤ → ℤ → Bool
int_ltb (pos a) (pos b) = ltb a b
int_ltb (pos a) (negsuc b) = false
int_ltb (negsuc a) (pos b) = true
int_ltb (negsuc a) (negsuc b) = ltb b a

abbrev text_ltb : String → String → Bool
text_ltb a b = elim (compare a b) [ Ordering.lt ↦ true | _ ↦ false ]

-- A success that is faster than the fastest so far, or as fast with an ID in front of it.
unfoldable pub is_faster : String → SpeedResult → String × ℤ → Bool
is_faster id r (fastest, latency) =
    r.success
    && (fastest == ""
        || int_ltb r.latency_ms latency
        || int_eqb r.latency_ms latency && text_ltb id fastest)

unfoldable pub fastest_from : Assoc SpeedResult → String × ℤ → String × ℤ
unfolding is_faster
fastest_from [] best = best
fastest_from ((id, r) ∷ rest) best =
    fastest_from rest (if is_faster id r best then (id, r.latency_ms) else best)

-- `fastestNodeID`
unfoldable pub fastest_node_id : Assoc SpeedResult → String
unfolding fastest_from
fastest_node_id results = (fastest_from results ("", pos 0)).0
