-- ===== src/Nodes/Speed/Merge.antt =====
-- The merge of speed results keeps a store valid (internal/manager/node.go).
use proxyscene.Common.{
  All, All-map, Assoc, Bool, Bool-cases, List, Option, String, [], ap, contains, eq_iff, false,
  if◌then◌else◌, inl, inr, insert, lookup, none, refl, some, subst, true, ◌==◌, ◌∷◌, ◌≡◌,
}
use proxyscene.Nodes.References.{All-delete, All-insert, All-keep_if}
use proxyscene.Nodes.Speed.{collect, merge_node, merge_nodes, merge_speed_results, take_result}
use proxyscene.Store.{Node, SpeedResult, Store, has_enabled_scene}
use proxyscene.Store.Valid.{IsResult, IsValid}
use proxyscene.Store.Validate.{Checker, node_ids}
use proxyscene.Subscriptions.{by_id}
use proxyscene.Text.{sanitize_display_text}

-- A result with clean texts.
abbrev pub IsClean : SpeedResult → Type 0
IsClean r =
    (sanitize_display_text r.target 512 ≡ r.target) × (sanitize_display_text r.error 4096 ≡ r.error)

-- A result under the ID of its node.
abbrev IsOwn : String × SpeedResult → Type 0
IsOwn (id, r) = (r.node_id ≡ id) × IsClean r

All-lookup :
    (P : String × SpeedResult → Type 0) (m : Assoc SpeedResult) (id : String) {r : SpeedResult}
    → All P m
    → lookup id m ≡ some r
    → P (id, r)
unfolding lookup
All-lookup P [] id all h = cc
All-lookup P ((j, s) ∷ m) id {r} all h = elim (Bool-cases (j == id)) [
  | inl e ↦
      subst (λ i. P (i, r)) ((eq_iff j id).0 e)
        (subst (λ t. P (j, t)) (result_injective s (rw e at h)) all.0)
  | inr e ↦ All-lookup P m id all.1 (rw e at h)
]
  where
    result_of : SpeedResult → Option SpeedResult → SpeedResult
    result_of s none = s
    result_of s (some t) = t

    result_injective : (s : SpeedResult) {t : SpeedResult} → some s ≡ some t → s ≡ t
    result_injective s h = ap (result_of s) h

if_All :
    (b : Bool) (m n : Assoc SpeedResult)
    → (b ≡ true → All IsOwn m)
    → All IsOwn n
    → All IsOwn (if b then m else n)
if_All true m n f g = f refl
if_All false m n f g = g

collect-IsOwn :
    (snapshot : List Node) (results : List SpeedResult) (urls : Assoc String)
    (by_id : Assoc SpeedResult)
    → All IsClean results
    → All IsOwn by_id
    → All IsOwn (collect snapshot results urls by_id).1
unfolding collect
collect-IsOwn [] results urls by_id clean own = own
collect-IsOwn (n ∷ rest) [] urls by_id clean own =
    collect-IsOwn rest [] (insert n.id n.raw_url urls) by_id tt own
collect-IsOwn (n ∷ rest) (r ∷ results) urls by_id clean own =
    collect-IsOwn rest results (insert n.id n.raw_url urls) _ clean.1 (
      if_All (r.node_id == n.id) (insert n.id r by_id) by_id
        (λ e. All-insert IsOwn n.id r by_id ((eq_iff r.node_id n.id).0 e, clean.0) own) own)

-- Results of both maps under the IDs of their nodes.
AreOwn : Assoc SpeedResult × Assoc SpeedResult → Type 0
AreOwn both = All IsOwn both.0 × All IsOwn both.1

take_result-AreOwn :
    (id : String) (o : Option SpeedResult) (both : Assoc SpeedResult × Assoc SpeedResult)
    → ((r : SpeedResult) → o ≡ some r → IsOwn (id, r))
    → AreOwn both
    → AreOwn (take_result id o both)
unfolding take_result AreOwn
take_result-AreOwn id none both f own = own
take_result-AreOwn id (some r) both f own =
    (All-insert IsOwn id r both.0 (f r refl) own.0, All-insert IsOwn id r both.1 (f r refl) own.1)

merge_node-AreOwn :
    (raw : Option String) (n : Node) (o : Option SpeedResult)
    (both : Assoc SpeedResult × Assoc SpeedResult)
    → ((r : SpeedResult) → o ≡ some r → IsOwn (n.id, r))
    → AreOwn both
    → AreOwn (merge_node raw n o both)
unfolding merge_node AreOwn
merge_node-AreOwn none n o both f own = own
merge_node-AreOwn (some raw) n o both f own = elim (Bool-cases (raw == n.raw_url)) [
  | inl e ↦ rw e (take_result-AreOwn n.id o both f own)
  | inr e ↦ rw e (All-delete IsOwn IsOwn n.id both.0 (λ j r apart h. h) own.0, own.1)
]

merge_nodes-AreOwn :
    (urls : Assoc String) (by_id : Assoc SpeedResult) (nodes : List Node)
    (both : Assoc SpeedResult × Assoc SpeedResult)
    → All IsOwn by_id
    → AreOwn both
    → AreOwn (merge_nodes urls by_id nodes both)
unfolding merge_nodes
merge_nodes-AreOwn urls by_id [] both found own = own
merge_nodes-AreOwn urls by_id (n ∷ rest) both found own =
    merge_nodes-AreOwn urls by_id rest _ found (
      merge_node-AreOwn (lookup n.id urls) n (lookup n.id by_id) both
        (λ r e. All-lookup IsOwn by_id n.id found e) own)

-- Other results for a store, each of a node that exists.
with_results :
    (k : Checker) (st : Store) (results : Assoc SpeedResult)
    → All (IsResult (node_ids st.nodes)) results
    → IsValid k st
    → IsValid k (record st { speed_results = results })
unfolding has_enabled_scene
with_results k st results held v = record {
  config = v.config;
  few_nodes = v.few_nodes;
  few_subscriptions = v.few_subscriptions;
  few_targets = v.few_targets;
  idle = v.idle;
  subscriptions = v.subscriptions;
  unique_subscriptions = v.unique_subscriptions;
  nodes = v.nodes;
  default = v.default;
  scenes = v.scenes;
  switches = v.switches;
  results = held;
  targets = v.targets;
  unique_targets = v.unique_targets;
}

-- Whatever snapshot and results of a speed test, as long as their texts are clean, their merge into a
-- valid store leaves a valid store: each result in it stands under the ID of its own node, which
-- exists. The nodes of the store are as they were.
pub merge_speed_results-IsValid :
    (k : Checker) (st : Store) (snapshot : List Node) (results : List SpeedResult)
    → IsValid k st
    → All IsClean results
    → IsValid k (merge_speed_results st snapshot results).0
      × ((merge_speed_results st snapshot results).0.nodes ≡ st.nodes)
unfolding merge_speed_results AreOwn
merge_speed_results-IsValid k st snapshot results v clean =
    let maps = collect snapshot results [] [] in
    let own = collect-IsOwn snapshot results [] [] clean tt in
    let (kept, fresh) =
      merge_nodes-AreOwn maps.0 maps.1 st.nodes (st.speed_results, []) own
        (
          All-map (IsResult (node_ids st.nodes)) IsOwn st.speed_results
              (λ (id, r) (there, same, target, error). (same, (target, error))) v.results,
          tt,
        ) in
    (
      with_results k st _
          (All-keep_if IsOwn (IsResult (node_ids st.nodes)) (λ e. contains (node_ids st.nodes) e.0)
            _ (λ (id, r) there (same, (target, error)). (there, same, target, error)) kept)
          v,
      refl,
    )
