-- ===== src/Subscriptions/Reconcile/Apply.antt =====
-- The last part of `reconcileSubscriptions` (internal/manager/subscription.go): the selections follow
-- the nodes, and the whole function.
use proxyscene.Common.{
  Assoc, List, Option, Result, String, [], contains, delete, eqb, if◌then◌else◌, insert, length,
  lookup, ltb, none, not, ok, reject_if, some, too_many_nodes, ℕ, ◌&&◌, ◌+◌, ◌==◌, ◌>>=◌, ◌>>◌, ◌∷◌,
}
use proxyscene.Links.{LinkParser, PreparedNode}
use proxyscene.Platform.{Platform}
use proxyscene.Store.{Node, SpeedResult, Store, find_node, first_node_id, is_found}
use proxyscene.Store.Validate.{Checker, max_total_nodes, subscription_id}
use proxyscene.Subscriptions.Reconcile.{
  Changes, PreparedSubscription, Scan, read_text, scan_all, subscription_node_identity,
}
use proxyscene.Subscriptions.Reconcile.Plan.{
  Build, add_keys, build_nodes, keyed, pick_keepers, prefer_exact, selected_ids,
}

module _ (p : Platform) (l : LinkParser) where
  -- `current[subscriptionNodeIdentity(sub.Nodes[0].RawURL)]`
  unfoldable pub first_current : Assoc String → List PreparedNode → String
  unfolding read_text
  first_current current [] = ""
  first_current current (n ∷ rest) = read_text (subscription_node_identity p l n.raw_url) current

  unfoldable pub first_by_source :
      Assoc String → List PreparedSubscription → Assoc String → Assoc String
  unfolding first_current
  first_by_source current [] firsts = firsts
  first_by_source current (sub ∷ rest) firsts =
      first_by_source current rest
        (insert (subscription_id p sub.url) (first_current current sub.found) firsts)

  -- The first node of the first source that the withdrawn node had.
  unfoldable pub from_sources : Assoc String → List String → Node → String
  unfolding read_text
  from_sources firsts [] old = ""
  from_sources firsts (source ∷ rest) old =
      let id = subscription_id p source in
      let others = from_sources firsts rest old in
      if contains old.subscription_ids id && not (read_text id firsts == "")
      then read_text id firsts
      else others

  unfoldable pub first_key : Assoc String → List String → String
  unfolding read_text
  first_key current [] = ""
  first_key current (key ∷ rest) = read_text key current

  -- The node in place of a withdrawn one.
  unfoldable pub replacement_of : Scan → Assoc String → Assoc String → Node → String
  unfolding from_sources first_key read_text
  replacement_of s current firsts old =
      let same = read_text (subscription_node_identity p l old.raw_url) current in
      let near = from_sources firsts s.all_sources old in
      if not (same == "")
      then same
      else if not (near == "")
      then near
      else first_key current s.key_order

  unfoldable pub add_replacement :
      Scan → Assoc String → Assoc String → String → Option Node → Assoc String → Assoc String
  unfolding replacement_of
  add_replacement s current firsts id none replacements = replacements
  add_replacement s current firsts id (some old) replacements =
      insert id (replacement_of s current firsts old) replacements

  unfoldable pub replacements_of :
      Scan → Assoc String → Assoc String → List Node → List String → Assoc String → Assoc String
  unfolding add_replacement
  replacements_of s current firsts nodes [] replacements = replacements
  replacements_of s current firsts nodes (id ∷ rest) replacements =
      replacements_of s current firsts nodes rest
        (add_replacement s current firsts id (find_node nodes id) replacements)

-- The default behind the change.
unfoldable pub next_default : Store → List Node → Assoc String → String
unfolding first_node_id find_node
next_default st nodes replacements =
    let old =
      if is_found (find_node st.nodes st.default_node_id)
      then st.default_node_id
      else first_node_id st.nodes in
    elim (lookup old replacements) [
      | some replacement ↦ replacement
      | none ↦
          if eqb (length st.nodes) 0 && not (eqb (length nodes) 0)
          then first_node_id nodes
          else st.default_node_id
    ]

unfoldable pub next_scenes : Assoc String → Assoc String → Assoc String
next_scenes replacements [] = []
next_scenes replacements ((scene, id) ∷ rest) =
    (scene, elim (lookup id replacements) [ none ↦ id | some replacement ↦ replacement ])
    ∷ next_scenes replacements rest

unfoldable pub without_results : List String → Assoc SpeedResult → Assoc SpeedResult
without_results [] results = results
without_results (id ∷ rest) results = without_results rest (delete id results)

unfoldable pub count_selected : List String → List String → ℕ
count_selected selected [] = 0
count_selected selected (id ∷ rest) =
    let more = count_selected selected rest in if contains selected id then more + 1 else more

-- The counters of the result.
unfoldable pub changes_of : Scan → List String → Build → Changes
unfolding count_selected
changes_of s selected b = record {
  added = b.added_count;
  existing = b.existing_count;
  removed_count = length b.dropped;
  bad_entries = s.bad_count;
  unmanaged = b.unmanaged_count;
  reselected = count_selected selected b.dropped;
}

-- `reconcileSubscriptions`
unfoldable pub reconcile_subscriptions :
    Checker → ℕ → (ℕ → String) → ℕ → Store → List PreparedSubscription → Result (Store × Changes)
unfolding scan_all selected_ids keyed pick_keepers prefer_exact build_nodes add_keys first_by_source
    replacements_of next_default next_scenes without_results changes_of
reconcile_subscriptions k now new_id seq st prepared = do
  s ← scan_all k.platform k.parser st prepared (record {
    all_sources = st.subscriptions;
    refreshing = [];
    desired = [];
    by_key = [];
    key_order = [];
    bad_count = 0;
  })
  let selected = selected_ids st
  let items = keyed k.platform k.parser 0 st.nodes
  let keepers = prefer_exact s items (pick_keepers st.nodes selected items [])
  let kept = build_nodes k.parser now s keepers items (record {
    built = [];
    taken_ids = [];
    current = [];
    dropped = [];
    existing_count = 0;
    unmanaged_count = 0;
    added_count = 0;
  })
  b ← add_keys now new_id s keepers seq s.key_order kept
  reject_if (ltb max_total_nodes (length b.built)) too_many_nodes
  let firsts = first_by_source k.platform k.parser b.current prepared []
  let replacements = replacements_of k.platform k.parser s b.current firsts st.nodes b.dropped []
  ok (
    record st {
      nodes = b.built;
      subscriptions = s.all_sources;
      default_node_id = next_default st b.built replacements;
      scene_nodes = next_scenes replacements st.scene_nodes;
      speed_results = without_results b.dropped st.speed_results;
    },
    changes_of s selected b,
  )
