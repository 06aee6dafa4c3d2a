-- ===== src/Subscriptions/Reconcile/Plan.antt =====
-- The second part of `reconcileSubscriptions` (internal/manager/subscription.go): which copies of a
-- node stay, the nodes that result, and the selections that follow them.
use proxyscene.Common.{
  Assoc, Bool, List, Option, Result, String, [], any_of, contains, eqb, err, false, get_elem?,
  if◌then◌else◌, insert, keep_if, length, lookup, ltb, map, no_fresh_id, none, not, ok, some,
  sort_texts, suc, true, zero, ℕ, ◌&&◌, ◌++◌, ◌+◌, ◌==◌, ◌>>=◌, ◌||◌, ◌∷◌,
}
use proxyscene.Config.{scene_dev, scene_global, scene_telegram}
use proxyscene.Links.{LinkParser, PreparedNode, prepare_node}
use proxyscene.Platform.{Platform}
use proxyscene.Store.{Node, Store, selected_node_id}
use proxyscene.Subscriptions.Reconcile.{
  Scan, has_key, read_text, read_texts, subscription_node_identity, subscription_node_name,
  subscription_node_priority,
}

-- A node of the store with its index and its key.
pub record Keyed : Type 0 where
  pub index : ℕ
  pub key : String
  pub item : Node

module _ (p : Platform) (l : LinkParser) where
  unfoldable pub keyed : ℕ → List Node → List Keyed
  keyed i [] = []
  keyed i (n ∷ rest) =
      record { index = i; key = subscription_node_identity p l n.raw_url; item = n }
      ∷ keyed (i + 1) rest

-- The IDs that the store selects.
unfoldable pub selected_ids : Store → List String
unfolding selected_node_id
selected_ids st =
    st.default_node_id
    ∷ (map (λ e. e.1) st.scene_nodes
        ++ (selected_node_id st scene_global
            ∷ selected_node_id st scene_dev
            ∷ selected_node_id st scene_telegram
            ∷ []))

-- The priority of the keeper so far, which stands in the store.
unfoldable pub keeper_priority : List Node → List String → Option ℕ → Option ℕ
unfolding subscription_node_priority
keeper_priority nodes selected none = none
keeper_priority nodes selected (some i) = elim (get_elem? nodes i) [
  | none ↦ none
  | some n ↦ some (subscription_node_priority n selected)
]

unfoldable pub is_better : ℕ → Option ℕ → Bool
is_better mine none = true
is_better mine (some other) = ltb other mine

-- The first loop over the nodes: the keeper of each key.
unfoldable pub pick_keepers : List Node → List String → List Keyed → Assoc ℕ → Assoc ℕ
unfolding keeper_priority is_better
pick_keepers nodes selected [] keepers = keepers
pick_keepers nodes selected (x ∷ rest) keepers =
    let mine = subscription_node_priority x.item selected in
    pick_keepers nodes selected rest (
      if is_better mine (keeper_priority nodes selected (lookup x.key keepers))
      then insert x.key x.index keepers
      else keepers)

-- A copy that has to stay, with the incoming link.
unfoldable pub must_keep : Scan → Node → Option PreparedNode → Bool
must_keep s n none = false
must_keep s n (some fresh) =
    n.raw_url == fresh.raw_url
    && (not n.subscription_managed
        || any_of (λ source. not (contains s.refreshing source)) n.subscription_ids)

-- The second loop over the nodes.
unfoldable pub prefer_exact : Scan → List Keyed → Assoc ℕ → Assoc ℕ
unfolding must_keep
prefer_exact s [] keepers = keepers
prefer_exact s (x ∷ rest) keepers =
    prefer_exact s rest (
      if must_keep s x.item (lookup x.key s.desired) then insert x.key x.index keepers else keepers)

-- `keepers[key] == i`; a missing key reads as 0.
unfoldable pub is_keeper : Assoc ℕ → Keyed → Bool
is_keeper keepers x = elim (lookup x.key keepers) [ none ↦ eqb 0 x.index | some i ↦ eqb i x.index ]

-- What the third loop over the nodes builds.
pub record Build : Type 0 where
  pub built : List Node
  pub taken_ids : List String
  pub current : Assoc String
  pub dropped : List String
  pub existing_count : ℕ
  pub unmanaged_count : ℕ
  pub added_count : ℕ

unfoldable pub memberships : Scan → Bool → String → Node → List String
unfolding read_texts
memberships s keeper key n =
    let left = keep_if (λ source. not (contains s.refreshing source)) n.subscription_ids in
    sort_texts (if keeper then left ++ read_texts key s.by_key else left)

module _ (l : LinkParser) (now : ℕ) where
  -- The name of a node that takes another link: a name of its own stays.
  unfoldable pub renewed_name : Node → PreparedNode → Result PreparedNode → String
  unfolding subscription_node_name
  renewed_name n fresh (err e) = n.name
  renewed_name n fresh (ok old) =
      if n.name == subscription_node_name old then subscription_node_name fresh else n.name

  unfoldable pub renewed : Node → PreparedNode → Node
  unfolding renewed_name prepare_node
  renewed n fresh =
      if n.subscription_managed && not (n.raw_url == fresh.raw_url)
      then record n {
        name = renewed_name n fresh (prepare_node l n.raw_url);
        raw_url = fresh.raw_url;
        updated_at = now;
      }
      else n

  -- A node that stays.
  unfoldable pub keep_node : Bool → String → Node → Option PreparedNode → Build → Build
  unfolding renewed read_text
  keep_node keeper key n fresh b =
      let counted = record b {
        unmanaged_count =
            if not n.subscription_managed then b.unmanaged_count + 1 else b.unmanaged_count;
        current =
            if read_text key b.current == "" || keeper
            then insert key n.id b.current
            else b.current;
      } in
      elim fresh [
        | none ↦ record counted { built = b.built ++ (n ∷ []) }
        | some f ↦
            if keeper
            then record counted {
              built = b.built ++ (renewed n f ∷ []);
              existing_count = b.existing_count + 1;
            }
            else record counted { built = b.built ++ (n ∷ []) }
      ]

  unfoldable pub build_node : Scan → Assoc ℕ → Keyed → Build → Build
  unfolding memberships keep_node is_keeper
  build_node s keepers x b =
      let keeper = is_keeper keepers x in
      let sources = memberships s keeper x.key x.item in
      let n = record x.item { subscription_ids = sources } in
      let taken = record b { taken_ids = x.item.id ∷ b.taken_ids } in
      if n.subscription_managed && eqb (length sources) 0
      then record taken { dropped = b.dropped ++ (n.id ∷ []) }
      else keep_node keeper x.key n (lookup x.key s.desired) taken

  unfoldable pub build_nodes : Scan → Assoc ℕ → List Keyed → Build → Build
  unfolding build_node
  build_nodes s keepers [] b = b
  build_nodes s keepers (x ∷ rest) b = build_nodes s keepers rest (build_node s keepers x b)

-- The loop that draws an ID which is not taken, with the counter behind it.
unfoldable pub draw_id : (ℕ → String) → List String → ℕ → ℕ → Option (String × ℕ)
draw_id new_id ids seq zero = none
draw_id new_id ids seq (suc fuel) =
    let rest = draw_id new_id ids (seq + 1) fuel in
    if contains ids (new_id seq) then rest else some (new_id seq, seq + 1)

unfoldable pub drawn_or_err : Option (String × ℕ) → Result (String × ℕ)
drawn_or_err none = err no_fresh_id
drawn_or_err (some x) = ok x

module _ (now : ℕ) (new_id : ℕ → String) where
  -- A node for a key that no node of the store has.
  unfoldable pub add_desired : Scan → String → PreparedNode → String → Build → Build
  unfolding subscription_node_name read_texts
  add_desired s key prepared id b = record b {
    built =
        b.built
        ++ (record {
          id = id;
          name = subscription_node_name prepared;
          protocol = prepared.parsed.protocol;
          raw_url = prepared.raw_url;
          created_at = now;
          updated_at = now;
          subscription_ids = sort_texts (read_texts key s.by_key);
          subscription_managed = true;
        }
            ∷ []);
    taken_ids = id ∷ b.taken_ids;
    current = insert key id b.current;
    added_count = b.added_count + 1;
  }

  unfoldable pub add_keys : Scan → Assoc ℕ → ℕ → List String → Build → Result Build
  unfolding add_desired draw_id drawn_or_err has_key
  add_keys s keepers seq [] b = ok b
  add_keys s keepers seq (key ∷ rest) b = elim (lookup key s.desired) [
    | none ↦ add_keys s keepers seq rest b
    | some prepared ↦ if has_key key keepers then add_keys s keepers seq rest b else (do
      x ← drawn_or_err (draw_id new_id b.taken_ids seq (length b.taken_ids + 1))
      add_keys s keepers x.1 rest (add_desired s key prepared x.0 b))
  ]
