-- ===== src/Subscriptions/Adopt.antt =====
-- Adoption keeps a store valid (internal/manager/subscription_adopt.go).
use proxyscene.Common.{
  >>-eq-ok, >>=-eq-ok, All, All-append, All-of-contains, Bool, Bool-cases, IsNodup,
  IsNodup-append_one, IsNodup-sort_texts, List, String, [], ap, arith, bad_selection, contains,
  contains-of-All, contains-sort_texts, eq_iff, false, inl, inr, le_trans, length, map, ok,
  ok-injective, refl, reject_if, sort_texts, subset_length, subst, sym, true, ◌++◌, ◌==◌, ◌||◌, ◌∙◌,
  ◌∷◌, ◌≡◌, ◌≤◌,
}
use proxyscene.Links.{LinkParser}
use proxyscene.Nodes.{change_node}
use proxyscene.Nodes.Add.{changed-IsValid, map-change_node}
use proxyscene.Store.{Node, Store}
use proxyscene.Store.Valid.{IsNode, IsValid, known_sources}
use proxyscene.Store.Validate.{Checker, max_subscriptions, node_ids, subscription_id}
use proxyscene.Subscriptions.{
  adopt_nodes, adopt_subscription_nodes_in_store, adopted, check_adopted, subscription_menu_id,
}
use proxyscene.Subscriptions.Select.{subscription_menu_id_saved}

module _ (known : List String) (source : String) (there : contains known source ≡ true) where
  -- Sources that are known and differ.
  AreSources : List String → Type 0
  AreSources ids = All (λ s. contains known s ≡ true) ids × IsNodup ids

  with_source :
      (ids : List String)
      → AreSources ids
      → contains ids source ≡ false
      → AreSources (sort_texts (ids ++ (source ∷ [])))
  unfolding AreSources
  with_source ids (held, apart) new =
      let more = All-append (λ s. contains known s ≡ true) ids (source ∷ []) held (there, tt) in
      (
        All-of-contains (λ s. contains known s ≡ true) (sort_texts (ids ++ (source ∷ [])))
            (λ s e.
              contains-of-All (λ s. contains known s ≡ true) (ids ++ (source ∷ [])) s more
                (sym (contains-sort_texts (ids ++ (source ∷ [])) s) ∙ e)),
        IsNodup-sort_texts (ids ++ (source ∷ [])) (IsNodup-append_one ids source apart new),
      )

  adopted_sources :
      (n : Node) → AreSources n.subscription_ids → AreSources (adopted source n).subscription_ids
  unfolding adopted
  adopted_sources n h = elim (Bool-cases (contains n.subscription_ids source)) [
    | inl e ↦ rw e h
    | inr e ↦ rw e (with_source n.subscription_ids h e)
  ]

  adopted-IsNode :
      (l : LinkParser)
      → length known ≤ max_subscriptions
      → (n : Node) → IsNode l known n
      → IsNode l known (adopted source n)
  unfolding AreSources adopted
  adopted-IsNode l few n h =
      let (held, apart) = adopted_sources n (h.sources, h.unique) in
      record {
        safe_id = h.safe_id;
        few = le_trans (subset_length (adopted source n).subscription_ids known apart held) few;
        sources = held;
        unique = apart;
        short = h.short;
        trimmed = h.trimmed;
        link = h.link;
        clean = h.clean;
        short_name = h.short_name;
      }

length-map : (f : String → String) (xs : List String) → length (map f xs) ≡ length xs
length-map f [] = omega arith
length-map f (x ∷ xs) = omega (arith, length-map f xs)

module _ (k : Checker) (source : String) where
  adopt_nodes-IsValid :
      (ids : List String) (st : Store)
      → contains (known_sources k.platform st) source ≡ true
      → IsValid k st
      → IsValid k (record st { nodes = adopt_nodes source ids st.nodes })
  unfolding adopt_nodes adopted
  adopt_nodes-IsValid [] st there v = v
  adopt_nodes-IsValid (id ∷ rest) st there v =
      adopt_nodes-IsValid rest (record st { nodes = change_node id (adopted source) st.nodes })
        there
        (changed-IsValid k st id (adopted source) (λ n. refl) (λ n. refl)
          (adopted-IsNode (known_sources k.platform st) source there k.parser (
            subst (λ n. n ≤ max_subscriptions)
              (sym (length-map (subscription_id k.platform) st.subscriptions)) v.few_subscriptions))
          v)

  adopt_nodes_ids :
      (ids : List String) (nodes : List Node)
      → node_ids (adopt_nodes source ids nodes) ≡ node_ids nodes
  unfolding adopt_nodes adopted
  adopt_nodes_ids [] nodes = refl
  adopt_nodes_ids (id ∷ rest) nodes =
      adopt_nodes_ids rest (change_node id (adopted source) nodes)
      ∙ map-change_node (λ n. n.id) id (adopted source) nodes (λ n. refl)

contains-map :
    (f : String → String) (xs : List String) (x : String)
    → contains xs x ≡ true
    → contains (map f xs) (f x) ≡ true
unfolding contains
contains-map f [] x h = cc
contains-map f (y ∷ xs) x h = elim (Bool-cases (y == x)) [
  | inl e ↦ ground (arith, (eq_iff (f y) (f x)).1 (ap f ((eq_iff y x).0 e)))
  | inr e ↦ later (f y == f x) (contains-map f xs x (rw e at h))
]
  where
    later : (b : Bool) {c : Bool} → c ≡ true → (b || c) ≡ true
    later b h = ground arith

-- Nodes of a valid store that are adopted by a subscription leave a valid store, in which the nodes
-- have the IDs that they had. The sources of a node keep to their bound, since they differ and are
-- those of saved subscriptions.
pub adopt-IsValid :
    (k : Checker) (st : Store) (selector : String) (ids : List String) {st' : Store}
    → IsValid k st
    → adopt_subscription_nodes_in_store k.platform st selector ids ≡ ok st'
    → IsValid k st' × (node_ids st'.nodes ≡ node_ids st.nodes)
unfolding adopt_subscription_nodes_in_store
adopt-IsValid k st selector ids v h =
    let (source, selected, h) = >>=-eq-ok (subscription_menu_id k.platform st selector) _ h in
    let (_, h) = >>-eq-ok (reject_if _ bad_selection) _ h in
    let (_, h) = >>-eq-ok (check_adopted st.nodes [] ids) _ h in
    let (raw, same, there) = subscription_menu_id_saved k.platform st selector selected in
    let known =
      subst (λ s. contains (known_sources k.platform st) s ≡ true) (sym same)
        (contains-map (subscription_id k.platform) st.subscriptions raw there) in
    subst (λ s. IsValid k s × (node_ids s.nodes ≡ node_ids st.nodes)) (ok-injective h)
      (adopt_nodes-IsValid k source ids st known v, adopt_nodes_ids k source ids st.nodes)
