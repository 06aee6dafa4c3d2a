-- ===== src/Subscriptions/Adopted.antt =====
-- What adoption does to the nodes (internal/manager/subscription_adopt.go).
use proxyscene.Common.{
  >>-eq-ok, >>=-eq-ok, Bool, Bool-cases, List, Option, String, [], ap, arith, bad_selection,
  contains, contains-append, contains-sort_texts, eq_iff, eq_refl, false, if◌then◌else◌, inl, inr,
  none, ok, ok-injective, refl, reject_if, some, subst, sym, true, ◌++◌, ◌==◌, ◌||◌, ◌∙◌, ◌∷◌, ◌≡◌,
}
use proxyscene.Nodes.{change_node}
use proxyscene.Platform.{Platform}
use proxyscene.Store.{Node, Store, find_node}
use proxyscene.Store.Validate.{subscription_id}
use proxyscene.Subscriptions.{
  adopt_nodes, adopt_subscription_nodes_in_store, adopted, check_adopted, subscription_menu_id,
}
use proxyscene.Subscriptions.Select.{subscription_menu_id_saved}

some-injective : {m n : Node} → some m ≡ some n → m ≡ n
some-injective {m} h = ap (node_of m) h
  where
    node_of : Node → Option Node → Node
    node_of m none = m
    node_of m (some n) = n

changed : (Node → Node) → Option Node → Option Node
changed f none = none
changed f (some n) = some (f n)

find-change_same :
    (id : String) (f : Node → Node) (nodes : List Node)
    → ((n : Node) → (f n).id ≡ n.id)
    → find_node (change_node id f nodes) id ≡ changed f (find_node nodes id)
unfolding find_node change_node changed
find-change_same id f [] same = refl
find-change_same id f (n ∷ rest) same = elim (Bool-cases (n.id == id)) [
  | inl e ↦ rw (e, same n, e)
  | inr e ↦ rw (e, e) (find-change_same id f rest same)
]

find-change_other :
    (id : String) (f : Node → Node) (nodes : List Node) (y : String)
    → ((n : Node) → (f n).id ≡ n.id)
    → (id == y) ≡ false
    → find_node (change_node id f nodes) y ≡ find_node nodes y
unfolding find_node change_node
find-change_other id f [] y same apart = refl
find-change_other id f (n ∷ rest) y same apart = elim (Bool-cases (n.id == id)) [
  | inl e ↦
      let a = subst (λ z. (z == y) ≡ false) (sym ((eq_iff n.id id).0 e)) apart in
      let b = subst (λ z. (z == y) ≡ false) (sym (same n)) a in rw (e, a, b) refl
  | inr e ↦
      rw e (ap (λ o. if n.id == y then some n else o) (find-change_other id f rest y same apart))
]

-- A node that the source manages.
abbrev pub IsManagedBy : String → Node → Type 0
IsManagedBy source n = (n.subscription_managed ≡ true) × (contains n.subscription_ids source ≡ true)

adopted-IsManagedBy : (source : String) (n : Node) → IsManagedBy source (adopted source n)
unfolding adopted contains
adopted-IsManagedBy source n = (
  refl,
  elim (Bool-cases (contains n.subscription_ids source)) [
    | inl e ↦ rw (e, e)
    | inr e ↦ rw e (
        contains-sort_texts (n.subscription_ids ++ (source ∷ [])) source
        ∙ contains-append n.subscription_ids (source ∷ []) source
        ∙ ground (arith, eq_refl source))
  ],
)

module _ (source : String) where
  adopted-id : (n : Node) → (adopted source n).id ≡ n.id
  unfolding adopted
  adopted-id n = refl

  of_changed :
      (o : Option Node) (n : Node) → changed (adopted source) o ≡ some n → IsManagedBy source n
  unfolding changed
  of_changed none n h = cc
  of_changed (some m) n h =
      subst (IsManagedBy source) (some-injective h) (adopted-IsManagedBy source m)

  managed_now :
      (nodes : List Node) (id y : String)
      → (id == y) ≡ true
      → (n : Node) → find_node (change_node id (adopted source) nodes) y ≡ some n
      → IsManagedBy source n
  managed_now nodes id y e n h = of_changed (find_node nodes id) n (
      sym (find-change_same id (adopted source) nodes adopted-id)
      ∙ subst (λ z. find_node (change_node id (adopted source) nodes) z ≡ some n)
          (sym ((eq_iff id y).0 e)) h)

  managed_stays :
      (ids : List String) (nodes : List Node) (y : String)
      → ((n : Node) → find_node nodes y ≡ some n → IsManagedBy source n)
      → (n : Node) → find_node (adopt_nodes source ids nodes) y ≡ some n
      → IsManagedBy source n
  unfolding adopt_nodes
  managed_stays [] nodes y held = held
  managed_stays (id ∷ rest) nodes y held =
      managed_stays rest (change_node id (adopted source) nodes) y (elim (Bool-cases (id == y)) [
        | inl e ↦ managed_now nodes id y e
        | inr e ↦
            λ n h. held n (sym (find-change_other id (adopted source) nodes y adopted-id e) ∙ h)
      ])

  managed_all :
      (ids : List String) (nodes : List Node) (y : String)
      → contains ids y ≡ true
      → (n : Node) → find_node (adopt_nodes source ids nodes) y ≡ some n
      → IsManagedBy source n
  unfolding adopt_nodes contains
  managed_all [] nodes y h = cc
  managed_all (id ∷ rest) nodes y h = elim (Bool-cases (id == y)) [
    | inl e ↦
        managed_stays rest (change_node id (adopted source) nodes) y (managed_now nodes id y e)
    | inr e ↦ managed_all rest (change_node id (adopted source) nodes) y (rw e at h)
  ]

  others_stay :
      (ids : List String) (nodes : List Node) (y : String)
      → contains ids y ≡ false
      → find_node (adopt_nodes source ids nodes) y ≡ find_node nodes y
  unfolding adopt_nodes contains
  others_stay [] nodes y h = refl
  others_stay (id ∷ rest) nodes y h =
      let (apart, h) = both (id == y) _ h in
      others_stay rest (change_node id (adopted source) nodes) y h
      ∙ find-change_other id (adopted source) nodes y adopted-id apart
    where
      both : (a b : Bool) → (a || b) ≡ false → (a ≡ false) × (b ≡ false)
      both a b h = ground arith

-- An adoption that succeeds gives each of the chosen nodes to the subscription, which is a saved one,
-- and leaves every other node as it was.
pub adopt_effect :
    (p : Platform) (st : Store) (selector : String) (ids : List String) {st' : Store}
    → adopt_subscription_nodes_in_store p st selector ids ≡ ok st'
    → (raw : String) × (contains st.subscriptions raw ≡ true)
      × ((y : String)
          → contains ids y ≡ true
          → (n : Node) → find_node st'.nodes y ≡ some n
          → IsManagedBy (subscription_id p raw) n)
      × ((y : String) → contains ids y ≡ false → find_node st'.nodes y ≡ find_node st.nodes y)
unfolding adopt_subscription_nodes_in_store
adopt_effect p st selector ids h =
    let (source, selected, h) = >>=-eq-ok (subscription_menu_id p st selector) _ h in
    let (_, h) = >>-eq-ok (reject_if _ bad_selection) _ h in
    let (_, h) = >>-eq-ok (check_adopted st.nodes [] ids) _ h in
    let (raw, same, there) = subscription_menu_id_saved p st selector selected in
    (
      raw,
      there,
      λ y chosen.
          subst
            (λ (s : Store).
              (n : Node) → find_node s.nodes y ≡ some n → IsManagedBy (subscription_id p raw) n)
            (ok-injective h)
            (subst
              (λ z.
                (n : Node)
                → find_node (adopt_nodes source ids st.nodes) y ≡ some n
                → IsManagedBy z n)
              same (managed_all source ids st.nodes y chosen)),
      λ y apart.
          subst (λ (s : Store). find_node s.nodes y ≡ find_node st.nodes y) (ok-injective h)
            (others_stay source ids st.nodes y apart),
    )
