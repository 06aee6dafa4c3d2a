-- ===== src/Nodes/References.antt =====
-- Nodes and what names them by their IDs: lists of nodes with some dropped, and maps with entries
-- written or deleted.
use proxyscene.Common.{
  All, Assoc, Bool, Bool-cases, IsNodup, List, String, [], arith, contains, delete, eq_iff, false,
  inl, inr, insert, keep_if, keep_if-false, keep_if-true, map, not, others, refl, true, ◌&&◌, ◌==◌,
  ◌||◌, ◌∷◌, ◌≡◌,
}
use proxyscene.Store.{Node, find_node, is_found}
use proxyscene.Store.Validate.{node_ids}

module _ {ℓ κ} {V : Type ℓ} (P : String × V → Type κ) where
  pub All-insert : (k : String) (v : V) (m : Assoc V) → P (k, v) → All P m → All P (insert k v m)
  unfolding insert
  All-insert k v [] p h = (p, tt)
  All-insert k v ((j, w) ∷ m) p h = elim (Bool-cases (j == k)) [
    | inl e ↦ rw e (p, h.1)
    | inr e ↦ rw e (h.0, All-insert k v m p h.1)
  ]

  pub All-delete :
      (Q : String × V → Type κ) (k : String) (m : Assoc V)
      → ((j : String) (w : V) → (j == k) ≡ false → P (j, w) → Q (j, w))
      → All P m
      → All Q (delete k m)
  unfolding delete
  All-delete Q k [] f h = tt
  All-delete Q k ((j, w) ∷ m) f h = elim (Bool-cases (j == k)) [
    | inl e ↦ rw e (All-delete Q k m f h.1)
    | inr e ↦ rw e (f j w e h.0, All-delete Q k m f h.1)
  ]

pub All-keep_if {ℓ κ} :
    {A : Type ℓ} (P Q : A → Type κ) (t : A → Bool) (xs : List A)
    → ((x : A) → t x ≡ true → P x → Q x)
    → All P xs
    → All Q (keep_if t xs)
All-keep_if P Q t [] f h = tt
All-keep_if P Q t (x ∷ xs) f h = elim (Bool-cases (t x)) [
  | inl e ↦ rw (keep_if-true t x xs e) (f x e h.0, All-keep_if P Q t xs f h.1)
  | inr e ↦ rw (keep_if-false t x xs e) (All-keep_if P Q t xs f h.1)
]

pub is_found-find_node :
    (nodes : List Node) (id : String) → is_found (find_node nodes id) ≡ contains (node_ids nodes) id
unfolding find_node contains
is_found-find_node [] id = refl
is_found-find_node (n ∷ rest) id = ground (arith, is_found-find_node rest id)

module _ (f : Node → String) (t : Node → Bool) where
  kept_absent :
      (nodes : List Node) (y : String)
      → contains (map f nodes) y ≡ false
      → contains (map f (keep_if t nodes)) y ≡ false
  unfolding contains
  kept_absent [] y h = h
  kept_absent (n ∷ rest) y h = elim (Bool-cases (t n)) [
    | inl e ↦ rw (keep_if-true t n rest e) (ground (arith, h, kept_absent rest y))
    | inr e ↦ rw (keep_if-false t n rest e) (kept_absent rest y (ground (arith, h)))
  ]

  -- Dropping nodes makes no field stand twice.
  pub IsNodup-keep_if :
      (nodes : List Node) → IsNodup (map f nodes) → IsNodup (map f (keep_if t nodes))
  IsNodup-keep_if [] h = tt
  IsNodup-keep_if (n ∷ rest) h = elim (Bool-cases (t n)) [
    | inl e ↦ rw (keep_if-true t n rest e) (kept_absent rest (f n) h.0, IsNodup-keep_if rest h.1)
    | inr e ↦ rw (keep_if-false t n rest e) (IsNodup-keep_if rest h.1)
  ]

-- The other IDs are still there when the nodes of one are dropped.
module _ (id : String) (n : Node) (rest : List Node) (y : String) where
  dropped :
      (others : Bool)
      → (n.id == id) ≡ true
      → others ≡ (contains (node_ids rest) y && not (y == id))
      → others ≡ (contains (node_ids (n ∷ rest)) y && not (y == id))
  unfolding contains
  dropped others e h = ground (arith, e, h, eq_iff n.id id, eq_iff n.id y, eq_iff y id)

  stays :
      (others : Bool)
      → (n.id == id) ≡ false
      → others ≡ (contains (node_ids rest) y && not (y == id))
      → (n.id == y || others) ≡ (contains (node_ids (n ∷ rest)) y && not (y == id))
  unfolding contains
  stays others e h = ground (arith, e, h, eq_iff n.id id, eq_iff n.id y, eq_iff y id)

pub contains-kept :
    (id : String) (nodes : List Node) (y : String)
    → contains (node_ids (keep_if (λ n. not (n.id == id)) nodes)) y
      ≡ (contains (node_ids nodes) y && not (y == id))
unfolding contains
contains-kept id [] y = refl
contains-kept id (n ∷ rest) y =
    let kept = λ (m : Node). not (m.id == id) in
    elim (Bool-cases (n.id == id)) [
      | inl e ↦
          rw (keep_if-false kept n rest (ground (arith, e)))
            (dropped id n rest y _ e (contains-kept id rest y))
      | inr e ↦
          rw (keep_if-true kept n rest (ground (arith, e)))
            (stays id n rest y _ e (contains-kept id rest y))
    ]
