-- ===== src/Nodes/Draw.antt =====
-- The loop of internal/manager/node.go that draws an ID until no node has it: as many draws as there
-- are nodes, and one more, are enough when the draws differ.
use proxyscene.Common.{
  Bool, Bool-cases, List, Option, String, [], ap, arith, contains, eqb, eqb_iff, false, inl, inr,
  length, none, others, others-absent, others-length, refl, some, suc, true, zero, ℕ, ◌+◌, ◌<◌,
  ◌==◌, ◌∙◌, ◌∷◌, ◌≡◌, ◌≤◌,
}
use proxyscene.Nodes.{free_id}
use proxyscene.Nodes.References.{is_found-find_node}
use proxyscene.Store.{Node, find_node, is_found}
use proxyscene.Store.Validate.{node_ids}

-- Among more draws than there are texts, one is new.
new_draw :
    (new_id : ℕ → String) (differ : (i j : ℕ) → i < j → (new_id j == new_id i) ≡ false)
    (ids : List String) (seq fuel : ℕ)
    → length ids < fuel
    → (i : ℕ) × (seq ≤ i) × (i < seq + fuel) × (contains ids (new_id i) ≡ false)
new_draw new_id differ ids seq zero l = elim (none_below (length ids) l) [ ]
  where
    none_below : (n : ℕ) → n < 0 → ⊥
    none_below n l = omega arith
new_draw new_id differ ids seq (suc fuel) l = elim (Bool-cases (contains ids (new_id seq))) [
  | inr e ↦ (seq, omega arith, omega arith, e)
  | inl e ↦
      let (i, after, before, new) =
        new_draw new_id differ (others ids (new_id seq)) (seq + 1) fuel
          (omega (arith, l, others-length ids (new_id seq) e)) in
      (
        i,
        omega (arith, after),
        omega (arith, before),
        others-absent ids (new_id seq) (new_id i) (differ seq i (omega (arith, after))) new,
      )
]

empty_range : (seq i : ℕ) → seq ≤ i → i < seq + 0 → ⊥
empty_range seq i a b = omega arith

past : (f : ℕ → Bool) (n i : ℕ) → n ≤ i → f n ≡ true → f i ≡ false → n + 1 ≤ i
past f n i l yes_n no_i = elim (Bool-cases (eqb n i)) [
  | inl e ↦ cc (ap f ((eqb_iff n i).0 e), yes_n, no_i)
  | inr e ↦ ground (arith, e, l)
]

pub not_found : {A : Type 0} (o : Option A) → is_found o ≡ false → o ≡ none
not_found none h = refl
not_found (some a) h = cc

pub ids-length : (nodes : List Node) → length (node_ids nodes) ≡ length nodes
ids-length [] = omega arith
ids-length (n ∷ rest) = omega (arith, ids-length rest)

-- The loop ends within its draws as soon as one of them is new, and what it returns is new.
free_id-found :
    (new_id : ℕ → String) (nodes : List Node) (seq fuel i : ℕ)
    → seq ≤ i
    → i < seq + fuel
    → is_found (find_node nodes (new_id i)) ≡ false
    → (j : ℕ) × (free_id new_id nodes seq fuel ≡ some (new_id j))
      × (is_found (find_node nodes (new_id j)) ≡ false)
unfolding free_id
free_id-found new_id nodes seq zero i a b new = elim (empty_range seq i a b) [ ]
free_id-found new_id nodes seq (suc fuel) i a b new =
    elim (Bool-cases (is_found (find_node nodes (new_id seq)))) [
      | inr e ↦ (seq, rw e refl, e)
      | inl e ↦
          let (j, found, free) =
            free_id-found new_id nodes (seq + 1) fuel i
              (past (λ n. is_found (find_node nodes (new_id n))) seq i a e new) (omega (arith, b))
              new in
          (j, rw e found, free)
    ]

-- When the values of the counter give different IDs, the loop that draws an ID ends after at most one
-- draw more than there are nodes, with an ID that no node has.
pub free_id_enough :
    (new_id : ℕ → String) (differ : (i j : ℕ) → i < j → (new_id j == new_id i) ≡ false)
    (nodes : List Node) (seq : ℕ)
    → (j : ℕ) × (free_id new_id nodes seq (length nodes + 1) ≡ some (new_id j))
      × (find_node nodes (new_id j) ≡ none)
free_id_enough new_id differ nodes seq =
    let (i, after, before, new) =
      new_draw new_id differ (node_ids nodes) seq (length nodes + 1)
        (omega (arith, ids-length nodes)) in
    let (j, found, free) =
      free_id-found new_id nodes seq (length nodes + 1) i after before
        (is_found-find_node nodes (new_id i) ∙ new) in
    (j, found, not_found _ free)
