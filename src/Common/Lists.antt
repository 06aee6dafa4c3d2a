-- ===== src/Common/Lists.antt =====
-- Lists measured by the native numbers, predicates over lists, and duplicates.
use Prim.Native.Nat.{ℕ, zero, suc, ◌+◌}
use mathlib.Core.Path.{◌≡◌}
use mathlib.Core.Bool.{Bool, true, false, ◌&&◌, ◌||◌}
use mathlib.Core.Path.{◌≡◌}
use Prim.Native.Nat.{◌≤◌}
use mathlib.Core.Option.{Option, none, some}
use mathlib.Core.List.{List, [], ◌∷◌, ◌++◌}
use native.Mathlib.Omega.{arith}

module _ {ℓ} {A : Type ℓ} where
  abbrev pub length : List A → ℕ
  length [] = 0
  length (x ∷ xs) = suc (length xs)

  abbrev pub get_elem? : List A → ℕ → Option A
  get_elem? [] i = none
  get_elem? (x ∷ xs) zero = some x
  get_elem? (x ∷ xs) (suc i) = get_elem? xs i

  -- Keeps what passes the test.
  abbrev pub keep_if : (A → Bool) → List A → List A
  keep_if p [] = []
  keep_if p (x ∷ xs) = let rest = keep_if p xs in elim (p x) [ true ↦ x ∷ rest | false ↦ rest ]

  abbrev pub any_of : (A → Bool) → List A → Bool
  any_of p [] = false
  any_of p (x ∷ xs) = p x || any_of p xs

  abbrev pub all_of : (A → Bool) → List A → Bool
  all_of p [] = true
  all_of p (x ∷ xs) = p x && all_of p xs

  pub length-append : (xs ys : List A) → length (xs ++ ys) ≡ length xs + length ys
  length-append [] ys = omega arith
  length-append (x ∷ xs) ys = omega (arith, length-append xs ys)

-- Every element has the property.
abbrev pub All {κ μ} : {A : Type κ} → (A → Type μ) → List A → Type μ
All Has (first ∷ rest) = Has first × All Has rest
All Has [] = Unit

pub All-append {κ μ} :
    {A : Type κ} (Has : A → Type μ) (front back : List A)
    → All Has front
    → All Has back
    → All Has (front ++ back)
All-append Has (first ∷ rest) back of_front of_back =
    (of_front.0, All-append Has rest back of_front.1 of_back)
All-append Has [] back of_front of_back = of_back

pub All-map {κ μ} :
    {A : Type κ} (Has Gets : A → Type μ) (items : List A)
    → ((a : A) → Has a → Gets a)
    → All Has items
    → All Gets items
All-map Has Gets (first ∷ rest) step held = (step first held.0, All-map Has Gets rest step held.1)
All-map Has Gets [] step held = tt

module _ {ℓ} {A : Type ℓ} (t : A → Bool) (x : A) (xs : List A) where
  pub keep_if-true : t x ≡ true → keep_if t (x ∷ xs) ≡ x ∷ keep_if t xs
  keep_if-true e = ground (arith, e)

  pub keep_if-false : t x ≡ false → keep_if t (x ∷ xs) ≡ keep_if t xs
  keep_if-false e = ground (arith, e)

pub length-keep_if {ℓ} :
    {A : Type ℓ} (t : A → Bool) (xs : List A) → length (keep_if t xs) ≤ length xs
length-keep_if t [] = omega arith
length-keep_if t (x ∷ xs) = ground (arith, length-keep_if t xs)
