-- ===== src/Common/Sets.antt =====
-- Lists of texts as sets: the texts without one of them, and sorted texts.
use Prim.Native.Nat.{◌+◌, ◌≤◌, ◌<◌}
use Prim.Native.String.{String}
use mathlib.Core.Path.{◌≡◌, refl, sym, subst, ◌∙◌}
use mathlib.Core.Logic.{inl, inr, ◌⊎◌}
use mathlib.Core.Bool.{Bool, true, false, ◌||◌, not}
use mathlib.Core.List.{List, [], ◌∷◌, ◌++◌}
use native.Mathlib.Omega.{arith}
use text.Mathlib.Text.{◌==◌}
use text.Mathlib.TextEquality.{eq_iff}
use text.Mathlib.TextPositions.{eq_refl}
use proxyscene.Common.Lists.{All, keep_if, keep_if-false, keep_if-true, length, length-keep_if}
use proxyscene.Common.Tests.{Bool-cases}
use proxyscene.Common.Texts.{
  IsNodup, contains, contains-append, contains-insert_sorted, contains-sort_texts, insert_sorted,
  sort_texts,
}

-- The texts without one of them.
abbrev pub others : List String → String → List String
others ids x = keep_if (λ y. not (y == x)) ids

pub others-length :
    (ids : List String) (x : String) → contains ids x ≡ true → length (others ids x) < length ids
unfolding contains
others-length [] x h = cc
others-length (y ∷ ids) x h = elim (Bool-cases (y == x)) [
  | inl e ↦
      rw (keep_if-false (λ y. not (y == x)) y ids (ground (arith, e)))
        (omega (arith, length-keep_if (λ y. not (y == x)) ids))
  | inr e ↦
      rw (keep_if-true (λ y. not (y == x)) y ids (ground (arith, e)))
        (omega (arith, others-length ids x (ground (arith, e, h))))
]

pub others-absent :
    (ids : List String) (x z : String)
    → (z == x) ≡ false
    → contains (others ids x) z ≡ false
    → contains ids z ≡ false
unfolding contains
others-absent [] x z apart h = refl
others-absent (y ∷ ids) x z apart h = elim (Bool-cases (y == x)) [
  | inl e ↦ ground (
    arith,
    apart,
    eq_iff y x,
    eq_iff y z,
    eq_iff z x,
    others-absent ids x z apart
        (rw (keep_if-false (λ y. not (y == x)) y ids (ground (arith, e))) at h),
  )
  | inr e ↦
      let (a, b) =
        both (y == z) _ (rw (keep_if-true (λ y. not (y == x)) y ids (ground (arith, e))) at h) in
      ground (arith, a, others-absent ids x z apart b)
]
  where
    both : (a b : Bool) → (a || b) ≡ false → (a ≡ false) × (b ≡ false)
    both a b h = ground arith

others-contains :
    (ids : List String) (x z : String)
    → (z == x) ≡ false
    → contains ids z ≡ true
    → contains (others ids x) z ≡ true
unfolding contains
others-contains ids x z apart held = elim (Bool-cases (contains (others ids x) z)) [
  | inl e ↦ e
  | inr e ↦ cc (others-absent ids x z apart e, held)
]

All-others :
    (known : List String) (x : String) (xs : List String)
    → contains xs x ≡ false
    → All (λ z. contains known z ≡ true) xs
    → All (λ z. contains (others known x) z ≡ true) xs
unfolding contains
All-others known x [] new held = tt
All-others known x (z ∷ xs) new held = (
  others-contains known x z (ground (arith, new)) held.0,
  All-others known x xs (ground (arith, new)) held.1,
)

-- Different texts out of a list are at most as many as the list.
pub subset_length :
    (xs known : List String)
    → IsNodup xs
    → All (λ x. contains known x ≡ true) xs
    → length xs ≤ length known
subset_length [] known apart held = omega arith
subset_length (x ∷ xs) known apart held =
    let fewer = others-length known x held.0 in
    let rest = subset_length xs (others known x) apart.1 (All-others known x xs apart.0 held.1) in
    omega (arith, fewer, rest)

length-insert_sorted : (x : String) (xs : List String) → length (insert_sorted x xs) ≡ length xs + 1
unfolding insert_sorted
length-insert_sorted x [] = omega arith
length-insert_sorted x (y ∷ xs) = ground (arith, length-insert_sorted x xs)

pub length-sort_texts : (xs : List String) → length (sort_texts xs) ≡ length xs
unfolding sort_texts
length-sort_texts [] = omega arith
length-sort_texts (x ∷ xs) =
    omega (arith, length-insert_sorted x (sort_texts xs), length-sort_texts xs)

insert_cases :
    (x y : String) (xs : List String)
    → (insert_sorted x (y ∷ xs) ≡ y ∷ insert_sorted x xs)
      ⊎ (insert_sorted x (y ∷ xs) ≡ x ∷ (y ∷ xs))
unfolding insert_sorted
insert_cases x y xs = ground arith

IsNodup-insert_sorted :
    (x : String) (xs : List String)
    → contains xs x ≡ false
    → IsNodup xs
    → IsNodup (insert_sorted x xs)
unfolding contains insert_sorted
IsNodup-insert_sorted x [] new apart = (refl, tt)
IsNodup-insert_sorted x (y ∷ xs) new apart = elim (insert_cases x y xs) [
  | inl e ↦ subst IsNodup (sym e) (
    contains-insert_sorted x xs y ∙ ground (arith, new, apart.0, eq_iff x y, eq_iff y x),
    IsNodup-insert_sorted x xs (ground (arith, new)) apart.1,
  )
  | inr e ↦ subst IsNodup (sym e) (new, apart)
]

pub IsNodup-sort_texts : (xs : List String) → IsNodup xs → IsNodup (sort_texts xs)
unfolding sort_texts
IsNodup-sort_texts [] apart = tt
IsNodup-sort_texts (x ∷ xs) apart =
    IsNodup-insert_sorted x (sort_texts xs) (contains-sort_texts xs x ∙ apart.0)
      (IsNodup-sort_texts xs apart.1)

-- A property of the members of a list.
pub All-of-contains :
    (P : String → Type 0) (xs : List String)
    → ((x : String) → contains xs x ≡ true → P x)
    → All P xs
unfolding contains
All-of-contains P [] holds = tt
All-of-contains P (x ∷ xs) holds = (
  holds x (ground (arith, eq_refl x)),
  All-of-contains P xs (λ y held. holds y (ground (arith, held))),
)

pub contains-of-All :
    (P : String → Type 0) (xs : List String) (x : String) → All P xs → contains xs x ≡ true → P x
unfolding contains
contains-of-All P [] x held h = cc
contains-of-All P (y ∷ xs) x held h = elim (Bool-cases (y == x)) [
  | inl e ↦ subst P ((eq_iff y x).0 e) held.0
  | inr e ↦ contains-of-All P xs x held.1 (rw e at h)
]

pub IsNodup-append_one :
    (xs : List String) (x : String) → IsNodup xs → contains xs x ≡ false → IsNodup (xs ++ (x ∷ []))
unfolding contains
IsNodup-append_one [] x apart new = (refl, tt)
IsNodup-append_one (y ∷ xs) x apart new = (
  contains-append xs (x ∷ []) y ∙ ground (arith, apart.0, new, eq_iff x y, eq_iff y x),
  IsNodup-append_one xs x apart.1 (ground (arith, new)),
)
