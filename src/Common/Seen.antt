-- ===== src/Common/Seen.antt =====
-- The loops that keep a set of what they have seen: the texts of the set and those still to come.
use mathlib.Core.Path.{◌≡◌, refl}
use mathlib.Core.Bool.{false}
use mathlib.Core.List.{List, [], ◌∷◌}
use Prim.Native.String.{String}
use native.Mathlib.Omega.{arith}
use text.Mathlib.TextEquality.{eq_iff}
use proxyscene.Common.Lists.{All}
use proxyscene.Common.Texts.{contains}

pub unseen_push :
    (t : String) (seen rest : List String)
    → All (λ s. contains (t ∷ seen) s ≡ false) rest
    → (contains rest t ≡ false) × All (λ s. contains seen s ≡ false) rest
unfolding contains
unseen_push t seen [] h = (refl, tt)
unseen_push t seen (s ∷ rest) h =
    let (a, b) = unseen_push t seen rest h.1 in
    (ground (arith, h.0, eq_iff t s, eq_iff s t), (ground (arith, h.0), b))

pub push_unseen :
    (t : String) (seen rest : List String)
    → contains rest t ≡ false
    → All (λ s. contains seen s ≡ false) rest
    → All (λ s. contains (t ∷ seen) s ≡ false) rest
unfolding contains
push_unseen t seen [] f h = tt
push_unseen t seen (s ∷ rest) f h =
    (ground (arith, h.0, eq_iff t s, eq_iff s t), push_unseen t seen rest (ground arith) h.1)

pub unseen_none : (xs : List String) → All (λ t. contains [] t ≡ false) xs
unfolding contains
unseen_none [] = tt
unseen_none (x ∷ xs) = (refl, unseen_none xs)
