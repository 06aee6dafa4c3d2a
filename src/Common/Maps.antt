-- ===== src/Common/Maps.antt =====
-- Go's maps with string keys, as association lists: a read finds the first entry of a key, a write
-- replaces it in place or appends one, and `delete` drops every entry of the key.
use Prim.Native.String.{String}
use mathlib.Core.Path.{◌≡◌, refl}
use mathlib.Core.Option.{Option, none, some}
use mathlib.Core.List.{List, [], ◌∷◌}
use native.Mathlib.Omega.{arith}
use text.Mathlib.Text.{◌==◌}
use text.Mathlib.TextEquality.{eq_iff}
use proxyscene.Common.Tests.{if◌then◌else◌}

abbrev pub Assoc {ℓ} : Type ℓ → Type ℓ
Assoc V = List (String × V)

module _ {ℓ} {V : Type ℓ} where
  unfoldable pub lookup : String → Assoc V → Option V
  lookup key ((other, value) ∷ rest) = if other == key then some value else lookup key rest
  lookup key [] = none

  unfoldable pub insert : String → V → Assoc V → Assoc V
  insert key value ((other, old) ∷ rest) =
      if other == key then (key, value) ∷ rest else (other, old) ∷ insert key value rest
  insert key value [] = (key, value) ∷ []

  unfoldable pub delete : String → Assoc V → Assoc V
  delete key ((other, value) ∷ rest) =
      let left = delete key rest in if other == key then left else (other, value) ∷ left
  delete key [] = []

  pub lookup-insert :
      (key wanted : String) (value : V) (entries : Assoc V)
      → lookup wanted (insert key value entries)
        ≡ (if key == wanted then some value else lookup wanted entries)
  unfolding lookup insert
  lookup-insert key wanted value ((other, old) ∷ rest) = ground (
    lookup-insert key wanted value rest,
    arith,
    eq_iff other wanted,
    eq_iff key wanted,
    eq_iff other key,
  )
  lookup-insert key wanted value [] = refl

  pub lookup-delete :
      (key wanted : String) (entries : Assoc V)
      → lookup wanted (delete key entries) ≡ (if key == wanted then none else lookup wanted entries)
  unfolding lookup delete
  lookup-delete key wanted ((other, old) ∷ rest) = ground (
    lookup-delete key wanted rest,
    arith,
    eq_iff other wanted,
    eq_iff key wanted,
    eq_iff other key,
  )
  lookup-delete key wanted [] = ground arith
