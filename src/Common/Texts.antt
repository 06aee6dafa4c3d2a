-- ===== src/Common/Texts.antt =====
-- Go's strings, as far as the program uses them: the native `String`, whose characters are the runes
-- of a valid UTF-8 text. `strings.TrimSpace`, `ToLower` and `Map`, `unicode.IsSpace`, `IsControl` and
-- the class Cf, and the lists of texts with `slices.Contains`, `Equal` and `Sort`.
use Prim.Native.Nat.{ℕ, Ordering}
use Prim.Native.Char.{Char, code}
use Prim.Native.String.{String, compare}
use mathlib.Core.Path.{◌≡◌, refl}
use mathlib.Core.Logic.{◌↔◌}
use mathlib.Core.Bool.{Bool, true, false, ◌&&◌, ◌||◌}
use mathlib.Core.List.{List, [], ◌∷◌, ◌++◌}
use native.Mathlib.Omega.{arith}
use text.Mathlib.Text.{◌==◌}
use text.Mathlib.TextEquality.{eq_iff}
use proxyscene.Common.Tests.{leb, eqb, if◌then◌else◌}

-- `lo ≤ c ≤ hi`, for a rune and a range of runes.
abbrev pub between : ℕ → ℕ → ℕ → Bool
between lo hi c = leb lo c && leb c hi

-- `unicode.IsSpace` (the White_Space property).
unfoldable pub is_space : Char → Bool
is_space r =
    let c = code r in
    between 9 13 c
    || eqb c 32
    || eqb c 0x85
    || eqb c 0xa0
    || eqb c 0x1680
    || between 0x2000 0x200a c
    || between 0x2028 0x2029 c
    || eqb c 0x202f
    || eqb c 0x205f
    || eqb c 0x3000

-- `strings.TrimLeftFunc(s, unicode.IsSpace)`
unfoldable pub trim_left : String → String
trim_left String.[] = String.[]
trim_left (String.◌∷◌ c s) = let rest = trim_left s in if is_space c then rest else String.◌∷◌ c s

-- `strings.TrimRightFunc(s, unicode.IsSpace)`
abbrev pub trim_right_step : Char → String → String
trim_right_step c String.[] = if is_space c then String.[] else String.◌∷◌ c String.[]
trim_right_step c (String.◌∷◌ d s) = String.◌∷◌ c (String.◌∷◌ d s)

unfoldable pub trim_right : String → String
trim_right String.[] = String.[]
trim_right (String.◌∷◌ c s) = trim_right_step c (trim_right s)

-- `strings.TrimSpace`
unfoldable pub trim_space : String → String
unfolding is_space trim_left trim_right
trim_space s = trim_left (trim_right s)

-- `strings.Map` with a mapping that returns -1 for the runes to drop.
unfoldable pub keep_runes : (Char → Bool) → String → String
keep_runes p String.[] = String.[]
keep_runes p (String.◌∷◌ c s) = let rest = keep_runes p s in if p c then String.◌∷◌ c rest else rest

-- Whether every rune passes the test.
unfoldable pub every_rune : (Char → Bool) → String → Bool
every_rune p String.[] = true
every_rune p (String.◌∷◌ c s) = p c && every_rune p s

-- `unicode.IsControl`
unfoldable pub is_control : Char → Bool
is_control r = let c = code r in between 0 0x1f c || between 0x7f 0x9f c

-- `unicode.Is(unicode.Cf, r)`, the table of Unicode 15.
unfoldable pub is_format : Char → Bool
is_format r =
    let c = code r in
    eqb c 0xad
    || between 0x600 0x605 c
    || eqb c 0x61c
    || eqb c 0x6dd
    || eqb c 0x70f
    || between 0x890 0x891 c
    || eqb c 0x8e2
    || eqb c 0x180e
    || between 0x200b 0x200f c
    || between 0x202a 0x202e c
    || between 0x2060 0x2064 c
    || between 0x2066 0x206f c
    || eqb c 0xfeff
    || between 0xfff9 0xfffb c
    || eqb c 0x110bd
    || eqb c 0x110cd
    || between 0x13430 0x1343f c
    || between 0x1bca0 0x1bca3 c
    || between 0x1d173 0x1d17a c
    || eqb c 0xe0001
    || between 0xe0020 0xe007f c

-- `slices.Contains`, and the program's `containsString`
unfoldable pub contains : List String → String → Bool
contains [] a = false
contains (x ∷ xs) a = x == a || contains xs a

-- No text stands twice in the list.
abbrev pub IsNodup : List String → Type 0
IsNodup [] = Unit
IsNodup (x ∷ xs) = (contains xs x ≡ false) × IsNodup xs

-- `slices.Equal`
unfoldable pub texts_equal : List String → List String → Bool
texts_equal [] [] = true
texts_equal (x ∷ xs) (y ∷ ys) = x == y && texts_equal xs ys
texts_equal _ _ = false

-- `slices.Sort`: the order of the bytes is that of the code points.
unfoldable pub insert_sorted : String → List String → List String
insert_sorted x [] = x ∷ []
insert_sorted x (y ∷ ys) =
    let rest = insert_sorted x ys in
    elim (compare y x) [ Ordering.lt ↦ y ∷ rest | _ ↦ x ∷ (y ∷ ys) ]

unfoldable pub sort_texts : List String → List String
unfolding insert_sorted
sort_texts [] = []
sort_texts (x ∷ xs) = insert_sorted x (sort_texts xs)

pub texts_equal_iff : (xs ys : List String) → (texts_equal xs ys ≡ true) ↔ (xs ≡ ys)
unfolding texts_equal
texts_equal_iff [] [] = ground arith
texts_equal_iff [] (y ∷ ys) = ground arith
texts_equal_iff (x ∷ xs) [] = ground arith
texts_equal_iff (x ∷ xs) (y ∷ ys) = ground (arith, eq_iff x y, texts_equal_iff xs ys)

pub texts_equal_refl : (xs : List String) → texts_equal xs xs ≡ true
texts_equal_refl xs = (texts_equal_iff xs xs).1 refl

pub contains-append :
    (xs ys : List String) (a : String) → contains (xs ++ ys) a ≡ (contains xs a || contains ys a)
unfolding contains
contains-append [] ys a = refl
contains-append (x ∷ xs) ys a = ground (arith, contains-append xs ys a)

pub contains-insert_sorted :
    (x : String) (ys : List String) (a : String)
    → contains (insert_sorted x ys) a ≡ (x == a || contains ys a)
unfolding contains insert_sorted
contains-insert_sorted x [] a = refl
contains-insert_sorted x (y ∷ ys) a = ground (arith, contains-insert_sorted x ys a)

pub contains-sort_texts :
    (xs : List String) (a : String) → contains (sort_texts xs) a ≡ contains xs a
unfolding contains sort_texts
contains-sort_texts [] a = refl
contains-sort_texts (x ∷ xs) a =
    ground (arith, contains-insert_sorted x (sort_texts xs) a, contains-sort_texts xs a)
