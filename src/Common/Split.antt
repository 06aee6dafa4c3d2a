-- ===== src/Common/Split.antt =====
-- `strings.Fields`, `SplitN`, `TrimPrefix`, `HasPrefix`, `HasSuffix`, `Contains` and `ToLower`.
use Prim.Native.Nat.{ℕ, zero, suc, ◌+◌}
use Prim.Native.Char.{Char, code}
use Prim.Native.String.{String}
use mathlib.Core.Bool.{Bool, true, false, ◌&&◌, ◌||◌}
use mathlib.Core.Option.{Option, none, some}
use mathlib.Core.List.{List, [], ◌∷◌}
use text.Mathlib.Text.{◌==◌, starts_with}
use proxyscene.Common.Tests.{eqb, if◌then◌else◌}
use proxyscene.Common.Texts.{between}

-- `strings.HasPrefix` and `HasSuffix`, the text first.
unfoldable pub has_prefix : String → String → Bool
has_prefix s t = starts_with s t

unfoldable pub has_suffix : String → String → Bool
has_suffix String.[] t = t == ""
has_suffix (String.◌∷◌ c s) t = String.◌∷◌ c s == t || has_suffix s t

-- `strings.Contains`, the text first.
unfoldable pub has_infix : String → String → Bool
has_infix String.[] t = starts_with "" t
has_infix (String.◌∷◌ c s) t = starts_with (String.◌∷◌ c s) t || has_infix s t

-- The text without its first runes.
unfoldable pub drop_runes : ℕ → String → String
drop_runes zero s = s
drop_runes (suc n) String.[] = ""
drop_runes (suc n) (String.◌∷◌ c s) = drop_runes n s

-- What stands before and behind the first rune with the given code point.
abbrev pub add_before : Char → Option (String × String) → Option (String × String)
add_before c none = none
add_before c (some (a, b)) = some (String.◌∷◌ c a, b)

unfoldable pub cut_at : ℕ → String → Option (String × String)
cut_at n String.[] = none
cut_at n (String.◌∷◌ c s) =
    let rest = add_before c (cut_at n s) in if eqb (code c) n then some ("", s) else rest

-- The words between the runes of the class `sep`, as `strings.FieldsFunc`: first the word at the
-- start of the text, which may be empty, then the words behind it.
abbrev pub add_word : String → List String → List String
add_word String.[] ws = ws
add_word (String.◌∷◌ c w) ws = String.◌∷◌ c w ∷ ws

unfoldable pub words_from : (Char → Bool) → String → String × List String
words_from sep String.[] = ("", [])
words_from sep (String.◌∷◌ c s) =
    let (w, ws) = words_from sep s in if sep c then ("", add_word w ws) else (String.◌∷◌ c w, ws)

unfoldable pub fields_by : (Char → Bool) → String → List String
unfolding words_from
fields_by sep s = let (w, ws) = words_from sep s in add_word w ws

-- The ASCII part of `strings.ToLower`, as a test: whether the lowered text is the given word. The
-- other runes that Go lowers into ASCII, U+0130 and U+212A, become i and k: no word tested for
-- has these.
lower_code : ℕ → ℕ
lower_code n = if between 65 90 n then n + 32 else n

unfoldable pub lowers_to : String → String → Bool
unfolding lower_code
lowers_to String.[] String.[] = true
lowers_to (String.◌∷◌ c s) (String.◌∷◌ d t) = eqb (lower_code (code c)) (code d) && lowers_to s t
lowers_to _ _ = false
