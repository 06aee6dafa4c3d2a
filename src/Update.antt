-- ===== src/Update.antt =====
-- The versions of updates (internal/manager/update_release.go).
use Prim.Native.Nat.{Ordering}
use Prim.Native.String.{compare}
use proxyscene.Common.{
  Bool, Char, List, Result, String, [], all_of, bad_update_version, between, code, drop_runes, eqb,
  every_rune, false, has_prefix, if◌then◌else◌, leb, len, length, ltb, not, ok, reject_if, ◌&&◌,
  ◌==◌, ◌>>◌, ◌||◌, ◌∷◌,
}

push_first : Char → List String → List String
push_first c [] = String.◌∷◌ c "" ∷ []
push_first c (x ∷ xs) = String.◌∷◌ c x ∷ xs

-- `strings.Split(s, ".")`
unfoldable pub split_dots : String → List String
unfolding push_first
split_dots String.[] = "" ∷ []
split_dots (String.◌∷◌ c s) =
    let rest = split_dots s in if eqb (code c) b'.' then "" ∷ rest else push_first c rest

-- 0|[1-9][0-9]*
unfoldable pub is_numeral : String → Bool
is_numeral String.[] = false
is_numeral (String.◌∷◌ c s) =
    eqb (code c) b'0' && s == ""
    || between b'1' b'9' (code c) && every_rune (λ d. between b'0' b'9' (code d)) s

-- `validUpdateVersion`: at most 128 bytes, a `v`, and three numerals with dots between them.
unfoldable pub valid_update_version : String → Bool
unfolding split_dots is_numeral
valid_update_version tag =
    let parts = split_dots (drop_runes 1 tag) in
    leb (len tag) 128 && has_prefix tag "v" && eqb (length parts) 3 && all_of is_numeral parts

-- The loop over the parts: the longer numeral is the higher one.
unfoldable pub compare_parts : List String → List String → Ordering
compare_parts (a ∷ rest_a) (b ∷ rest_b) =
    let rest = compare_parts rest_a rest_b in
    if ltb (len a) (len b)
    then Ordering.lt
    else if ltb (len b) (len a)
    then Ordering.gt
    else elim (compare a b) [
      | Ordering.lt ↦ Ordering.lt
      | Ordering.gt ↦ Ordering.gt
      | Ordering.eq ↦ rest
    ]
compare_parts _ _ = Ordering.eq

-- `compareUpdateVersions`, with an ordering for -1, 0 and 1.
unfoldable pub compare_update_versions : String → String → Result Ordering
unfolding valid_update_version compare_parts
compare_update_versions a b = do
  reject_if (not (valid_update_version a) || not (valid_update_version b)) bad_update_version
  ok (compare_parts (split_dots (drop_runes 1 a)) (split_dots (drop_runes 1 b)))
