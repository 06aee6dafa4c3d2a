-- ===== src/Common/Int.antt =====
-- Go's `int`: `negsuc n` is -(n + 1). Decimal numbers: `strconv.Atoi` and `Itoa`.
use Prim.Native.Nat.{ℕ, zero, suc, ◌+◌, ◌-◌, ◌*◌, ◌^◌}
use Prim.Native.Char.{Char, code}
use Prim.Native.String.{String}
use mathlib.Core.Path.{◌≡◌, refl}
use mathlib.Core.Logic.{◌↔◌}
use mathlib.Core.Bool.{Bool, true, false, ◌&&◌}
use mathlib.Core.Option.{Option, none, some}
use native.Mathlib.Omega.{arith}
use proxyscene.Common.Tests.{ltb, leb, eqb, if◌then◌else◌}

pub data ℤ : Type 0 where
  pos : ℕ → ℤ
  negsuc : ℕ → ℤ

abbrev pub int_eqb : ℤ → ℤ → Bool
int_eqb (pos a) (pos b) = eqb a b
int_eqb (negsuc a) (negsuc b) = eqb a b
int_eqb _ _ = false

pub int_eqb_iff : (a b : ℤ) → (int_eqb a b ≡ true) ↔ (a ≡ b)
int_eqb_iff (pos a) (pos b) = ground arith
int_eqb_iff (pos a) (negsuc b) = ground arith
int_eqb_iff (negsuc a) (pos b) = ground arith
int_eqb_iff (negsuc a) (negsuc b) = ground arith

pub int_eqb_refl : (a : ℤ) → int_eqb a a ≡ true
int_eqb_refl a = (int_eqb_iff a a).1 refl

is_digit : Char → Bool
is_digit c = leb 48 (code c) && leb (code c) 57

-- The digits of a text, the first one the highest; `none` where a rune is no digit.
digits_from : ℕ → String → Option ℕ
unfolding is_digit
digits_from n String.[] = some n
digits_from n (String.◌∷◌ c s) =
    let rest = digits_from (n * 10 + (code c - 48)) s in if is_digit c then rest else none

-- One digit at least.
digits_of : String → Option ℕ
unfolding digits_from
digits_of String.[] = none
digits_of (String.◌∷◌ c s) = digits_from 0 (String.◌∷◌ c s)

positive : Option ℕ → Option ℤ
positive none = none
positive (some n) = if ltb n (2 ^ 63) then some (pos n) else none

negative : Option ℕ → Option ℤ
negative none = none
negative (some zero) = some (pos 0)
negative (some (suc n)) = if ltb n (2 ^ 63) then some (negsuc n) else none

-- `strconv.Atoi` of a 64-bit int: an optional sign, then digits, in range; `none` is an error.
unfoldable pub atoi : String → Option ℤ
unfolding digits_of positive negative
atoi String.[] = none
atoi (String.◌∷◌ c s) =
    if eqb (code c) 43
    then positive (digits_of s)
    else if eqb (code c) 45
    then negative (digits_of s)
    else positive (digits_of (String.◌∷◌ c s))
