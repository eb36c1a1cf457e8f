-- ===== src/Base/Text.antt =====
-- A Go string is the list of its bytes.
use Prim.Native.Char.{code}
use Prim.Native.String.{String}
use Prim.Native.Nat.{ℕ}
use mathlib.Core.Path.{◌≡◌, refl}
use mathlib.Core.Logic.{◌↔◌}
use mathlib.Core.Bool.{Bool, true, false, ◌&&◌}
use mathlib.Core.List.{List, [], ◌∷◌}
use native.Mathlib.Omega.{arith}
use go_rego.Base.Tests.{◌==◌}

abbrev pub GoString : Type 0
GoString = List ℕ

-- The bytes of an ASCII text.
abbrev pub codes : String → GoString
codes String.[] = []
codes (String.◌∷◌ c s) = code c ∷ codes s

-- `a == b` of Go on strings.
unfoldable pub str_eq : GoString → GoString → Bool
str_eq [] [] = true
str_eq [] (_ ∷ _) = false
str_eq (_ ∷ _) [] = false
str_eq (x ∷ xs) (y ∷ ys) = x == y && str_eq xs ys

pub str_eq_iff : (a b : GoString) → (str_eq a b ≡ true) ↔ (a ≡ b)
unfolding str_eq
str_eq_iff [] [] = ground arith
str_eq_iff [] (_ ∷ _) = ground arith
str_eq_iff (_ ∷ _) [] = ground arith
str_eq_iff (x ∷ xs) (y ∷ ys) = ground (arith, str_eq_iff xs ys)

pub str_eq_refl : (a : GoString) → str_eq a a ≡ true
str_eq_refl a = (str_eq_iff a a).1 refl
