-- ===== src/Base/Sorting.antt =====
-- `sort.Strings`, and that its result depends on the members only where no string stands twice.
use mathlib.Core.Path.{◌≡◌, refl, ap, sym, ◌∙◌}
use mathlib.Core.Logic.{inl, inr}
use mathlib.Core.Bool.{Bool, true, false, not, ◌&&◌, ◌||◌}
use mathlib.Core.List.{List, [], ◌∷◌}
use native.Mathlib.Omega.{arith}
use go_rego.Base.Tests.{◌==◌, ltb, if◌then◌else◌, Bool-cases}
use go_rego.Base.Text.{GoString, str_eq, str_eq_iff, str_eq_refl}

-- Go compares strings byte by byte.
unfoldable pub str_leb : GoString → GoString → Bool
str_leb [] b = true
str_leb (x ∷ xs) [] = false
str_leb (x ∷ xs) (y ∷ ys) = ltb x y || (x == y && str_leb xs ys)

unfoldable pub insert_sorted : GoString → List GoString → List GoString
insert_sorted x [] = x ∷ []
insert_sorted x (y ∷ ys) = if str_leb x y then x ∷ (y ∷ ys) else y ∷ insert_sorted x ys

unfoldable pub sort_strings : List GoString → List GoString
sort_strings [] = []
sort_strings (x ∷ xs) = insert_sorted x (sort_strings xs)

unfoldable pub contains : GoString → List GoString → Bool
contains x [] = false
contains x (y ∷ ys) = str_eq y x || contains x ys

abbrev pub Distinct : List GoString → Type 0
Distinct [] = Unit
Distinct (x ∷ xs) = (contains x xs ≡ false) × Distinct xs

str_leb_total : (a b : GoString) → str_leb a b ≡ false → str_leb b a ≡ true
unfolding str_leb
str_leb_total [] b h = absurd (cc)
str_leb_total (x ∷ xs) [] h = refl
str_leb_total (x ∷ xs) (y ∷ ys) h = ground (arith, str_leb_total xs ys)

str_leb_antisymm : (a b : GoString) → str_leb a b ≡ true → str_leb b a ≡ true → a ≡ b
unfolding str_leb
str_leb_antisymm [] [] h k = refl
str_leb_antisymm [] (y ∷ ys) h k = absurd (cc)
str_leb_antisymm (x ∷ xs) [] h k = absurd (cc)
str_leb_antisymm (x ∷ xs) (y ∷ ys) h k = ground (arith, str_leb_antisymm xs ys)

str_leb_trans : (a b c : GoString) → str_leb a b ≡ true → str_leb b c ≡ true → str_leb a c ≡ true
unfolding str_leb
str_leb_trans [] b c h k = refl
str_leb_trans (x ∷ xs) [] c h k = absurd (cc)
str_leb_trans (x ∷ xs) (y ∷ ys) [] h k = absurd (cc)
str_leb_trans (x ∷ xs) (y ∷ ys) (z ∷ zs) h k = ground (arith, str_leb_trans xs ys zs)

insert_sorted_comm :
    (x y : GoString) (l : List GoString)
    → insert_sorted x (insert_sorted y l) ≡ insert_sorted y (insert_sorted x l)
unfolding insert_sorted
insert_sorted_comm x y [] =
    ground (arith, str_leb_total x y, str_leb_total y x, str_leb_antisymm x y)
insert_sorted_comm x y (z ∷ l) = ground (
  arith,
  str_leb_total x y,
  str_leb_total y x,
  str_leb_antisymm x y,
  str_leb_trans x y z,
  str_leb_trans y x z,
  str_leb_total x z,
  str_leb_total y z,
  insert_sorted_comm x y l,
)

erase : GoString → List GoString → List GoString
erase x [] = []
erase x (y ∷ ys) = if str_eq y x then ys else y ∷ erase x ys

sort_strings-erase :
    (x : GoString) (ys : List GoString)
    → contains x ys ≡ true
    → sort_strings ys ≡ insert_sorted x (sort_strings (erase x ys))
unfolding contains erase sort_strings
sort_strings-erase x [] h = absurd (cc)
sort_strings-erase x (y ∷ ys) h = elim (Bool-cases (str_eq y x)) [
  | inl same ↦
      let e : y ≡ x = (str_eq_iff y x).0 same in
      rw (same, erase, sort_strings) (ap (λ z. insert_sorted z (sort_strings ys)) e)
  | inr other ↦
      rw (other, erase, sort_strings)
        (ap (insert_sorted y) (sort_strings-erase x ys (rw other at h))
          ∙ insert_sorted_comm y x (sort_strings (erase x ys)))
]

contains-erase :
    (x z : GoString) (ys : List GoString)
    → Distinct ys
    → contains z (erase x ys) ≡ (contains z ys && not (str_eq x z))
unfolding contains erase
contains-erase x z [] d = refl
contains-erase x z (y ∷ ys) d =
    ground (arith, contains-erase x z ys d.1, str_eq_iff y x, str_eq_iff y z, str_eq_iff x z)

erase-Distinct : (x : GoString) (ys : List GoString) → Distinct ys → Distinct (erase x ys)
unfolding erase
erase-Distinct x [] d = tt
erase-Distinct x (y ∷ ys) d = elim (Bool-cases (str_eq y x)) [
  | inl same ↦ rw (same, erase) d.1
  | inr other ↦
      rw (other, erase) (ground (arith, contains-erase x y ys d.1), erase-Distinct x ys d.1)
]

-- Two lists of distinct strings with the same members are sorted to the same list.
pub sort_strings-ext :
    (xs ys : List GoString)
    → Distinct xs
    → Distinct ys
    → ((z : GoString) → contains z xs ≡ contains z ys)
    → sort_strings xs ≡ sort_strings ys
unfolding contains sort_strings
sort_strings-ext [] [] dx dy same = refl
sort_strings-ext [] (y ∷ ys) dx dy same = absurd (ground (arith, same y, str_eq_refl y))
sort_strings-ext (x ∷ xs) ys dx dy same =
    ap (insert_sorted x) (
      sort_strings-ext xs (erase x ys) dx.1 (erase-Distinct x ys dy)
        (λ z. ground (arith, same z, contains-erase x z ys dy, str_eq_iff x z)))
    ∙ sym (sort_strings-erase x ys (ground (arith, same x, str_eq_refl x)))

contains-insert_sorted :
    (z x : GoString) (l : List GoString)
    → contains z (insert_sorted x l) ≡ (str_eq x z || contains z l)
unfolding contains insert_sorted
contains-insert_sorted z x [] = refl
contains-insert_sorted z x (y ∷ l) = ground (arith, contains-insert_sorted z x l)

pub contains-sort_strings :
    (z : GoString) (l : List GoString) → contains z (sort_strings l) ≡ contains z l
unfolding contains sort_strings
contains-sort_strings z [] = refl
contains-sort_strings z (x ∷ l) =
    contains-insert_sorted z x (sort_strings l)
    ∙ ap (λ b. str_eq x z || b) (contains-sort_strings z l)

insert_sorted-Distinct :
    (x : GoString) (l : List GoString)
    → contains x l ≡ false
    → Distinct l
    → Distinct (insert_sorted x l)
unfolding contains insert_sorted
insert_sorted-Distinct x [] h d = (refl, tt)
insert_sorted-Distinct x (y ∷ l) h (hy, d) = elim (Bool-cases (str_leb x y)) [
  | inl le ↦ rw (le, insert_sorted) (h, (hy, d))
  | inr gt ↦
      rw (gt, insert_sorted)
        (
          ground (arith, contains-insert_sorted y x l, str_eq_iff x y, str_eq_iff y x),
          insert_sorted-Distinct x l (ground arith) d,
        )
]

pub sort_strings-Distinct : (l : List GoString) → Distinct l → Distinct (sort_strings l)
unfolding sort_strings
sort_strings-Distinct [] d = tt
sort_strings-Distinct (x ∷ l) (h, d) =
    insert_sorted-Distinct x (sort_strings l) (contains-sort_strings x l ∙ h)
      (sort_strings-Distinct l d)
