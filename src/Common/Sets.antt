-- ===== src/Common/Sets.antt =====
-- Python's sets of identifiers, where the code only counts or orders them.
use Prim.Native.Nat.{ℕ, suc, ◌≤◌, ◌<◌}
use mathlib.Core.Path.{◌≡◌, refl, subst}
use mathlib.Core.Logic.{◌↔◌, inl, inr}
use mathlib.Core.Bool.{Bool, true, false, ◌&&◌}
use mathlib.Core.List.{List, [], ◌∷◌}
use native.Mathlib.Omega.{arith}
use mini_lakehouse.Common.Tests.{◌==◌, ltb, if◌then◌else◌, Bool-cases, ltb→lt}
use mini_lakehouse.Common.Lists.{length, contains, IsUnique, All}

-- `len(set(xs))`
abbrev pub unique_length : List ℕ → ℕ
unique_length [] = 0
unique_length (x ∷ xs) = let n = unique_length xs in if contains x xs then n else suc n

-- `x` in its place of an increasing list that lacks it.
abbrev pub insert_new : ℕ → List ℕ → List ℕ
insert_new x [] = x ∷ []
insert_new x (y ∷ ys) =
    let later = y ∷ insert_new x ys in
    if x == y then y ∷ ys else if ltb x y then x ∷ y ∷ ys else later

-- `sorted(set(xs))`
unfoldable pub sorted_set : List ℕ → List ℕ
sorted_set [] = []
sorted_set (x ∷ xs) = insert_new x (sorted_set xs)

-- `xs == ys`
abbrev pub same_list : List ℕ → List ℕ → Bool
same_list [] [] = true
same_list [] (_ ∷ _) = false
same_list (_ ∷ _) [] = false
same_list (x ∷ xs) (y ∷ ys) = x == y && same_list xs ys

-- `tuple(sorted(set(xs))) == xs`
unfoldable pub is_ordered_set : List ℕ → Bool
unfolding sorted_set
is_ordered_set xs = same_list (sorted_set xs) xs

abbrev pub IsIncreasing : List ℕ → Type 0
IsIncreasing [] = Unit
IsIncreasing (x ∷ xs) = All (λ y. x < y) xs × IsIncreasing xs

All-insert_new :
    (x y : ℕ) (ys : List ℕ) → x < y → All (λ z. x < z) ys → All (λ z. x < z) (insert_new y ys)
All-insert_new x y [] h all = (h, tt)
All-insert_new x y (z ∷ zs) h all = elim (Bool-cases (y == z)) [
  | inl same ↦ rw same all
  | inr other ↦ elim (Bool-cases (ltb y z)) [
    | inl first ↦ rw (other, first) (h, all)
    | inr later ↦ rw (other, later) (all.0, All-insert_new x y zs h all.1)
  ]
]

All-lt_trans : (x y : ℕ) (ys : List ℕ) → x < y → All (λ z. y < z) ys → All (λ z. x < z) ys
All-lt_trans x y [] h all = tt
All-lt_trans x y (z ∷ zs) h all = (omega arith, All-lt_trans x y zs h all.1)

insert_new-IsIncreasing : (x : ℕ) (xs : List ℕ) → IsIncreasing xs → IsIncreasing (insert_new x xs)
insert_new-IsIncreasing x [] h = (tt, tt)
insert_new-IsIncreasing x (y ∷ ys) h = elim (Bool-cases (x == y)) [
  | inl same ↦ rw same h
  | inr other ↦ elim (Bool-cases (ltb x y)) [
    | inl first ↦
        rw (other, first) ((ltb→lt x y first, All-lt_trans x y ys (ltb→lt x y first) h.0), h)
    | inr later ↦
        rw (other, later)
          (All-insert_new y x ys (ground arith) h.0, insert_new-IsIncreasing x ys h.1)
  ]
]

pub sorted_set-IsIncreasing : (xs : List ℕ) → IsIncreasing (sorted_set xs)
unfolding sorted_set
sorted_set-IsIncreasing [] = tt
sorted_set-IsIncreasing (x ∷ xs) =
    insert_new-IsIncreasing x (sorted_set xs) (sorted_set-IsIncreasing xs)

same_list→eq : (xs ys : List ℕ) → same_list xs ys ≡ true → xs ≡ ys
same_list→eq [] [] h = refl
same_list→eq [] (y ∷ ys) h = cc
same_list→eq (x ∷ xs) [] h = cc
same_list→eq (x ∷ xs) (y ∷ ys) h = ground (arith, same_list→eq xs ys)

same_list_refl : (xs : List ℕ) → same_list xs xs ≡ true
same_list_refl [] = refl
same_list_refl (x ∷ xs) = ground (arith, same_list_refl xs)

insert_new-first : (x : ℕ) (xs : List ℕ) → All (λ y. x < y) xs → insert_new x xs ≡ x ∷ xs
insert_new-first x [] h = refl
insert_new-first x (y ∷ ys) h = let less = h.0 in ground arith

sorted_set-eq_self : (xs : List ℕ) → IsIncreasing xs → sorted_set xs ≡ xs
unfolding sorted_set
sorted_set-eq_self [] h = refl
sorted_set-eq_self (x ∷ xs) h = rw (sorted_set-eq_self xs h.1) (insert_new-first x xs h.0)

-- A tuple that is equal to its sorted set is one that strictly increases, and no other is.
pub is_ordered_set_iff : (xs : List ℕ) → (is_ordered_set xs ≡ true) ↔ IsIncreasing xs
unfolding is_ordered_set
is_ordered_set_iff xs = (
  λ h. subst IsIncreasing (same_list→eq _ _ h) (sorted_set-IsIncreasing xs),
  λ h. rw (sorted_set-eq_self xs h) (same_list_refl xs),
)

absent_above : (x : ℕ) (xs : List ℕ) → All (λ y. x < y) xs → contains x xs ≡ false
absent_above x [] h = refl
absent_above x (y ∷ ys) h = let less = h.0 in ground (arith, absent_above x ys h.1)

pub IsIncreasing-IsUnique : (xs : List ℕ) → IsIncreasing xs → IsUnique xs
IsIncreasing-IsUnique [] h = tt
IsIncreasing-IsUnique (x ∷ xs) h = (absent_above x xs h.0, IsIncreasing-IsUnique xs h.1)

unique_length-le : (xs : List ℕ) → unique_length xs ≤ length xs
unique_length-le [] = omega arith
unique_length-le (x ∷ xs) = ground (arith, unique_length-le xs)

pub unique_length-IsUnique : (xs : List ℕ) → unique_length xs ≡ length xs → IsUnique xs
unique_length-IsUnique [] h = tt
unique_length-IsUnique (x ∷ xs) h = elim (Bool-cases (contains x xs)) [
  | inl seen ↦ absurd (ground (arith, unique_length-le xs))
  | inr new ↦ (new, unique_length-IsUnique xs (ground arith))
]
