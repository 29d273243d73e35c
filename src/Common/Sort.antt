-- ===== src/Common/Sort.antt =====
-- Python's `sorted`, which is stable, with its order as a Boolean test.
use mathlib.Core.List.{Perm}
use mathlib.Core.List.Perm
use mini_lakehouse.Common.{
  ℕ, ◌+◌, ◌≡◌, refl, inl, inr, Bool, true, false, List, [], ◌∷◌, arith, Bool-cases, All, sum_of,
  if◌then◌else◌,
}

module _ {ℓ} {A : Type ℓ} where
  -- `x` goes before the first element that is not smaller, so equal elements keep their order.
  pub insert_by : (A → A → Bool) → A → List A → List A
  insert_by le x [] = x ∷ []
  insert_by le x (y ∷ ys) = if le x y then x ∷ y ∷ ys else y ∷ insert_by le x ys

  unfoldable pub sorted : (A → A → Bool) → List A → List A
  unfolding insert_by
  sorted le [] = []
  sorted le (x ∷ xs) = insert_by le x (sorted le xs)

  -- Every element may stand before each of those behind it.
  abbrev pub IsSorted : (A → A → Bool) → List A → Type 0
  IsSorted le [] = Unit
  IsSorted le (x ∷ xs) = All (λ y. le x y ≡ true) xs × IsSorted le xs

  insert_by-perm : (le : A → A → Bool) (x : A) (xs : List A) → Perm (insert_by le x xs) (x ∷ xs)
  unfolding insert_by
  insert_by-perm le x [] = Perm.refl (x ∷ [])
  insert_by-perm le x (y ∷ ys) = elim (Bool-cases (le x y)) [
    | inl first ↦ rw first (Perm.refl (x ∷ y ∷ ys))
    | inr later ↦ rw later (Perm.trans (Perm.cons y (insert_by-perm le x ys)) (Perm.swap x y ys))
  ]

  -- Sorting neither drops nor repeats an element.
  pub sorted-perm : (le : A → A → Bool) (xs : List A) → Perm (sorted le xs) xs
  unfolding sorted
  sorted-perm le [] = Perm.refl []
  sorted-perm le (x ∷ xs) =
      Perm.trans (insert_by-perm le x (sorted le xs)) (Perm.cons x (sorted-perm le xs))

  sum_of-insert_by :
      (f : A → ℕ) (le : A → A → Bool) (x : A) (xs : List A)
      → sum_of f (insert_by le x xs) ≡ f x + sum_of f xs
  unfolding insert_by
  sum_of-insert_by f le x [] = refl
  sum_of-insert_by f le x (y ∷ ys) = ground (arith, sum_of-insert_by f le x ys)

  pub sum_of-sorted :
      (f : A → ℕ) (le : A → A → Bool) (xs : List A) → sum_of f (sorted le xs) ≡ sum_of f xs
  unfolding sorted
  sum_of-sorted f le [] = refl
  sum_of-sorted f le (x ∷ xs) =
      omega (arith, sum_of-insert_by f le x (sorted le xs), sum_of-sorted f le xs)

  All-insert_by :
      (P : A → Type 0) (le : A → A → Bool) (x : A) (xs : List A)
      → P x
      → All P xs
      → All P (insert_by le x xs)
  unfolding insert_by
  All-insert_by P le x [] p h = (p, h)
  All-insert_by P le x (y ∷ ys) p h = elim (Bool-cases (le x y)) [
    | inl first ↦ rw first (p, h)
    | inr later ↦ rw later (h.0, All-insert_by P le x ys p h.1)
  ]

  pub All-sorted :
      (P : A → Type 0) (le : A → A → Bool) (xs : List A) → All P xs → All P (sorted le xs)
  unfolding sorted
  All-sorted P le [] h = h
  All-sorted P le (x ∷ xs) h = All-insert_by P le x (sorted le xs) h.0 (All-sorted P le xs h.1)

  All-le_trans :
      (le : A → A → Bool)
      → ((a b c : A) → le a b ≡ true → le b c ≡ true → le a c ≡ true)
      → (x y : A) (ys : List A) → le x y ≡ true
      → All (λ z. le y z ≡ true) ys
      → All (λ z. le x z ≡ true) ys
  All-le_trans le trans x y [] h all = tt
  All-le_trans le trans x y (z ∷ zs) h all =
      (trans x y z h all.0, All-le_trans le trans x y zs h all.1)

  module _ (le : A → A → Bool) (total : (a b : A) → le a b ≡ false → le b a ≡ true)
      (trans : (a b c : A) → le a b ≡ true → le b c ≡ true → le a c ≡ true) where
    insert_by-IsSorted : (x : A) (xs : List A) → IsSorted le xs → IsSorted le (insert_by le x xs)
    unfolding insert_by
    insert_by-IsSorted x [] h = (tt, tt)
    insert_by-IsSorted x (y ∷ ys) h = elim (Bool-cases (le x y)) [
      | inl first ↦ rw first ((first, All-le_trans le trans x y ys first h.0), h)
      | inr later ↦ rw later (
        All-insert_by (λ z. le y z ≡ true) le x ys (total x y later) h.0,
        insert_by-IsSorted x ys h.1,
      )
    ]

    pub sorted-IsSorted : (xs : List A) → IsSorted le (sorted le xs)
    unfolding sorted
    sorted-IsSorted [] = tt
    sorted-IsSorted (x ∷ xs) = insert_by-IsSorted x (sorted le xs) (sorted-IsSorted xs)
