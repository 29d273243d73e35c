-- ===== src/Common/Writes.antt =====
-- Lists of writes, in which the last write of a key is the one that is read, and parts of lists.
use mini_lakehouse.Common.{
  ℕ, zero, suc, ◌≤◌, ◌≡◌, refl, inl, inr, Bool, true, false, none, some, List, [], ◌∷◌, ◌++◌, map,
  arith, Bool-cases, Option-cases, ◌==◌, contains, IsUnique, All, length, sum_of, find_last, take,
  if◌then◌else◌, keep_if,
}

module _ {ℓ} {A : Type ℓ} where
  -- A read sees the later part first.
  pub find_last-append :
      (p : A → Bool) (xs ys : List A)
      → find_last p (xs ++ ys) ≡ (elim (find_last p ys) [ none ↦ find_last p xs | some y ↦ some y ])
  find_last-append p [] ys = ground arith
  find_last-append p (x ∷ xs) ys = ground (arith, find_last-append p xs ys)

  pub find_last-holds : (p : A → Bool) (xs : List A) (y : A) → find_last p xs ≡ some y → p y ≡ true
  find_last-holds p [] y h = cc
  find_last-holds p (x ∷ xs) y h = elim (Option-cases (find_last p xs)) [
    | inl none_later ↦ ground arith
    | inr (z, later) ↦ find_last-holds p xs y (ground arith)
  ]

module _ {A : Type 0} where
  pub find_last-All :
      (P : A → Type 0) (p : A → Bool) (xs : List A) (y : A)
      → All P xs
      → find_last p xs ≡ some y
      → P y
  find_last-All P p [] y h e = absurd (ground arith)
  find_last-All P p (x ∷ xs) y h e = elim (Option-cases (find_last p xs)) [
    | inr (z, later) ↦ find_last-All P p xs y h.1 (ground arith)
    | inl none_later ↦ let same : x ≡ y = ground arith in rw (← same) h.0
  ]

  pub All-take : (P : A → Type 0) (n : ℕ) (xs : List A) → All P xs → All P (take n xs)
  All-take P zero xs h = tt
  All-take P (suc n) [] h = tt
  All-take P (suc n) (x ∷ xs) h = (h.0, All-take P n xs h.1)

  pub All-append : (P : A → Type 0) (xs ys : List A) → All P xs → All P ys → All P (xs ++ ys)
  All-append P [] ys h k = k
  All-append P (x ∷ xs) ys h k = (h.0, All-append P xs ys h.1 k)

  -- What a filter keeps passes its test.
  pub keep_if-holds : (p : A → Bool) (xs : List A) → All (λ x. p x ≡ true) (keep_if p xs)
  keep_if-holds p [] = tt
  keep_if-holds p (x ∷ xs) = elim (Bool-cases (p x)) [
    | inl kept ↦ rw kept (kept, keep_if-holds p xs)
    | inr dropped ↦ rw dropped (keep_if-holds p xs)
  ]

  pub All-map :
      {B : Type 0} (P : B → Type 0) (f : A → B) (xs : List A)
      → All (λ x. P (f x)) xs
      → All P (map f xs)
  All-map P f [] h = tt
  All-map P f (x ∷ xs) h = (h.0, All-map P f xs h.1)

  pub sum_of-take : (f : A → ℕ) (n : ℕ) (xs : List A) → sum_of f (take n xs) ≤ sum_of f xs
  sum_of-take f zero xs = omega arith
  sum_of-take f (suc n) [] = omega arith
  sum_of-take f (suc n) (x ∷ xs) = omega (arith, sum_of-take f n xs)

  pub length-take : (n : ℕ) (xs : List A) → length (take n xs) ≤ n
  length-take zero xs = omega arith
  length-take (suc n) [] = omega arith
  length-take (suc n) (x ∷ xs) = omega (arith, length-take n xs)

  module _ (key : A → ℕ) where
    absent_key :
        (k v : ℕ) (xs : List A)
        → contains k (map key xs) ≡ false
        → sum_of (λ x. if k == key x then v else 0) xs ≡ 0
    absent_key k v [] h = refl
    absent_key k v (x ∷ xs) h = ground (arith, absent_key k v xs)

    -- One key is read at most once.
    pub one_key :
        (k v : ℕ) (xs : List A)
        → IsUnique (map key xs)
        → sum_of (λ x. if k == key x then v else 0) xs ≤ v
    one_key k v [] u = omega arith
    one_key k v (x ∷ xs) u = ground (arith, one_key k v xs, absent_key k v xs)
