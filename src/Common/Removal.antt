-- ===== src/Common/Removal.antt =====
-- Taking out, or replacing, the one element of a list that has a given identifier.
use mini_lakehouse.Common.{
  ℕ, ◌+◌, ◌≡◌, refl, inl, inr, Bool, true, false, List, [], ◌∷◌, map, arith, Bool-cases, ◌==◌, ◌!=◌,
  keep_if, contains, IsUnique, sum_of, if◌then◌else◌,
}

module _ {ℓ} {A : Type ℓ} where
  -- The first element that a test keeps passes it.
  pub match-holds :
      (p : A → Bool) (xs : List A) {m : A} {ms : List A} → keep_if p xs ≡ m ∷ ms → p m ≡ true
  match-holds p [] h = cc
  match-holds p (x ∷ xs) h = elim (Bool-cases (p x)) [
    | inl kept ↦ ground (arith)
    | inr dropped ↦ match-holds p xs (rw dropped at h)
  ]

  module _ (key : A → ℕ) where
    pub match-present :
        (p : A → Bool) (xs : List A) {m : A} {ms : List A}
        → keep_if p xs ≡ m ∷ ms
        → contains (key m) (map key xs) ≡ true
    match-present p [] h = cc
    match-present p (x ∷ xs) h = elim (Bool-cases (p x)) [
      | inl kept ↦ ground arith
      | inr dropped ↦ ground (arith, match-present p xs (rw dropped at h))
    ]

    keep_if-absent :
        (d : ℕ) (xs : List A) → contains d (map key xs) ≡ false → keep_if (λ x. key x != d) xs ≡ xs
    keep_if-absent d [] h = refl
    keep_if-absent d (x ∷ xs) h = ground (arith, keep_if-absent d xs)

    -- With unique identifiers, what a removal takes out of a sum is the one element.
    pub sum_of-removed :
        (f : A → ℕ) (p : A → Bool) (xs : List A) {m : A} {ms : List A}
        → keep_if p xs ≡ m ∷ ms
        → IsUnique (map key xs)
        → sum_of f (keep_if (λ x. key x != key m) xs) + f m ≡ sum_of f xs
    sum_of-removed f p [] h u = cc
    sum_of-removed f p (x ∷ xs) {m} h u = elim (Bool-cases (p x)) [
      | inl kept ↦ ground (arith, keep_if-absent (key x) xs u.0)
      | inr dropped ↦
          ground (
            arith,
            match-present p xs (rw dropped at h),
            sum_of-removed f p xs (rw dropped at h) u.1,
          )
    ]

    map-absent :
        (f : A → ℕ) (r : A) (xs : List A)
        → contains (key r) (map key xs) ≡ false
        → sum_of f (map (λ x. if key x == key r then r else x) xs) ≡ sum_of f xs
    map-absent f r [] h = refl
    map-absent f r (x ∷ xs) h = ground (arith, map-absent f r xs)

    -- A replacement that weighs the same leaves the sum alone.
    pub sum_of-replaced :
        (f : A → ℕ) (p : A → Bool) (r : A) (xs : List A) {m : A} {ms : List A}
        → keep_if p xs ≡ m ∷ ms
        → key r ≡ key m
        → f r ≡ f m
        → IsUnique (map key xs)
        → sum_of f (map (λ x. if key x == key r then r else x) xs) ≡ sum_of f xs
    sum_of-replaced f p r [] h e w u = cc
    sum_of-replaced f p r (x ∷ xs) {m} h e w u = elim (Bool-cases (p x)) [
      | inl kept ↦ ground (arith, map-absent f r xs)
      | inr dropped ↦ ground (
        arith,
        match-present p xs (rw dropped at h),
        sum_of-replaced f p r xs (rw dropped at h) e w u.1,
      )
    ]
