-- ===== src/Configuration/Resolution.antt =====
-- Resolution by date of t0-trading/src/t0_trading/configuration.py: what the validators of the versions
-- give `_resolve_effective` and `_resolve_optional`.
use mini_lakehouse.Common.{
  or_false, ℕ, ◌≡◌, ◌≤◌, ◌<◌, ◌↔◌, refl, sym, ap, inl, inr, subst, Bool, true, false, Option, none,
  some, List, [], ◌∷◌, arith, keep_if, All, All-IsIn, IsIn, Bool-cases, Result, ok, err, >>-eq-ok,
  raise_if-eq-ok, ok_injective, some_injective,
}
use mini_lakehouse.Controls.{covers, ends_before}
use mini_lakehouse.Configuration.{
  Effective, ConfigurationError, validate_interval, is_effective, reaches, reaches_to, has_overlap,
  validate_effective_versions, matches, starts_before, only_match, optional_match,
  resolve_effective, resolve_optional,
}

-- A date between two that are covered is covered.
pub covers_between :
    (from : ℕ) (to : Option ℕ) (first date last : ℕ)
    → covers from to first ≡ true
    → covers from to last ≡ true
    → first ≤ date
    → date ≤ last
    → covers from to date ≡ true
covers_between from none first date last h k low high = ground arith
covers_between from (some end) first date last h k low high = ground arith

reaches_not :
    (to : Option ℕ) (start date : ℕ)
    → reaches_to to start ≡ false
    → ends_before to date ≡ false
    → date < start
reaches_not none start date h k = cc
reaches_not (some last) start date h k = ground arith

covers-ends_before :
    (from : ℕ) (to : Option ℕ) (date : ℕ) → covers from to date ≡ true → ends_before to date ≡ false
covers-ends_before from none date h = refl
covers-ends_before from (some last) date h = ground arith

∷-first : {A : Type 0} {x y : A} {xs ys : List A} → x ∷ xs ≡ y ∷ ys → x ≡ y
∷-first h = cc

module _ {A : Type 0} (e : Effective A) where
  open e use {version_of, starts, ends}

  abbrev IsInterval : A → Type 0
  IsInterval x = ends_before (ends x) (starts x) ≡ false

  -- What the validators have found of a list of versions.
  abbrev pub AreValid : List A → Type 0
  AreValid xs =
      (validate_effective_versions e xs ≡ ok tt) × All (λ x. validate_interval e x ≡ ok tt) xs

  AreValid→no_overlap : (xs : List A) → AreValid xs → has_overlap e xs ≡ false
  unfolding validate_effective_versions
  AreValid→no_overlap xs h = raise_if-eq-ok _ _ (>>-eq-ok _ _ (>>-eq-ok _ _ h.0).1).1

  ends_before_down :
      (to : Option ℕ) (high low : ℕ)
      → ends_before to high ≡ false
      → low ≤ high
      → ends_before to low ≡ false
  ends_before_down none high low h less = refl
  ends_before_down (some last) high low h less = ground arith

  AreValid→intervals :
      (xs : List A) → All (λ x. validate_interval e x ≡ ok tt) xs → All IsInterval xs
  unfolding validate_interval
  AreValid→intervals [] h = tt
  AreValid→intervals (x ∷ xs) h = (raise_if-eq-ok _ _ h.0, AreValid→intervals xs h.1)

  -- All later versions start after a date that is not after the end of the first one.
  later_start :
      (y : A) (ys : List A) (date : ℕ)
      → has_overlap e (y ∷ ys) ≡ false
      → All IsInterval ys
      → ends_before (ends y) date ≡ false
      → All (λ z. date < starts z) ys
  later_start y [] date h all k = tt
  later_start y (z ∷ zs) date h all k =
      let parts = or_false (reaches e y z) (has_overlap e (z ∷ zs)) h in
      let less = reaches_not (ends y) (starts z) date parts.0 k in
      (
        less,
        later_start z zs date parts.1 all.1
            (ends_before_down (ends z) (starts z) date all.0 (omega arith)),
      )

  none_later :
      (date : ℕ) (zs : List A)
      → All (λ z. date < starts z) zs
      → keep_if (is_effective e date) zs ≡ []
  none_later date [] h = refl
  none_later date (z ∷ zs) h = let less = h.0 in rw (none_later date zs h.1) (ground arith)

  no_overlap_later :
      (y : A) (ys : List A) → has_overlap e (y ∷ ys) ≡ false → has_overlap e ys ≡ false
  no_overlap_later y [] h = refl
  no_overlap_later y (z ∷ zs) h = (or_false (reaches e y z) (has_overlap e (z ∷ zs)) h).1

  none_after :
      (date : ℕ) (y : A) (ys : List A)
      → has_overlap e (y ∷ ys) ≡ false
      → All IsInterval ys
      → is_effective e date y ≡ true
      → All (λ z. date < starts z) ys
  none_after date y ys h all covered =
      later_start y ys date h all (covers-ends_before (starts y) (ends y) date covered)

  -- A version of a valid list that covers a date is the only one.
  matches-eq :
      (date : ℕ) (x : A) (xs : List A)
      → has_overlap e xs ≡ false
      → All IsInterval xs
      → IsIn x xs
      → is_effective e date x ≡ true
      → matches e date xs ≡ x ∷ []
  matches-eq date x [] h all found covered = elim found [ ]
  matches-eq date x (y ∷ ys) h all (inl same) covered =
      let covers_y = subst (λ z. is_effective e date z ≡ true) same covered in
      rw (covers_y, none_later date ys (none_after date y ys h all.1 covers_y))
        (ap (λ z. z ∷ []) (sym same))
  matches-eq date x (y ∷ ys) h all (inr later) covered = elim (Bool-cases (is_effective e date y)) [
    | inl before ↦
        let less =
          All-IsIn (λ z. date < starts z) x ys (none_after date y ys h all.1 before) later in
        absurd (ground arith)
    | inr other ↦ rw other (matches-eq date x ys (no_overlap_later y ys h) all.1 later covered)
  ]

  matches→IsIn :
      (date : ℕ) (x : A) (rest xs : List A)
      → matches e date xs ≡ x ∷ rest
      → IsIn x xs × (is_effective e date x ≡ true)
  matches→IsIn date x rest [] h = cc
  matches→IsIn date x rest (y ∷ ys) h = elim (Bool-cases (is_effective e date y)) [
    | inl covered ↦
        let same : y ≡ x = ∷-first (rw covered at h) in
        (inl (sym same), subst (λ z. is_effective e date z ≡ true) same covered)
    | inr other ↦
        let found : IsIn x ys × (is_effective e date x ≡ true) =
          matches→IsIn date x rest ys (rw other at h) in
        (inr (found.0), found.1)
  ]

  only_match-inversion : (x : A) (xs : List A) → only_match e xs ≡ ok x → xs ≡ x ∷ []
  only_match-inversion x [] h = cc
  only_match-inversion x (y ∷ []) h = ap (λ z. z ∷ []) (ok_injective h)
  only_match-inversion x (y ∷ z ∷ zs) h = cc

  optional_match-inversion :
      (early : Result ConfigurationError Bool) (x : A) (xs : List A)
      → optional_match e early xs ≡ ok (some x)
      → xs ≡ x ∷ []
  optional_match-inversion (err a) x [] h = cc
  optional_match-inversion (ok true) x [] h = cc
  optional_match-inversion (ok false) x [] h = cc
  optional_match-inversion early x (y ∷ []) h = ap (λ z. z ∷ []) (some_injective (ok_injective h))
  optional_match-inversion early x (y ∷ z ∷ zs) h = cc

  matches_of_valid :
      (date : ℕ) (x : A) (xs : List A)
      → AreValid xs
      → IsIn x xs × (is_effective e date x ≡ true)
      → matches e date xs ≡ x ∷ []
  matches_of_valid date x xs h found =
      matches-eq date x xs (AreValid→no_overlap xs h) (AreValid→intervals xs h.1) found.0 found.1

  -- Of validated versions, `_resolve_effective` returns a version for a date exactly when it is one
  -- of them and covers the date.
  pub resolve_effective_iff :
      (xs : List A) (date : ℕ) (x : A)
      → AreValid xs
      → (resolve_effective e xs date ≡ ok x) ↔ (IsIn x xs × (is_effective e date x ≡ true))
  unfolding resolve_effective
  resolve_effective_iff xs date x h = (
    λ k. matches→IsIn date x [] xs (only_match-inversion x (matches e date xs) k),
    λ found. rw (matches_of_valid date x xs h found) refl,
  )

  -- Of validated versions, `_resolve_optional` returns a version for a date exactly when
  -- it is one of them and covers the date.
  pub resolve_optional_iff :
      (xs : List A) (date : ℕ) (x : A)
      → AreValid xs
      → (resolve_optional e xs date ≡ ok (some x)) ↔ (IsIn x xs × (is_effective e date x ≡ true))
  unfolding resolve_optional
  resolve_optional_iff xs date x h = (
    λ k.
        matches→IsIn date x [] xs
          (optional_match-inversion (starts_before e date xs) x (matches e date xs) k),
    λ found. rw (matches_of_valid date x xs h found) refl,
  )
