-- ===== src/Arbitration/Decide/Spacing.antt =====
-- The instants at which a run of arbitration/engine.py selects a symbol.
use mini_lakehouse.Common.{
  ℕ, ◌+◌, ◌*◌, ◌≤◌, ◌≡◌, refl, sym, subst, inl, inr, Bool, true, false, ◌&&◌, Option, none, some,
  List, [], ◌∷◌, ◌++◌, arith, Bool-cases, ◌==◌, All, sum_of, ok, >>=-eq-ok, >>-eq-ok, ok_injective,
  raise_if, is_empty, length, if◌then◌else◌, keep_if,
}
use mini_lakehouse.Common.Writes.{find_last-append}
use mini_lakehouse.Candidate.{BaselineCandidate}
use mini_lakehouse.Arbitration.{ArbitrationPolicy, CandidateArbitration, no_candidates}
use mini_lakehouse.Arbitration.Engine.{
  DecisionClock, Selection, ArbitratorState, new_arbitrator, last_of, clock_of, same_clock,
}
use mini_lakehouse.Arbitration.Decide.{decide, decide_all, arbitrate_candidates, clocks_of}
use mini_lakehouse.Arbitration.Decide.Cooldown.{IsRested, KeepsCooldown}
use mini_lakehouse.Arbitration.Decide.Capacity.{chosen}
use mini_lakehouse.Arbitration.Decide.Distinct.{decide-one_per_symbol}
use mini_lakehouse.Arbitration.Decide.Selected
use mini_lakehouse.Arbitration.Decide.Clock.{decide-Outcome}

-- The decision instants of the selected results of a symbol, in the order of the results.
abbrev pub instants_of : ℕ → List CandidateArbitration → List ℕ
instants_of s [] = []
instants_of s (r ∷ rs) =
    let later = instants_of s rs in
    if r.is_selected && r.symbol == s then r.decision_at ∷ later else later

-- Each instant is at least `cooldown` seconds before every later one.
abbrev pub IsSpaced : ℕ → List ℕ → Type 0
IsSpaced cooldown [] = Unit
IsSpaced cooldown (t ∷ ts) = All (λ u. t + cooldown * 1000000 ≤ u) ts × IsSpaced cooldown ts

instants_of-append :
    (s : ℕ) (rs qs : List CandidateArbitration)
    → instants_of s (rs ++ qs) ≡ instants_of s rs ++ instants_of s qs
instants_of-append s [] qs = refl
instants_of-append s (r ∷ rs) qs = elim (Bool-cases (r.is_selected && r.symbol == s)) [
  | inl counted ↦ rw (counted, instants_of-append s rs qs) refl
  | inr other ↦ rw (other, instants_of-append s rs qs) refl
]

-- The results of one clock select a symbol not at all, or once, well.
module _ (cooldown now : ℕ) (log writes : List Selection) (s : ℕ) where
  one-IsGood :
      (r : CandidateArbitration) (rs : List CandidateArbitration) (b : Bool)
      → r.is_selected ≡ b
      → Selected.WhenTrue b (Selected.IsGood cooldown now log writes r.decision_at r.symbol)
      → All (λ at. Selected.IsGood cooldown now log writes at s) (instants_of s rs)
      → All (λ at. Selected.IsGood cooldown now log writes at s) (instants_of s (r ∷ rs))
  one-IsGood r rs false other good rest = rw other rest
  one-IsGood r rs true is_one good rest = elim (Bool-cases (r.symbol == s)) [
    | inr other ↦ rw (is_one, other) rest
    | inl same ↦
        let e : r.symbol ≡ s = ground arith in
        rw (is_one, same)
          (subst (λ k. Selected.IsGood cooldown now log writes r.decision_at k) e good, rest)
  ]

  instants_of-IsGood :
      (rs : List CandidateArbitration)
      → All (Selected.IsSoundResult cooldown now log writes) rs
      → All (λ at. Selected.IsGood cooldown now log writes at s) (instants_of s rs)
  instants_of-IsGood [] h = tt
  instants_of-IsGood (r ∷ rs) h = one-IsGood r rs r.is_selected refl h.0 (instants_of-IsGood rs h.1)

instants_of-length :
    (s : ℕ) (rs : List CandidateArbitration)
    → length (instants_of s rs) ≡ sum_of (chosen (λ t. t == s)) rs
instants_of-length s [] = refl
instants_of-length s (r ∷ rs) = elim (Bool-cases (r.is_selected && r.symbol == s)) [
  | inl counted ↦ rw counted (omega (arith, instants_of-length s rs))
  | inr other ↦ rw other (omega (arith, instants_of-length s rs))
]

-- Instants after a clock at `now` have rested from what that clock had seen as rested.
IsRested-later :
    (cooldown now u : ℕ) (previous : Option Selection)
    → now ≤ u
    → IsRested cooldown now previous
    → IsRested cooldown u previous
IsRested-later cooldown now u none le h = tt
IsRested-later cooldown now u (some p) le h = omega arith

module _ (cooldown now : ℕ) (previous : Option Selection) where
  All-later :
      (ys : List ℕ)
      → IsRested cooldown now previous
      → All (λ u. now + cooldown * 1000000 ≤ u) ys
      → All (λ u. IsRested cooldown u previous) ys
  All-later [] r h = tt
  All-later (u ∷ ys) r h =
      let after = h.0 in
      (IsRested-later cooldown now u previous (omega arith) r, All-later ys r h.1)

  after_write :
      (x : Selection) (ys : List ℕ)
      → x.decided_at ≡ now
      → All (λ u. IsRested cooldown u (some x)) ys
      → All (λ u. now + cooldown * 1000000 ≤ u) ys
  after_write x [] e h = tt
  after_write x (u ∷ ys) e h = let after = h.0 in (omega arith, after_write x ys e h.1)

-- The instants have rested from the previous selection, and are spaced.
abbrev IsSpacedFrom : ℕ → Option Selection → List ℕ → Type 0
IsSpacedFrom cooldown previous ts =
    All (λ u. IsRested cooldown u previous) ts × IsSpaced cooldown ts

module _ (policy_digest : ArbitrationPolicy → ℕ) (digest : BaselineCandidate → ℕ)
    (policy : ArbitrationPolicy) (s : ℕ) where
  -- The instants of one clock come before those of the clocks after it.
  clock-IsSpacedFrom :
      (before later : ArbitratorState) (clock : DecisionClock) (writes : List Selection)
      (xs ys : List ℕ)
      → length xs ≤ 1
      → later.last_selected ≡ before.last_selected ++ writes
      → KeepsCooldown policy_digest digest policy before later clock s
      → All
          (λ at.
            Selected.IsGood policy.cooldown_seconds clock.decision_at before.last_selected writes at
              s)
          xs
      → IsSpacedFrom policy.cooldown_seconds (last_of later.last_selected s) ys
      → IsSpacedFrom policy.cooldown_seconds (last_of before.last_selected s) (xs ++ ys)
  clock-IsSpacedFrom before later clock writes [] ys few written (inl same) good h =
      subst (λ p. IsSpacedFrom policy.cooldown_seconds p ys) same h
  clock-IsSpacedFrom before later clock writes [] ys few written (inr (x, found, at, rested)) good
        h =
      let now = clock.decision_at in
      let (far, spaced) = subst (λ p. IsSpacedFrom policy.cooldown_seconds p ys) found h in
      let after = after_write policy.cooldown_seconds now none x ys at far in
      (
        All-later policy.cooldown_seconds now (last_of before.last_selected s) ys rested after,
        spaced,
      )
  clock-IsSpacedFrom before later clock writes (t ∷ []) ys few written kept
        ((at, rested, (x, found, x_at)), _) h =
      let now = clock.decision_at in
      let previous = last_of before.last_selected s in
      let read : last_of later.last_selected s ≡ some x =
        rw written
          (rw (find_last-append (λ y. y.symbol == s) before.last_selected writes, found) refl) in
      let (far, spaced) = subst (λ p. IsSpacedFrom policy.cooldown_seconds p ys) read h in
      let after = after_write policy.cooldown_seconds now none x ys x_at far in
      subst (λ k. IsSpacedFrom policy.cooldown_seconds previous (k ∷ ys)) (sym at)
        ((rested, All-later policy.cooldown_seconds now previous ys rested after), (after, spaced))
  clock-IsSpacedFrom before later clock writes (t ∷ u ∷ xs) ys few written kept good h =
      absurd (omega arith)

  decide_all-IsSpacedFrom :
      (before : ArbitratorState) (cs : List BaselineCandidate) (clocks : List DecisionClock)
      (results : List CandidateArbitration)
      → decide_all policy_digest digest policy before cs clocks ≡ ok results
      → IsSpacedFrom policy.cooldown_seconds
          (last_of before.last_selected s)
          (instants_of s results)
  unfolding decide_all
  decide_all-IsSpacedFrom before cs [] results h =
      subst
        (λ rs.
          IsSpacedFrom policy.cooldown_seconds (last_of before.last_selected s) (instants_of s rs))
        (ok_injective h) (tt, tt)
  decide_all-IsSpacedFrom before cs (clock ∷ clocks) results h =
      let here = keep_if (λ c. same_clock (clock_of c) clock) cs in
      let ((now, next), decided, h1) =
        >>=-eq-ok (decide policy_digest digest policy before here) _ h in
      let (rest, others, h2) =
        >>=-eq-ok (decide_all policy_digest digest policy next cs clocks) _ h1 in
      let o = decide-Outcome policy_digest digest policy before next here now decided in
      let once = decide-one_per_symbol s policy_digest digest policy before next here now decided in
      let later = decide_all-IsSpacedFrom next cs clocks rest others in
      let good =
        instants_of-IsGood policy.cooldown_seconds o.clock.decision_at before.last_selected o.writes
          s now o.good in
      let first =
        clock-IsSpacedFrom before next o.clock o.writes (instants_of s now) (instants_of s rest)
          (rw (instants_of-length s now) once) o.written (o.kept s) good later in
      subst
        (λ rs.
          IsSpacedFrom policy.cooldown_seconds (last_of before.last_selected s) (instants_of s rs))
        (ok_injective h2) (rw (instants_of-append s now rest) first)

  -- When candidates are arbitrated without an error, the results that select a symbol, in their
  -- order, are at decision instants each at least the policy's cooldown after every one before.
  pub arbitrate_candidates-IsSpaced :
      (cs : List BaselineCandidate) (results : List CandidateArbitration)
      → arbitrate_candidates policy_digest digest policy cs ≡ ok results
      → IsSpaced policy.cooldown_seconds (instants_of s results)
  unfolding arbitrate_candidates
  arbitrate_candidates-IsSpaced cs results h =
      let (_, h1) = >>-eq-ok (raise_if (is_empty cs) no_candidates) _ h in
      (decide_all-IsSpacedFrom new_arbitrator cs (clocks_of policy_digest digest policy cs) results
        h1).1
