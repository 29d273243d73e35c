-- ===== src/Arbitration/Decide/Selected.antt =====
-- What a clock of arbitration/engine.py does for the candidates that it selects.
use mini_lakehouse.Common.{
  ℕ, ◌+◌, ◌≡◌, refl, inl, inr, Bool, true, false, Option, none, some, List, [], ◌∷◌, arith,
  Option-cases, ◌==◌, All,
}
use mini_lakehouse.Common.Writes.{find_last-All, All-append}
use mini_lakehouse.Arbitration.{
  CandidateArbitration, RejectionReason, lower_strategy_priority, clock_capacity, symbol_cooldown,
}
use mini_lakehouse.Arbitration.Engine.{
  Selection, Entrant, Contest, Decision, barred, eligible, screened, reject_all, cooling, last_of,
  contend, crown, pass_over, remember,
}
use mini_lakehouse.Arbitration.Decide.{is_selected_by}
use mini_lakehouse.Arbitration.Decide.Cooldown.{IsRested}

abbrev pub WhenTrue : Bool → Type 0 → Type 0
WhenTrue true P = P
WhenTrue false P = Unit

-- The last write of the symbol is of this clock.
abbrev pub HasWrite : ℕ → List Selection → ℕ → Type 0
HasWrite now writes s = (x : Selection) × (last_of writes s ≡ some x) × (x.decided_at ≡ now)

HasWrite-after :
    (now : ℕ) (w : Selection) (writes : List Selection) (s : ℕ)
    → HasWrite now writes s
    → HasWrite now (w ∷ writes) s
HasWrite-after now w writes s (x, found, at) = (x, rw found refl, at)

remember-now : (now : ℕ) (cs : List Contest) → All (λ x. x.decided_at ≡ now) (remember now cs)
remember-now now [] = tt
remember-now now (c ∷ cs) = (refl, remember-now now cs)

pub remember-HasWrite :
    (now : ℕ) (cs : List Contest)
    → All (λ c. HasWrite now (remember now cs) c.winner.candidate.symbol) cs
remember-HasWrite now [] = tt
remember-HasWrite now (c ∷ cs) = (here, later cs (remember-HasWrite now cs))
  where
    s : ℕ
    s = c.winner.candidate.symbol

    first : Selection
    first = record { symbol = s; decided_at = now; candidate_sha256 = c.winner.digest }

    here : HasWrite now (first ∷ remember now cs) s
    here = elim (Option-cases (last_of (remember now cs) s)) [
      | inl none_later ↦ (first, ground arith, refl)
      | inr (x, found) ↦ HasWrite-after now first (remember now cs) s (
        x,
        found,
        find_last-All (λ y. y.decided_at ≡ now) (λ y. y.symbol == s) (remember now cs) x
            (remember-now now cs) found,
      )
    ]

    later :
        (ds : List Contest)
        → All (λ d. HasWrite now (remember now cs) d.winner.candidate.symbol) ds
        → All (λ d. HasWrite now (first ∷ remember now cs) d.winner.candidate.symbol) ds
    later [] h = tt
    later (d ∷ ds) h =
        (HasWrite-after now first (remember now cs) d.winner.candidate.symbol h.0, later ds h.1)

-- A selection at an instant of a symbol, by a clock that wrote `writes` over `log`.
abbrev pub IsGood : ℕ → ℕ → List Selection → List Selection → ℕ → ℕ → Type 0
IsGood cooldown now log writes at s =
    (at ≡ now) × IsRested cooldown now (last_of log s) × HasWrite now writes s

module _ (cooldown now : ℕ) (log writes : List Selection) where
  abbrev pub IsSound : Decision → Type 0
  IsSound d =
      WhenTrue (is_selected_by d.verdict)
        (IsGood cooldown now log writes d.entrant.candidate.decision_at d.entrant.candidate.symbol)

  abbrev pub IsSoundResult : CandidateArbitration → Type 0
  IsSoundResult r = WhenTrue r.is_selected (IsGood cooldown now log writes r.decision_at r.symbol)

  reject_all-IsSound :
      (r : RejectionReason) (l : Option ℕ) (es : List Entrant) → All IsSound (reject_all r l es)
  reject_all-IsSound r l [] = tt
  reject_all-IsSound r l (e ∷ es) = (tt, reject_all-IsSound r l es)

  screened-IsSound : (es : List Entrant) → All IsSound (screened es)
  screened-IsSound [] = tt
  screened-IsSound (e ∷ es) = elim (Option-cases (barred e)) [
    | inl free ↦ rw (free, screened) (screened-IsSound es)
    | inr (r, stopped) ↦ rw (stopped, screened) (tt, screened-IsSound es)
  ]

  pub contend-IsSound : (s : ℕ) (es : List Entrant) → All IsSound (contend cooldown now log s es).0
  contend-IsSound s es = elim (Option-cases (cooling cooldown now (last_of log s))) [
    | inl rested ↦ rw (rested, contend) (screened-IsSound es)
    | inr (d, hot) ↦
        rw (hot, contend)
          (All-append IsSound (screened es) (reject_all symbol_cooldown (some d) (eligible es))
            (screened-IsSound es) (reject_all-IsSound symbol_cooldown (some d) (eligible es)))
  ]

  pub crown-IsSound :
      (n : ℕ) (cs : List Contest)
      → All
          (λ c.
            IsGood cooldown now log writes c.winner.candidate.decision_at c.winner.candidate.symbol)
          cs
      → All IsSound (crown n cs)
  crown-IsSound n [] h = tt
  crown-IsSound n (c ∷ cs) h = (
    h.0,
    All-append IsSound (reject_all lower_strategy_priority (some c.winner.digest) c.others)
        (crown (n + 1) cs)
        (reject_all-IsSound lower_strategy_priority (some c.winner.digest) c.others)
        (crown-IsSound (n + 1) cs h.1),
  )

  pub pass_over-IsSound : (cs : List Contest) → All IsSound (pass_over cs)
  pass_over-IsSound [] = tt
  pass_over-IsSound (c ∷ cs) =
      All-append IsSound (reject_all clock_capacity none (c.winner ∷ c.others)) (pass_over cs)
        (reject_all-IsSound clock_capacity none (c.winner ∷ c.others)) (pass_over-IsSound cs)
