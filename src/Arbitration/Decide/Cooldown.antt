-- ===== src/Arbitration/Decide/Cooldown.antt =====
-- What a clock of arbitration/engine.py does to the last selection of each symbol.
use mini_lakehouse.Common.{
  ℕ, ◌+◌, ◌*◌, ◌≤◌, ◌≡◌, refl, ◌⊎◌, inl, inr, Option, none, some, List, [], ◌∷◌, arith, Bool-cases,
  Option-cases, ◌==◌, All, keep_if,
}
use mini_lakehouse.Common.Sort.{sorted, All-sorted}
use mini_lakehouse.Common.Writes.{
  find_last-append, find_last-holds, find_last-All, All-take, All-append,
}
use mini_lakehouse.Candidate.{BaselineCandidate}
use mini_lakehouse.Arbitration.{ArbitrationPolicy}
use mini_lakehouse.Arbitration.Engine.{
  DecisionClock, Selection, ArbitratorState, Entrant, Contest, cooling, last_of, eligible, barred,
  contest_of, contend, by_rank, by_merit, remember,
}
use mini_lakehouse.Arbitration.Decide.{contend_all, chosen_of, state_after}

-- The previous selection, if any, is at least `cooldown` seconds old.
abbrev pub IsRested : ℕ → ℕ → Option Selection → Type 0
IsRested cooldown now none = Unit
IsRested cooldown now (some previous) = previous.decided_at + cooldown * 1000000 ≤ now

cooling-IsRested :
    (cooldown now : ℕ) (previous : Option Selection)
    → cooling cooldown now previous ≡ none
    → IsRested cooldown now previous
cooling-IsRested cooldown now none h = tt
cooling-IsRested cooldown now (some p) h = ground arith

pub All-eligible : (P : Entrant → Type 0) (es : List Entrant) → All P es → All P (eligible es)
All-eligible P [] h = tt
All-eligible P (e ∷ es) h = elim (Option-cases (barred e)) [
  | inl free ↦ rw (free, eligible) (h.0, All-eligible P es h.1)
  | inr (r, stopped) ↦ rw (stopped, eligible) (All-eligible P es h.1)
]

pub contest_of-All :
    (P : Entrant → Type 0) (es : List Entrant) → All P es → All (λ c. P c.winner) (contest_of es)
contest_of-All P [] h = tt
contest_of-All P (e ∷ es) h = (h.0, tt)

pub symbols_kept :
    (s : ℕ) (es : List Entrant)
    → All (λ e. e.candidate.symbol ≡ s) (keep_if (λ e. e.candidate.symbol == s) es)
symbols_kept s [] = tt
symbols_kept s (e ∷ es) = elim (Bool-cases (e.candidate.symbol == s)) [
  | inl same ↦ rw same (ground arith, symbols_kept s es)
  | inr other ↦ rw other (symbols_kept s es)
]

-- A candidate of the symbol and the clock.
abbrev IsOf : ℕ → ℕ → Entrant → Type 0
IsOf s now e = (e.candidate.symbol ≡ s) × (e.candidate.decision_at ≡ now)

kept-IsOf :
    (s now : ℕ) (es : List Entrant)
    → All (λ e. e.candidate.decision_at ≡ now) es
    → All (IsOf s now) (keep_if (λ e. e.candidate.symbol == s) es)
kept-IsOf s now [] h = tt
kept-IsOf s now (e ∷ es) h = elim (Bool-cases (e.candidate.symbol == s)) [
  | inl same ↦ rw same ((ground arith, h.0), kept-IsOf s now es h.1)
  | inr other ↦ rw other (kept-IsOf s now es h.1)
]

module _ (policy_digest : ArbitrationPolicy → ℕ) (digest : BaselineCandidate → ℕ)
    (policy : ArbitrationPolicy) where
  -- A candidate of the clock whose symbol has rested.
  abbrev pub IsEligible : ℕ → List Selection → Entrant → Type 0
  IsEligible now log e =
      (e.candidate.decision_at ≡ now)
      × IsRested policy.cooldown_seconds now (last_of log e.candidate.symbol)

  abbrev pub IsFree : ℕ → List Selection → Contest → Type 0
  IsFree now log c = IsEligible now log c.winner

  contend-IsFree :
      (now : ℕ) (log : List Selection) (s : ℕ) (es : List Entrant)
      → All (IsOf s now) es
      → All (IsFree now log) (contend policy.cooldown_seconds now log s es).1
  contend-IsFree now log s es h =
      elim (Option-cases (cooling policy.cooldown_seconds now (last_of log s))) [
        | inr (previous, hot) ↦ rw (hot, contend) tt
        | inl rested ↦
            let free : All (IsEligible now log) es = every es h (cooling-IsRested _ _ _ rested) in
            rw (rested, contend)
              (contest_of-All (IsEligible now log) (sorted by_rank (eligible es))
                (All-sorted _ by_rank (eligible es) (All-eligible _ es free)))
      ]
    where
      every :
          (fs : List Entrant)
          → All (IsOf s now) fs
          → IsRested policy.cooldown_seconds now (last_of log s)
          → All (IsEligible now log) fs
      every [] k r = tt
      every (f ∷ fs) k r = ((k.0.1, rw k.0.0 r), every fs k.1 r)

  pub contend_all-IsFree :
      (now : ℕ) (log : List Selection) (es : List Entrant) (ss : List ℕ)
      → All (λ e. e.candidate.decision_at ≡ now) es
      → All (IsFree now log) (contend_all policy_digest digest policy now log es ss).1
  unfolding contend_all
  contend_all-IsFree now log es [] h = tt
  contend_all-IsFree now log es (s ∷ ss) h =
      All-append (IsFree now log) _ _ (contend-IsFree now log s _ (kept-IsOf s now es h))
        (contend_all-IsFree now log es ss h)

  -- A write of this clock.
  abbrev IsWritten : ℕ → List Selection → Selection → Type 0
  IsWritten now log x =
      (x.decided_at ≡ now) × IsRested policy.cooldown_seconds now (last_of log x.symbol)

  remember-IsWritten :
      (now : ℕ) (log : List Selection) (cs : List Contest)
      → All (IsFree now log) cs
      → All (IsWritten now log) (remember now cs)
  remember-IsWritten now log [] h = tt
  remember-IsWritten now log (c ∷ cs) h = ((refl, h.0.1), remember-IsWritten now log cs h.1)

  -- What a clock does to the last selection of a symbol: it leaves it, or it puts itself there
  -- after the cooldown.
  abbrev pub KeepsCooldown : ArbitratorState → ArbitratorState → DecisionClock → ℕ → Type 0
  KeepsCooldown before later clock s =
      (last_of later.last_selected s ≡ last_of before.last_selected s)
      ⊎ ((x : Selection) × (last_of later.last_selected s ≡ some x)
          × (x.decided_at ≡ clock.decision_at)
          × IsRested policy.cooldown_seconds clock.decision_at (last_of before.last_selected s))

  pub state_after-KeepsCooldown :
      (state : ArbitratorState) (clock : DecisionClock) (cs : List Contest) (s : ℕ)
      → All (IsFree clock.decision_at state.last_selected) cs
      → KeepsCooldown state (state_after policy_digest digest policy state clock cs) clock s
  state_after-KeepsCooldown state clock cs s h =
      let now = clock.decision_at in
      let log = state.last_selected in
      let writes = remember now (chosen_of policy_digest digest policy cs) in
      let written = remember-IsWritten now log (chosen_of policy_digest digest policy cs) (
        All-take (IsFree now log) policy.maximum_selections_per_clock (sorted by_merit cs)
          (All-sorted (IsFree now log) by_merit cs h)) in
      elim (Option-cases (last_of writes s)) [
        | inl none_new ↦ inl (rw (find_last-append (λ x. x.symbol == s) log writes, none_new))
        | inr (x, new) ↦
            let (at, rested) =
              find_last-All (IsWritten now log) (λ y. y.symbol == s) writes x written new in
            let hit = find_last-holds (λ y. y.symbol == s) writes x new in
            let same : x.symbol ≡ s = ground arith in
            inr (
              x,
              rw (find_last-append (λ y. y.symbol == s) log writes, new),
              at,
              rw (← same) rested,
            )
      ]
