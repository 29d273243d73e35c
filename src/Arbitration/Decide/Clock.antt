-- ===== src/Arbitration/Decide/Clock.antt =====
-- A clock of arbitration/engine.py that is decided: its instant, its writes and its results.
use mini_lakehouse.Common.{
  ℕ, ◌≡◌, sym, ap, subst, inl, inr, false, not, List, [], ◌∷◌, ◌++◌, arith, Option-cases, ◌==◌, any,
  All, keep_if, ok, >>=-eq-ok, >>-eq-ok, ok_injective, drop, raise_if, raise_if-eq-ok, or_false,
}
use mini_lakehouse.Common.Sort.{sorted, All-sorted}
use mini_lakehouse.Common.Writes.{find_last-All, All-take, All-append}
use mini_lakehouse.Candidate.{BaselineCandidate, name_id}
use mini_lakehouse.Arbitration.{ArbitrationPolicy, CandidateArbitration, mixed_clocks}
use mini_lakehouse.Arbitration.Engine.{
  DecisionClock, Selection, ArbitratorState, Entrant, Contest, Decision, clock_of, same_clock,
  rule_for, contend, crown, pass_over, remember, symbols_of, by_merit, by_place,
}
use mini_lakehouse.Arbitration.Decide.{
  look_up, look_up_all, enter_all, contend_all, check_clock, chosen_of, verdicts, decide,
}
use mini_lakehouse.Arbitration.Decide.Inversion.{decide-eq-ok, turn_of}
use mini_lakehouse.Arbitration.Decide.Cooldown.{
  IsFree, KeepsCooldown, contend_all-IsFree, state_after-KeepsCooldown,
}
use mini_lakehouse.Arbitration.Decide.Selected.{
  HasWrite, IsGood, IsSound, IsSoundResult, remember-HasWrite, contend-IsSound, crown-IsSound,
  pass_over-IsSound,
}

-- The candidates of a clock are at its instant.
module _ (policy_digest : ArbitrationPolicy → ℕ) (digest : BaselineCandidate → ℕ)
    (policy : ArbitrationPolicy) where
  same_clock-instant :
      (clock : DecisionClock) (cs : List BaselineCandidate)
      → any (λ c. not (same_clock (clock_of c) clock)) cs ≡ false
      → All (λ c. c.decision_at ≡ clock.decision_at) cs
  same_clock-instant clock [] h = tt
  same_clock-instant clock (c ∷ cs) h =
      let (same, later) = or_false (not (same_clock (clock_of c) clock)) _ h in
      (ground arith, same_clock-instant clock cs later)

  check_clock-instant :
      (before : ArbitratorState) (cs : List BaselineCandidate) (clock : DecisionClock)
      → check_clock policy_digest digest policy before cs clock ≡ ok tt
      → All (λ c. c.decision_at ≡ clock.decision_at) cs
  unfolding check_clock
  check_clock-instant before cs clock h =
      let (same, _) =
        >>-eq-ok (raise_if (any (λ c. not (same_clock (clock_of c) clock)) cs) mixed_clocks) _ h in
      same_clock-instant clock cs (raise_if-eq-ok _ mixed_clocks same)

  enter_all-instant :
      (now : ℕ) (cs : List BaselineCandidate) (es : List Entrant)
      → enter_all policy_digest digest policy cs ≡ ok es
      → All (λ c. c.decision_at ≡ now) cs
      → All (λ e. e.candidate.decision_at ≡ now) es
  unfolding enter_all
  enter_all-instant now [] es h k = subst (All _) (ok_injective h) tt
  enter_all-instant now (c ∷ cs) es h k =
      let (rest, entered, h1) = >>=-eq-ok (enter_all policy_digest digest policy cs) _ h in
      elim (Option-cases (rule_for policy.rules (name_id c.strategy))) [
        | inl missing ↦ absurd (ground arith)
        | inr (r, hit) ↦
            subst (All (λ e. e.candidate.decision_at ≡ now)) (ok_injective (rw hit at h1))
              (k.0, enter_all-instant now cs rest entered k.1)
      ]

  module _ (now : ℕ) (log writes : List Selection) where
    contend_all-IsSound :
        (es : List Entrant) (ss : List ℕ)
        → All
            (IsSound policy.cooldown_seconds now log writes)
            (contend_all policy_digest digest policy now log es ss).0
    unfolding contend_all
    contend_all-IsSound es [] = tt
    contend_all-IsSound es (s ∷ ss) =
        let items = keep_if (λ e. e.candidate.symbol == s) es in
        All-append (IsSound policy.cooldown_seconds now log writes)
          (contend policy.cooldown_seconds now log s items).0
          (contend_all policy_digest digest policy now log es ss).0
          (contend-IsSound policy.cooldown_seconds now log writes s items)
          (contend_all-IsSound es ss)

    look_up_all-IsSound :
        (ds : List Decision) (es : List Entrant) (results : List CandidateArbitration)
        → All (IsSound policy.cooldown_seconds now log writes) ds
        → look_up_all policy_digest digest policy ds es ≡ ok results
        → All (IsSoundResult policy.cooldown_seconds now log writes) results
    unfolding look_up_all
    look_up_all-IsSound ds [] results sound h = subst (All _) (ok_injective h) tt
    look_up_all-IsSound ds (e ∷ es) results sound h =
        let (rest, found, h1) = >>=-eq-ok (look_up_all policy_digest digest policy ds es) _ h in
        elim (Option-cases (look_up ds e.digest)) [
          | inl missing ↦ absurd (ground arith)
          | inr (d, hit) ↦
              subst (All (IsSoundResult policy.cooldown_seconds now log writes))
                (ok_injective (rw hit at h1))
                (
                  find_last-All (IsSound policy.cooldown_seconds now log writes)
                      (λ x. x.key == e.digest) ds d sound hit,
                  look_up_all-IsSound ds es rest sound found,
                )
        ]

    crowned-IsGood :
        (cs : List Contest)
        → All (IsFree policy_digest digest policy now log) cs
        → All (λ c. HasWrite now writes c.winner.candidate.symbol) cs
        → All
            (λ c.
              IsGood policy.cooldown_seconds now log writes c.winner.candidate.decision_at
                c.winner.candidate.symbol)
            cs
    crowned-IsGood [] h k = tt
    crowned-IsGood (c ∷ cs) h k = ((h.0.0, h.0.1, k.0), crowned-IsGood cs h.1 k.1)

  -- The writes of a clock for its chosen contests.
  abbrev pub writes_of : DecisionClock → List Contest → List Selection
  writes_of clock contests =
      remember clock.decision_at (chosen_of policy_digest digest policy contests)

  verdicts-IsSound :
      (now : ℕ) (log : List Selection) (ds : List Decision) (contests : List Contest)
      → (let writes = remember now (chosen_of policy_digest digest policy contests) in
          All (IsSound policy.cooldown_seconds now log writes) ds
          → All (IsFree policy_digest digest policy now log) contests
          → All
              (IsSound policy.cooldown_seconds now log writes)
              (verdicts policy_digest digest policy ds contests))
  verdicts-IsSound now log ds contests sound free =
      let crowned = chosen_of policy_digest digest policy contests in
      let writes = remember now crowned in
      let over = drop policy.maximum_selections_per_clock (sorted by_merit contests) in
      let good =
        crowned-IsGood now log writes crowned
          (All-take _ policy.maximum_selections_per_clock (sorted by_merit contests)
            (All-sorted _ by_merit contests free))
          (remember-HasWrite now crowned) in
      All-append _ ds (crown 0 crowned ++ pass_over over) sound (
        All-append _ (crown 0 crowned) (pass_over over)
          (crown-IsSound policy.cooldown_seconds now log writes 0 crowned good)
          (pass_over-IsSound policy.cooldown_seconds now log writes over))

  -- What a decided clock shows: its instant and its writes, with which every selected result is
  -- good, and of every symbol the cooldown that the writes keep.
  pub record Outcome (before later : ArbitratorState) (results : List CandidateArbitration)
      : Type 0 where
    pub clock : DecisionClock
    pub writes : List Selection
    pub written : later.last_selected ≡ before.last_selected ++ writes
    pub kept : (s : ℕ) → KeepsCooldown policy_digest digest policy before later clock s
    pub good :
        All
          (IsSoundResult policy.cooldown_seconds clock.decision_at before.last_selected writes)
          results

  pub decide-Outcome :
      (before later : ArbitratorState) (cs : List BaselineCandidate)
      (results : List CandidateArbitration)
      → decide policy_digest digest policy before cs ≡ ok (results, later)
      → Outcome before later results
  decide-Outcome before later cs results h =
      let d = decide-eq-ok policy_digest digest policy before cs results later h in
      let now = d.clock.decision_at in
      let log = before.last_selected in
      let turn = turn_of policy_digest digest policy before d.clock d.entrants cs in
      let writes = writes_of d.clock turn.1 in
      let at =
        enter_all-instant now cs d.entrants d.entered
          (check_clock-instant before cs d.clock d.checked) in
      let free =
        contend_all-IsFree policy_digest digest policy now log d.entrants (symbols_of cs) at in
      let sound =
        verdicts-IsSound now log turn.0 turn.1
          (contend_all-IsSound now log writes d.entrants (symbols_of cs)) free in
      record {
        clock = d.clock;
        writes = writes;
        written = ap (λ st. st.last_selected) d.result;
        kept = λ s.
            subst (λ st. KeepsCooldown policy_digest digest policy before st d.clock s)
              (sym d.result)
              (state_after-KeepsCooldown policy_digest digest policy before d.clock turn.1 s free);
        good =
            look_up_all-IsSound now log writes _ (sorted by_place d.entrants) results sound d.found;
      }
