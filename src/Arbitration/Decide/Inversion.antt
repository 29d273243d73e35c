-- ===== src/Arbitration/Decide/Inversion.antt =====
-- What a clock that `decide` of arbitration/engine.py accepted has done.
use mini_lakehouse.Common.{ℕ, ◌≡◌, List, ok, >>=-eq-ok, >>-eq-ok, ok_injective, ap, subst, sym}
use mini_lakehouse.Common.Sort.{sorted}
use mini_lakehouse.Candidate.{BaselineCandidate}
use mini_lakehouse.Arbitration.{ArbitrationPolicy, CandidateArbitration}
use mini_lakehouse.Arbitration.Engine.{
  DecisionClock, ArbitratorState, Entrant, Contest, Decision, symbols_of, by_place,
}
use mini_lakehouse.Arbitration.Decide.{
  first_clock, check_clock, enter_all, contend_all, look_up_all, verdicts, state_after, decide,
  conclude,
}

module _ (policy_digest : ArbitrationPolicy → ℕ) (digest : BaselineCandidate → ℕ)
    (policy : ArbitrationPolicy) where
  -- The decisions and the contests of the loop over the symbols.
  abbrev pub turn_of :
      ArbitratorState
      → DecisionClock
      → List Entrant
      → List BaselineCandidate
      → List Decision × List Contest
  turn_of before clock es cs =
      contend_all policy_digest digest policy clock.decision_at before.last_selected es
        (symbols_of cs)

  pub record Decided (before : ArbitratorState) (cs : List BaselineCandidate)
      (results : List CandidateArbitration) (later : ArbitratorState) : Type 0 where
    pub clock : DecisionClock
    pub checked : check_clock policy_digest digest policy before cs clock ≡ ok tt
    pub entrants : List Entrant
    pub entered : enter_all policy_digest digest policy cs ≡ ok entrants
    pub found :
        look_up_all policy_digest digest policy
          (verdicts policy_digest digest policy
            (turn_of before clock entrants cs).0
            (turn_of before clock entrants cs).1)
          (sorted by_place entrants)
        ≡ ok results
    pub result :
        later
        ≡ state_after policy_digest digest policy before clock (turn_of before clock entrants cs).1

  -- The end of a clock.
  abbrev Concluded :
      ArbitratorState
      → DecisionClock
      → List Entrant
      → List Decision × List Contest
      → List CandidateArbitration
      → ArbitratorState
      → Type 0
  Concluded before clock es turn results later =
      (look_up_all policy_digest digest policy (verdicts policy_digest digest policy turn.0 turn.1)
          (sorted by_place es)
        ≡ ok results)
      × (later ≡ state_after policy_digest digest policy before clock turn.1)

  conclude-eq-ok :
      (before : ArbitratorState) (clock : DecisionClock) (es : List Entrant)
      (turn : List Decision × List Contest) (results : List CandidateArbitration)
      (later : ArbitratorState)
      → conclude policy_digest digest policy before clock es turn ≡ ok (results, later)
      → Concluded before clock es turn results later
  unfolding conclude
  conclude-eq-ok before clock es (ds, contests) results later h =
      let (rs, found, e) =
        >>=-eq-ok
          (look_up_all policy_digest digest policy
            (verdicts policy_digest digest policy ds contests) (sorted by_place es))
          _ h in
      let both = ok_injective e in
      (
        subst
            (λ r.
              look_up_all policy_digest digest policy
                (verdicts policy_digest digest policy ds contests) (sorted by_place es)
              ≡ ok r)
            (ap (λ (p : List CandidateArbitration × ArbitratorState). p.0) both) found,
        sym (ap (λ (p : List CandidateArbitration × ArbitratorState). p.1) both),
      )

  pub decide-eq-ok :
      (before : ArbitratorState) (cs : List BaselineCandidate) (results : List CandidateArbitration)
      (later : ArbitratorState)
      → decide policy_digest digest policy before cs ≡ ok (results, later)
      → Decided before cs results later
  unfolding decide
  decide-eq-ok before cs results later h =
      let (clock, first, h1) = >>=-eq-ok (first_clock cs) _ h in
      let (checked, h2) = >>-eq-ok (check_clock policy_digest digest policy before cs clock) _ h1 in
      let (es, entered, h3) = >>=-eq-ok (enter_all policy_digest digest policy cs) _ h2 in
      let turn =
        contend_all policy_digest digest policy clock.decision_at before.last_selected es
          (symbols_of cs) in
      let end = conclude-eq-ok before clock es turn results later h3 in
      record {
        clock = clock;
        checked = checked;
        entrants = es;
        entered = entered;
        found = end.0;
        result = end.1;
      }
