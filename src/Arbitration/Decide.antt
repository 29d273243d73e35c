-- ===== src/Arbitration/Decide.antt =====
-- `decide` and `arbitrate_candidates` of arbitration/engine.py. An error is raised before any
-- attribute of the arbitrator changes, so it leaves the state as it was.
pub mod Inversion
pub mod Capacity
pub mod Cooldown
pub mod Distinct
pub mod Selected
pub mod Clock
pub mod Spacing
use mini_lakehouse.Common.{
  ℕ, Bool, true, false, not, Option, none, some, List, [], ◌∷◌, ◌++◌, map, ◌==◌, ◌!=◌, any, keep_if,
  length, unique_length, Result, ok, err, ◌>>=◌, ◌>>◌, raise_if, is_empty, take, drop, find_last,
  if◌then◌else◌,
}
use mini_lakehouse.Common.Sort.{sorted}
use mini_lakehouse.Candidate.{BaselineCandidate, name_id}
use mini_lakehouse.Arbitration.{
  ArbitrationError, no_candidates, mixed_clocks, stale_clock, uncovered_date, other_version,
  repeated_candidate, incomplete_matrix, missing_key, RejectionReason, CandidateArbitration,
  ArbitrationRule, ArbitrationPolicy, policy_contains,
}
use mini_lakehouse.Arbitration.Engine.{
  DecisionClock, Selection, ArbitratorState, new_arbitrator, Entrant, Contest, Verdict, selected,
  rejected, clock_of, same_clock, clock_le, is_stale, rule_for, of_symbol, symbols_of,
  is_incomplete, by_merit, by_place, Decision, contend, crown, pass_over, remember,
}

-- What the verdict says of the status, the reason, the priority and the selected candidate.
abbrev pub is_selected_by : Verdict → Bool
is_selected_by (selected n) = true
is_selected_by (rejected r s) = false

abbrev pub reason_of : Verdict → Option RejectionReason
reason_of (selected n) = none
reason_of (rejected r s) = some r

abbrev pub priority_of : Verdict → Option ℕ
priority_of (selected n) = some n
priority_of (rejected r s) = none

abbrev pub lineage_of : Entrant → Verdict → Option ℕ
lineage_of e (selected n) = some e.digest
lineage_of e (rejected r s) = s

abbrev pub first_clock : List BaselineCandidate → Result ArbitrationError DecisionClock
first_clock [] = err no_candidates
first_clock (c ∷ _) = ok (clock_of c)

-- `decisions[digest]`
abbrev pub look_up : List Decision → ℕ → Option Decision
look_up ds d = find_last (λ x. x.key == d) ds

-- The digests of the policy and of a candidate end in `hashlib`.
module _ (policy_digest : ArbitrationPolicy → ℕ) (digest : BaselineCandidate → ℕ)
    (policy : ArbitrationPolicy) where
  -- `_result`
  abbrev pub result_of : Decision → CandidateArbitration
  result_of d = record {
    arbitration_version = policy.version;
    arbitration_configuration_sha256 = policy_digest policy;
    candidate_version = d.entrant.candidate.baseline_version;
    candidate_sha256 = d.entrant.digest;
    strategy = name_id d.entrant.candidate.strategy;
    symbol = d.entrant.candidate.symbol;
    trade_date = d.entrant.candidate.trade_date;
    decision_at = d.entrant.candidate.decision_at;
    horizon_seconds = d.entrant.rule.horizon_seconds;
    strength = d.entrant.candidate.strength;
    is_selected = is_selected_by d.verdict;
    rejection_reason = reason_of d.verdict;
    priority = priority_of d.verdict;
    selected_candidate_sha256 = lineage_of d.entrant d.verdict;
  }

  -- The candidates with their rules; the matrix test has seen that each has one.
  unfoldable pub enter_all : List BaselineCandidate → Result ArbitrationError (List Entrant)
  enter_all [] = ok []
  enter_all (c ∷ cs) = do
    es ← enter_all cs
    elim (rule_for policy.rules (name_id c.strategy)) [
      | none ↦ err missing_key
      | some r ↦ ok (record { candidate = c; rule = r; digest = digest c } ∷ es)
    ]

  -- The loop over `sorted(by_symbol)`.
  unfoldable pub contend_all :
      ℕ → List Selection → List Entrant → List ℕ → List Decision × List Contest
  contend_all now log es [] = ([], [])
  contend_all now log es (s ∷ ss) =
      let (ds, cs) =
        contend policy.cooldown_seconds now log s (keep_if (λ e. e.candidate.symbol == s) es) in
      let (ds', cs') = contend_all now log es ss in (ds ++ ds', cs ++ cs')

  unfoldable pub look_up_all :
      List Decision → List Entrant → Result ArbitrationError (List CandidateArbitration)
  look_up_all ds [] = ok []
  look_up_all ds (e ∷ es) = do
    rest ← look_up_all ds es
    elim (look_up ds e.digest) [ none ↦ err missing_key | some d ↦ ok (result_of d ∷ rest) ]

  -- The tests of `decide` on the candidates of the clock.
  unfoldable pub check_clock :
      ArbitratorState → List BaselineCandidate → DecisionClock → Result ArbitrationError Unit
  check_clock state cs clock = do
    raise_if (any (λ c. not (same_clock (clock_of c) clock)) cs) mixed_clocks
    raise_if (is_stale clock state.last_clock) stale_clock
    raise_if (not (policy_contains policy clock.trade_date)) uncovered_date
    raise_if (any (λ c. c.baseline_version != policy.candidate_version) cs) other_version
    raise_if (unique_length (map digest cs) != length cs) repeated_candidate
    raise_if (any (λ s. is_incomplete policy.rules (of_symbol s cs)) (symbols_of cs))
        incomplete_matrix

  -- `ordered_winners[:maximum]`
  abbrev pub chosen_of : List Contest → List Contest
  chosen_of contests = take policy.maximum_selections_per_clock (sorted by_merit contests)

  -- All writes of `decisions`.
  abbrev pub verdicts : List Decision → List Contest → List Decision
  verdicts ds contests =
      ds
      ++ (crown 0 (chosen_of contests)
          ++ pass_over (drop policy.maximum_selections_per_clock (sorted by_merit contests)))

  -- The attributes after a clock.
  abbrev pub state_after : ArbitratorState → DecisionClock → List Contest → ArbitratorState
  state_after state clock contests = record {
    last_selected = state.last_selected ++ remember clock.decision_at (chosen_of contests);
    last_clock = some clock;
  }

  -- `decide` after the loop over the symbols.
  unfoldable pub conclude :
      ArbitratorState
      → DecisionClock
      → List Entrant
      → List Decision × List Contest
      → Result ArbitrationError (List CandidateArbitration × ArbitratorState)
  conclude state clock es (ds, contests) = do
    results ← look_up_all (verdicts ds contests) (sorted by_place es)
    ok (results, state_after state clock contests)

  unfoldable pub decide :
      ArbitratorState
      → List BaselineCandidate
      → Result ArbitrationError (List CandidateArbitration × ArbitratorState)
  decide state cs = do
    clock ← first_clock cs
    check_clock state cs clock
    es ← enter_all cs
    conclude state clock es (contend_all clock.decision_at state.last_selected es (symbols_of cs))

  -- `sorted(grouped)`: the clocks of the candidates, each once.
  abbrev pub add_clock : DecisionClock → List DecisionClock → List DecisionClock
  add_clock a [] = a ∷ []
  add_clock a (b ∷ bs) =
      let later = b ∷ add_clock a bs in
      if same_clock a b then b ∷ bs else if clock_le a b then a ∷ b ∷ bs else later

  abbrev pub clocks_of : List BaselineCandidate → List DecisionClock
  clocks_of [] = []
  clocks_of (c ∷ cs) = add_clock (clock_of c) (clocks_of cs)

  unfoldable pub decide_all :
      ArbitratorState
      → List BaselineCandidate
      → List DecisionClock
      → Result ArbitrationError (List CandidateArbitration)
  decide_all state cs [] = ok []
  decide_all state cs (clock ∷ clocks) = do
    (results, next) ← decide state (keep_if (λ c. same_clock (clock_of c) clock) cs)
    rest ← decide_all next cs clocks
    ok (results ++ rest)

  unfoldable pub arbitrate_candidates :
      List BaselineCandidate → Result ArbitrationError (List CandidateArbitration)
  arbitrate_candidates cs = do
    raise_if (is_empty cs) no_candidates
    decide_all new_arbitrator cs (clocks_of cs)
