-- ===== src/Arbitration/Tests.antt =====
-- A clock of arbitration/engine.py on a small matrix, and its theorems at it.
use mini_lakehouse.Common.{
  ℕ, ◌≤◌, ◌≡◌, refl, true, some, none, List, [], ◌∷◌, map, sum_of, ok, Result, sorted_set, ◌==◌,
}
use mini_lakehouse.Common.Int.{pos}
use mini_lakehouse.Common.Sort.{sorted}
use mini_lakehouse.Common.Decimal
use mini_lakehouse.Common.Decimal.{Decimal}
use mini_lakehouse.Candidate.{
  BaselineCandidate, BaselineName, GroupEvidence, mean_reversion, momentum_pullback,
}
use mini_lakehouse.Arbitration.{
  ArbitrationError, ArbitrationPolicy, CandidateArbitration, validate_rules, below_minimum_strength,
  lower_strategy_priority, clock_capacity, stale_clock,
}
use mini_lakehouse.Arbitration.Engine.{ArbitratorState, new_arbitrator}
use mini_lakehouse.Arbitration.Decide.{
  enter_all, contend_all, look_up_all, check_clock, conclude, decide, decide_all,
  arbitrate_candidates,
}
use mini_lakehouse.Arbitration.Decide.Capacity.{chosen, decide-le-maximum}
use mini_lakehouse.Arbitration.Decide.Distinct.{decide-one_per_symbol}
use mini_lakehouse.Arbitration.Decide.Spacing.{instants_of, IsSpaced, arbitrate_candidates-IsSpaced}

abbrev policy : ArbitrationPolicy
policy = record {
  version = 1;
  effective_from = 1;
  effective_to = none;
  candidate_version = 3;
  cooldown_seconds = 600;
  maximum_selections_per_clock = 1;
  rules =
      record {
        strategy = 0;
        priority = 0;
        minimum_strength = record { coefficient = pos 2; scale = 1 };
        horizon_seconds = 300;
      }
      ∷ record {
        strategy = 1;
        priority = 1;
        minimum_strength = record { coefficient = pos 2; scale = 1 };
        horizon_seconds = 600;
      }
      ∷ [];
}

policy-is_valid : validate_rules policy ≡ ok tt
unfolding validate_rules Decimal.lt sorted
policy-is_valid = refl

abbrev group : GroupEvidence
group = record { name = 0; strength = some (Decimal.whole 1) }

-- A candidate whose strength is `tenths / 10`. Its digest in these tests is its feature snapshot.
abbrev candidate : BaselineName → ℕ → ℕ → ℕ → BaselineCandidate
candidate strategy symbol tenths digest = record {
  baseline_version = 3;
  strategy = strategy;
  symbol = symbol;
  trade_date = 5;
  decision_at = 1000000000;
  feature_snapshot_sha256 = digest;
  peer_feature_snapshot_sha256 = none;
  context_snapshot_sha256 = none;
  context_version = none;
  context_configuration_sha256 = none;
  context_data_mode = none;
  market_regime = none;
  first_group = group;
  second_group = group;
  third_group = group;
  strength = record { coefficient = pos tenths; scale = 1 };
  block_reasons = [];
}

-- Both strategies of the symbols 7 and 4.
abbrev candidates : List BaselineCandidate
candidates =
    candidate momentum_pullback 7 9 21
    ∷ candidate mean_reversion 7 8 22
    ∷ candidate mean_reversion 4 5 23
    ∷ candidate momentum_pullback 4 1 24
    ∷ []

abbrev policy_digest : ArbitrationPolicy → ℕ
policy_digest p = p.version

abbrev digest : BaselineCandidate → ℕ
digest c = c.feature_snapshot_sha256

decide_on :
    ArbitratorState
    → List BaselineCandidate
    → Result ArbitrationError (List CandidateArbitration × ArbitratorState)
unfolding decide conclude enter_all contend_all look_up_all check_clock sorted sorted_set Decimal.lt
decide_on = decide policy_digest digest policy

results_of :
    Result ArbitrationError (List CandidateArbitration × ArbitratorState)
    → List CandidateArbitration
results_of (ok (rs, st)) = rs
results_of (Result.err e) = []

state_of : Result ArbitrationError (List CandidateArbitration × ArbitratorState) → ArbitratorState
state_of (ok (rs, st)) = st
state_of (Result.err e) = new_arbitrator

abbrev results : List CandidateArbitration
unfolding decide_on results_of
results = results_of (decide_on new_arbitrator candidates)

abbrev later : ArbitratorState
unfolding decide_on state_of
later = state_of (decide_on new_arbitrator candidates)

decided : decide policy_digest digest policy new_arbitrator candidates ≡ ok (results, later)
unfolding decide_on results_of state_of
decided = refl

-- The best candidate of symbol 7 is selected, by its strategy's priority.
decided_digests : map (λ a. a.candidate_sha256) results ≡ 23 ∷ 24 ∷ 22 ∷ 21 ∷ []
unfolding decide_on results_of
decided_digests = refl

decided_reasons :
    map (λ a. a.rejection_reason) results
    ≡ some clock_capacity ∷ some below_minimum_strength ∷ none ∷ some lower_strategy_priority ∷ []
unfolding decide_on results_of
decided_reasons = refl

-- The same clock is refused a second time.
decided_again : decide policy_digest digest policy later candidates ≡ Result.err stale_clock
unfolding decide_on state_of
decided_again = refl

decide-le-maximum_example : sum_of (chosen (λ _. true)) results ≤ 1
unfolding decide_on results_of
decide-le-maximum_example =
    decide-le-maximum policy_digest digest policy new_arbitrator later candidates results decided

decide-one_per_symbol_example : sum_of (chosen (λ s. s == 7)) results ≤ 1
unfolding decide_on results_of
decide-one_per_symbol_example =
    decide-one_per_symbol 7 policy_digest digest policy new_arbitrator later candidates results
      decided

-- Symbol 7 at three clocks, of which the second comes 300 seconds after the first and the third
-- 700 seconds after it.
abbrev clocks : List BaselineCandidate
clocks =
    candidate momentum_pullback 7 9 31
    ∷ candidate mean_reversion 7 8 32
    ∷ record (candidate momentum_pullback 7 9 33) { decision_at = 1300000000 }
    ∷ record (candidate mean_reversion 7 8 34) { decision_at = 1300000000 }
    ∷ record (candidate momentum_pullback 7 9 35) { decision_at = 1700000000 }
    ∷ record (candidate mean_reversion 7 8 36) { decision_at = 1700000000 }
    ∷ []

arbitrate : List BaselineCandidate → Result ArbitrationError (List CandidateArbitration)
unfolding arbitrate_candidates decide_all decide conclude enter_all contend_all look_up_all
    check_clock sorted sorted_set Decimal.lt
arbitrate = arbitrate_candidates policy_digest digest policy

abbrev arbitrated : List CandidateArbitration
unfolding arbitrate
arbitrated = elim (arbitrate clocks) [ Result.err e ↦ [] | ok rs ↦ rs ]

arbitration_ran : arbitrate_candidates policy_digest digest policy clocks ≡ ok arbitrated
unfolding arbitrate
arbitration_ran = refl

-- The second clock is rejected.
selected_instants : instants_of 7 arbitrated ≡ 1000000000 ∷ 1700000000 ∷ []
unfolding arbitrate
selected_instants = refl

arbitrate_candidates-IsSpaced_example : IsSpaced 600 (instants_of 7 arbitrated)
arbitrate_candidates-IsSpaced_example =
    arbitrate_candidates-IsSpaced policy_digest digest policy 7 clocks arbitrated arbitration_ran
