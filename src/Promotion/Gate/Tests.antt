-- ===== src/Promotion/Gate/Tests.antt =====
-- The gate of t0-trading/src/t0_trading/promotion/engine.py over five sessions of one target.
use mini_lakehouse.Common.{
  ℕ, ◌≡◌, ◌↔◌, refl, true, none, some, List, [], ◌∷◌, ok, sorted_set, is_ordered_set,
}
use mini_lakehouse.Common.Sort.{sorted}
use mini_lakehouse.Common.Decimal
use mini_lakehouse.Common.Decimal.{Decimal}
use mini_lakehouse.Common.Int.{pos, ◌+ℤ◌, ◌*ℤ◌}
use mini_lakehouse.Candidate.{momentum_pullback}
use mini_lakehouse.Arbitration.{ArbitrationPolicy}
use mini_lakehouse.Configuration.Policies.{BaselineEvaluation, PromotionGateVersion}
use mini_lakehouse.Promotion.{
  PromotionGateReport, pass, validate_target, validate_report, expected_status,
}
use mini_lakehouse.Promotion.WalkForward
use mini_lakehouse.Promotion.Gate.{evaluate_promotion_gate, target_result}
use mini_lakehouse.Promotion.Gate.Passing.{Passes, evaluate_promotion_gate_iff}
use mini_lakehouse.Numeric.{rate, ratio}

abbrev policy : BaselineEvaluation
policy = record {
  version = 1;
  effective_from = 1;
  effective_to = none;
  is_promotion = true;
  development_sessions = 2;
  holdout_sessions = 1;
  purge_sessions = 1;
}

abbrev rules : ArbitrationPolicy
rules = record {
  version = 1;
  effective_from = 1;
  effective_to = none;
  candidate_version = 1;
  cooldown_seconds = 60;
  maximum_selections_per_clock = 1;
  rules = [];
}

abbrev digests : WalkForward.Digests
digests = record {
  evaluation_digest = λ p. 1;
  arbitration_digest = λ a. 2;
  session_digest = λ s. s.trade_date;
}

abbrev target : WalkForward.Key
target = record { strategy = 1; symbol = 7; horizon_seconds = 60 }

-- A session of three selections with two outcomes, both positive.
abbrev busy : ℕ → WalkForward.Session
busy date = record {
  date = date;
  report = record {
    trade_date = date;
    baseline_version = 1;
    arbitration_version = 1;
    arbitration_configuration_sha256 = 2;
    research_lineage = record {
      baseline_version = 1;
      arbitration_configuration_sha256 = 2;
      feature_configuration_sha256 = 1;
      context_configuration_sha256 = 1;
      outcome_configuration_sha256 = 1;
      cost_policy_sha256 = 1;
    };
    shadow_audit_sha256 = 1;
    capture_gap_count = 0;
    evaluations =
        record {
          key = target;
          selected_count = 3;
          eligible_outcome_count = 2;
          positive_net_count = 2;
          average_conditional_net_return_bps = some (Decimal.whole 4);
        }
        ∷ [];
  };
}

abbrev sessions : List WalkForward.Session
sessions = busy 3 ∷ busy 1 ∷ busy 2 ∷ busy 5 ∷ busy 4 ∷ []

abbrev gate : PromotionGateVersion
gate = record {
  version = 1;
  effective_from = 1;
  effective_to = none;
  evaluation_version = 1;
  arbitration_version = 1;
  minimum_selected_count = 5;
  minimum_outcome_coverage_rate = record { coefficient = pos 4; scale = 1 };
  minimum_positive_net_rate = Decimal.whole 1;
  minimum_average_net_return_bps = Decimal.whole 1;
  minimum_worst_fold_net_return_bps = Decimal.whole 1;
  maximum_capture_gap_count = 0;
  targets = record { strategy = 1; symbol = 7; horizon_seconds = 60 } ∷ [];
}

abbrev passing_report : PromotionGateReport
passing_report = record {
  gate_version = 1;
  gate_configuration_sha256 = 9;
  evaluation_version = 1;
  evaluation_configuration_sha256 = 1;
  arbitration_version = 1;
  arbitration_configuration_sha256 = 2;
  required_session_count = 4;
  observed_session_count = 5;
  holdout_dates = 4 ∷ 5 ∷ [];
  capture_gap_count = 0;
  walk_forward_sha256 = some 8;
  shadow_audit_sha256s = 1 ∷ 1 ∷ [];
  status = pass;
  reasons = [];
  targets =
      record {
        strategy = momentum_pullback;
        symbol = 7;
        horizon_seconds = 60;
        status = pass;
        reasons = [];
        selected_count = 6;
        eligible_outcome_count = 4;
        positive_net_count = 4;
        outcome_coverage_rate = record { coefficient = pos 666667; scale = 6 };
        positive_net_rate = record { coefficient = pos 1000000; scale = 6 };
        average_net_return_bps = some (record { coefficient = pos 40000; scale = 4 });
        worst_fold_net_return_bps = some (record { coefficient = pos 40000; scale = 4 });
      }
      ∷ [];
}

passed :
    evaluate_promotion_gate digests (λ g. 9) (λ r. 8) sessions policy gate rules ≡ ok passing_report
unfolding evaluate_promotion_gate target_result WalkForward.evaluate_arbitrated_walk_forward
    WalkForward.folds_from WalkForward.combine WalkForward.weighted_average
    WalkForward.validate_counts WalkForward.validate_fold WalkForward.validate_walk_forward sorted
    sorted_set is_ordered_set validate_target validate_report expected_status rate ratio
    Decimal.total Decimal.add Decimal.mul Decimal.div Decimal.lt Decimal.quantize ◌+ℤ◌ ◌*ℤ◌
passed = refl

evaluate_promotion_gate_iff_example :
    (passing_report.status ≡ pass) ↔ Passes digests (λ g. 9) (λ r. 8) sessions policy gate rules
evaluate_promotion_gate_iff_example =
    evaluate_promotion_gate_iff digests (λ g. 9) (λ r. 8) sessions policy gate rules passing_report
      passed
