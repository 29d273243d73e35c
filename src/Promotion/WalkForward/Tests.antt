-- ===== src/Promotion/WalkForward/Tests.antt =====
-- Five sessions of one target in t0-trading/src/t0_trading/promotion/engine.py, and the theorems at them.
use mini_lakehouse.Common.{
  ℕ, ◌+◌, ◌*◌, ◌<◌, ◌≡◌, refl, true, none, List, [], ◌∷◌, map, arith, take, drop, length, ok,
  sorted_set, is_ordered_set,
}
use mini_lakehouse.Common.Sort.{sorted}
use mini_lakehouse.Arbitration.{ArbitrationPolicy}
use mini_lakehouse.Configuration.Policies.{BaselineEvaluation}
use mini_lakehouse.Promotion.WalkForward
use mini_lakehouse.Promotion.WalkForward.Folds.{
  holdouts, folds_from_fuel, evaluate_arbitrated_walk_forward-covered,
}

abbrev policy : BaselineEvaluation
policy = record {
  version = 1;
  effective_from = 1;
  effective_to = none;
  is_promotion = true;
  development_sessions = 2;
  holdout_sessions = 1;
  purge_sessions = 1;
}

abbrev rules : ArbitrationPolicy
rules = record {
  version = 1;
  effective_from = 1;
  effective_to = none;
  candidate_version = 1;
  cooldown_seconds = 60;
  maximum_selections_per_clock = 1;
  rules = [];
}

abbrev digests : WalkForward.Digests
digests = record {
  evaluation_digest = λ p. 1;
  arbitration_digest = λ a. 2;
  session_digest = λ s. s.trade_date;
}

abbrev target : WalkForward.Key
target = record { strategy = 1; symbol = 7; horizon_seconds = 60 }

-- A session in which nothing was selected.
abbrev quiet : ℕ → WalkForward.Session
quiet date = record {
  date = date;
  report = record {
    trade_date = date;
    baseline_version = 1;
    arbitration_version = 1;
    arbitration_configuration_sha256 = 2;
    research_lineage = record {
      baseline_version = 1;
      arbitration_configuration_sha256 = 2;
      feature_configuration_sha256 = 1;
      context_configuration_sha256 = 1;
      outcome_configuration_sha256 = 1;
      cost_policy_sha256 = 1;
    };
    shadow_audit_sha256 = 1;
    capture_gap_count = 0;
    evaluations =
        record {
          key = target;
          selected_count = 0;
          eligible_outcome_count = 0;
          positive_net_count = 0;
          average_conditional_net_return_bps = none;
        }
        ∷ [];
  };
}

abbrev sessions : List WalkForward.Session
sessions = quiet 3 ∷ quiet 1 ∷ quiet 2 ∷ quiet 5 ∷ quiet 4 ∷ []

abbrev nothing_selected : List WalkForward.Evaluation
nothing_selected =
    record {
      key = target;
      selected_count = 0;
      eligible_outcome_count = 0;
      positive_net_count = 0;
      average_conditional_net_return_bps = none;
    }
    ∷ []

abbrev walk_forward : WalkForward.WalkForwardReport
walk_forward = record {
  evaluation_version = 1;
  evaluation_configuration_sha256 = 1;
  arbitration_version = 1;
  arbitration_configuration_sha256 = 2;
  session_sha256s = 1 ∷ 2 ∷ 3 ∷ 4 ∷ 5 ∷ [];
  folds =
      record {
        dates = record {
          fold = 1;
          development_dates = 1 ∷ 2 ∷ [];
          purged_dates = 3 ∷ [];
          holdout_dates = 4 ∷ [];
        };
        evaluations = nothing_selected;
      }
      ∷ record {
        dates = record {
          fold = 2;
          development_dates = 1 ∷ 2 ∷ 3 ∷ [];
          purged_dates = 4 ∷ [];
          holdout_dates = 5 ∷ [];
        };
        evaluations = nothing_selected;
      }
      ∷ [];
  pending_dates = [];
}

walked :
    WalkForward.evaluate_arbitrated_walk_forward digests sessions policy rules ≡ ok walk_forward
unfolding WalkForward.evaluate_arbitrated_walk_forward WalkForward.folds_from WalkForward.combine
    WalkForward.weighted_average WalkForward.validate_counts WalkForward.validate_fold
    WalkForward.validate_walk_forward sorted sorted_set is_ordered_set
walked = refl

evaluate_arbitrated_walk_forward-covered_example :
    (holdouts (map (λ f. f.dates) walk_forward.folds)
      ≡ take (length walk_forward.folds * 1) (drop (2 + 1) (WalkForward.dates_of sessions)))
    × (length (WalkForward.dates_of sessions) < 2 + 1 + length walk_forward.folds * 1 + 1)
evaluate_arbitrated_walk_forward-covered_example =
    evaluate_arbitrated_walk_forward-covered digests sessions policy rules walk_forward
      (omega arith) walked

folds_from_fuel_example :
    WalkForward.folds_from 2 policy (1 ∷ 2 ∷ 3 ∷ 4 ∷ 5 ∷ []) 1 3
    ≡ WalkForward.folds_from 9 policy (1 ∷ 2 ∷ 3 ∷ 4 ∷ 5 ∷ []) 1 3
folds_from_fuel_example =
    folds_from_fuel policy (1 ∷ 2 ∷ 3 ∷ 4 ∷ 5 ∷ []) 2 9 1 3 (omega arith) (omega arith)
      (omega arith)
