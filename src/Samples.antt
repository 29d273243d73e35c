-- ===== src/Samples.antt =====
-- Small records that the runs of several parts share.
use mini_lakehouse.Common.{ℕ, ◌*◌, false, true, none, some, [], ◌∷◌}
use mini_lakehouse.Common.Decimal
use mini_lakehouse.Controls.{CostPolicy, user_supplied}
use mini_lakehouse.Configuration.Market.{TradingVersion, Time}
use mini_lakehouse.Configuration.Versions.{TradingConfiguration}
use mini_lakehouse.Configuration.Policies.{
  PaperExecutionVersion, ContextVersion, PromotionGateVersion,
}
use mini_lakehouse.Candidate.{BaselineCandidate, mean_reversion}
use mini_lakehouse.Arbitration.{CandidateArbitration}

abbrev pub candidate : BaselineCandidate
candidate = record {
  baseline_version = 1;
  strategy = mean_reversion;
  symbol = 7;
  trade_date = 5;
  decision_at = 1000;
  feature_snapshot_sha256 = 1;
  peer_feature_snapshot_sha256 = none;
  context_snapshot_sha256 = none;
  context_version = none;
  context_configuration_sha256 = none;
  context_data_mode = none;
  market_regime = none;
  first_group = record { name = 0; strength = some (Decimal.whole 1) };
  second_group = record { name = 1; strength = some (Decimal.whole 1) };
  third_group = record { name = 2; strength = some (Decimal.whole 1) };
  strength = Decimal.whole 1;
  block_reasons = [];
}

abbrev pub arbitration : CandidateArbitration
arbitration = record {
  arbitration_version = 1;
  arbitration_configuration_sha256 = 2;
  candidate_version = 1;
  candidate_sha256 = 6;
  strategy = 0;
  symbol = 7;
  trade_date = 5;
  decision_at = 1000;
  horizon_seconds = 60;
  strength = Decimal.whole 1;
  is_selected = true;
  rejection_reason = none;
  priority = some 0;
  selected_candidate_sha256 = some 6;
}

abbrev pub costs : CostPolicy
costs = record {
  version = 1;
  effective_from = 1;
  effective_to = none;
  buy_fee_bps = Decimal.whole 10;
  sell_fee_bps = Decimal.whole 10;
  sell_tax_bps = Decimal.whole 10;
  extra_slippage_bps = Decimal.whole 0;
  basis = user_supplied;
  account_plan = none;
  fee_source = none;
  fee_checked_at = none;
}

abbrev pub policy : PaperExecutionVersion
policy = record {
  version = 1;
  effective_from = 1;
  effective_to = none;
  arbitration_version = 1;
  promotion_gate_version = 1;
  context_version = 1;
  order_quantity = 100;
  lot_size = 100;
  maximum_quote_age_seconds = 2;
  limit_offset_ticks = 1;
  time_in_force_seconds = 30;
}

abbrev pub context : ContextVersion
context = record {
  version = 1;
  effective_from = 1;
  effective_to = none;
  zone_lookback_seconds = 900;
  zone_minimum_observations = 2;
  zone_tolerance_bps = Decimal.whole 5;
  market_windows_seconds = (60, 300);
  index_stale_after_seconds = 60;
  historical_proxy_interval_seconds = 60;
  historical_proxy_stale_after_seconds = 120;
  tradable_market_statuses = 3 ∷ [];
  trend_threshold_bps = Decimal.whole 10;
  high_volatility_threshold_bps = Decimal.whole 20;
}

abbrev pub gate : PromotionGateVersion
gate = record {
  version = 1;
  effective_from = 1;
  effective_to = none;
  evaluation_version = 1;
  arbitration_version = 1;
  minimum_selected_count = 1;
  minimum_outcome_coverage_rate = Decimal.whole 1;
  minimum_positive_net_rate = Decimal.whole 0;
  minimum_average_net_return_bps = Decimal.whole 5;
  minimum_worst_fold_net_return_bps = Decimal.whole 1;
  maximum_capture_gap_count = 0;
  targets = record { strategy = 1; symbol = 7; horizon_seconds = 60 } ∷ [];
}

abbrev at : ℕ → Time
at minutes = record { micros = minutes * 60000000; is_aware = false }

abbrev pub trading : TradingVersion
trading = record {
  version = 1;
  effective_from = 1;
  effective_to = none;
  market = record {
    timezone = 1;
    symbols = 7 ∷ 8 ∷ [];
    indices = 3 ∷ [];
    status_markets = 4 ∷ [];
    quote_depth = 3;
    bar_interval_seconds = 60;
    sessions = record {
      opening_auction = (at 540, at 555);
      continuous_am = (at 555, at 690);
      continuous_pm = (at 780, at 870);
      closing_auction = (at 870, at 885);
    };
  };
  data_quality = record { trade_stale_after_seconds = 60; quote_stale_after_seconds = 10 };
  features = record {
    version = 1;
    cadence_seconds = 30;
    windows_seconds = 60 ∷ 300 ∷ [];
    warmup_seconds = 300;
    decision_sessions = 1 ∷ 2 ∷ [];
  };
}

abbrev pub closed_execution : ℕ → ℕ → ℕ → PaperExecutionVersion
closed_execution version first last = record policy {
  version = version;
  effective_from = first;
  effective_to = some last;
}

abbrev pub configuration : TradingConfiguration
configuration = record {
  capture = record {
    capture_symbols = 7 ∷ 8 ∷ [];
    capture_indices = 3 ∷ [];
    membership_indices = 3 ∷ [];
    capture_markets = 4 ∷ [];
  };
  versions = trading ∷ [];
  outcomes =
      record {
        version = 1;
        effective_from = 1;
        effective_to = none;
        horizons_seconds = 60 ∷ 300 ∷ [];
        order_quantity = 100;
        execution_latency_milliseconds = 500;
      }
      ∷ [];
  baseline_evaluations =
      record {
        version = 1;
        effective_from = 1;
        effective_to = none;
        is_promotion = false;
        development_sessions = 2;
        holdout_sessions = 1;
        purge_sessions = 1;
      }
      ∷ record {
        version = 2;
        effective_from = 1;
        effective_to = none;
        is_promotion = true;
        development_sessions = 2;
        holdout_sessions = 1;
        purge_sessions = 1;
      }
      ∷ [];
  candidate_arbitrations =
      record {
        version = 1;
        effective_from = 1;
        effective_to = none;
        candidate_version = 1;
        cooldown_seconds = 60;
        maximum_selections_per_clock = 1;
        rules =
            record {
              strategy = 1;
              priority = 0;
              minimum_strength = Decimal.whole 0;
              horizon_seconds = 60;
            }
            ∷ [];
      }
      ∷ [];
  promotion_gates = record gate { evaluation_version = 2 } ∷ [];
  paper_executions = closed_execution 1 3 9 ∷ closed_execution 2 12 20 ∷ [];
  contexts = context ∷ [];
  breadth = [];
  regimes = [];
}
