-- ===== src/Simulation/Tests.antt =====
-- A run of t0-trading/src/t0_trading/simulation on one proposal, and the theorems at it.
use mini_lakehouse.Common.{◌≡◌, refl, true, false, Option, none, err, some, [], ◌∷◌, ok}
use mini_lakehouse.Common.Int.{◌+ℤ◌, ◌-ℤ◌, ◌*ℤ◌}
use mini_lakehouse.Common.Sort.{sorted}
use mini_lakehouse.Common.Decimal
use mini_lakehouse.Common.Decimal.{Decimal}
use mini_lakehouse.Samples.{candidate, arbitration, costs}
use mini_lakehouse.Controls.{validate_core}
use mini_lakehouse.Outcomes.{OutcomeLabel}
use mini_lakehouse.Simulation.{SimulationRequest, Digests, Outcome, priority, closed}
use mini_lakehouse.Simulation.Cycle.{
  State, position_of, with_position, initial_of, execution, result, fund_buy, entry_reason,
}
use mini_lakehouse.Simulation.Engine.{
  note, buy_at, enter, sell, leave, events_of, handle, replay, start, replayed,
}
use mini_lakehouse.Simulation.Balance.{Balanced}
use mini_lakehouse.Simulation.Report.{
  has_changed, simulate_cycles, SimulationReport, report, sum_present, hold_pnls, results_of,
  check_complete,
}
use mini_lakehouse.Simulation.Report.Restored.{replayed-Balanced, replayed-has_changed}

abbrev environment : Digests
environment = record {
  candidate_digest = λ c. 6;
  arbitration_digest = λ a. a.decision_at;
  outcome_digest = λ o. 8;
  request_digest = λ r. 9;
  market_date = λ t. 5;
}

abbrev outcome : OutcomeLabel
outcome = record {
  outcome_version = 1;
  outcome_configuration_sha256 = 1;
  feature_version = 1;
  feature_configuration_sha256 = 1;
  feature_snapshot_sha256 = 1;
  stream_session_id = 1;
  symbol = 7;
  trade_date = 5;
  decision_at = 1000;
  is_buy = true;
  horizon_seconds = 60;
  order_quantity = 100;
  entry_at = 2000;
  horizon_at = 60001000;
  entry_quote_received_at = some 1900;
  entry_receive_sequence = some 1;
  entry_vwap = some (Decimal.whole 20000);
  horizon_quote_received_at = some 60000000;
  horizon_receive_sequence = some 2;
  horizon_vwap = some (Decimal.whole 20100);
  gross_return_bps = some (Decimal.whole 50);
  reasons = [];
}

abbrev request : SimulationRequest
request = record {
  trade_date = 5;
  account = record {
    as_of = 500;
    source = [];
    cash_vnd = Decimal.whole 10000000;
    positions =
        record {
          symbol = 7;
          settled_qty = 300;
          t1_qty = 10;
          t2_qty = 0;
          core_min_qty = 200;
          start_price = Decimal.whole 19000;
        }
        ∷ [];
  };
  costs = costs;
  advance = none;
  risk = record {
    max_cycle_quantity = 100;
    max_order_notional_vnd = Decimal.whole 3000000;
    max_cycles_per_day = 2;
    max_daily_loss_vnd = Decimal.whole 100000;
    cash_reserve_vnd = Decimal.whole 0;
  };
  lot_size = 100;
  closing_marks =
      record { symbol = 7; as_of = 90000000; price = Decimal.whole 20000; source = [] } ∷ [];
  selection_evidence = [];
  proposals = record { candidate = candidate; arbitration = arbitration; outcome = outcome } ∷ [];
}

run : SimulationRequest → Outcome State
unfolding replayed replay start handle events_of enter leave sell buy_at note fund_buy entry_reason
    result execution position_of with_position initial_of priority sorted Decimal.add Decimal.sub
    Decimal.mul Decimal.div Decimal.lt ◌+ℤ◌ ◌-ℤ◌ ◌*ℤ◌
run r = replayed environment r

-- The cycle closed: 100 shares bought today, and 100 of the settled ones sold.
abbrev ended : State
ended = record {
  positions = record { symbol = 7; settled = 200; t1 = 10; t2 = 0; bought_today = 100 } ∷ [];
  cash = Decimal.whole 7998000;
  pending_sales = Decimal.whole 2005980;
  advance_principal = Decimal.whole 0;
  advance_interest = Decimal.whole 0;
  open_by_symbol = [];
  results =
      record {
        cycle_id = 1000;
        outcome_sha256 = 8;
        symbol = 7;
        strategy = 0;
        quantity = 100;
        entry_at = 2000;
        horizon_at = 60001000;
        status = closed;
        reason = none;
        entry_price = some (Decimal.whole 20000);
        exit_price = some (Decimal.whole 20100);
        gross_pnl_vnd = some (Decimal.whole 10000);
        trading_cost_vnd = some (Decimal.whole 6020);
        net_pnl_vnd = some (Decimal.whole 3980);
      }
      ∷ [];
  started = 1;
  realized_net = Decimal.whole 3980;
}

run_ends : run request ≡ ok ended
unfolding run
run_ends = refl

replayed-Balanced_example : Balanced environment request (λ d. 100) ended
unfolding run validate_core
replayed-Balanced_example =
    replayed-Balanced environment request (λ d. 100) ended (refl, tt) (refl, tt) run_ends

replayed-has_changed_example : has_changed ended.positions request.account.positions ≡ ok false
unfolding run validate_core
replayed-has_changed_example =
    replayed-has_changed environment request (λ d. 100) ended (refl, tt) (refl, tt) (refl, tt)
      run_ends refl

-- The complete replay reconciles, and earns what its one cycle did.
run_report : SimulationRequest → Outcome SimulationReport
unfolding run simulate_cycles report sum_present hold_pnls results_of check_complete has_changed
run_report r = simulate_cycles environment r

abbrev net_alpha_of : Outcome SimulationReport → Option Decimal
net_alpha_of (ok r) = r.net_t0_alpha_vnd
net_alpha_of (err _) = none

run_report_net : net_alpha_of (run_report request) ≡ some (Decimal.whole 3980)
unfolding run_report
run_report_net = refl
