-- ===== src/Execution/Planner/Tests.antt =====
-- The plans of execution/engine.py on one request each, and the theorems at them.
use mini_lakehouse.Common.{◌≡◌, ◌↔◌, find, refl, true, none, some, [], ◌∷◌, ok}
use mini_lakehouse.Common.Int.{pos, ◌+ℤ◌, ◌-ℤ◌, ◌*ℤ◌}
use mini_lakehouse.Common.Decimal
use mini_lakehouse.Common.Decimal.{Decimal}
use mini_lakehouse.Samples.{context, gate, policy, candidate, arbitration, costs}
use mini_lakehouse.Candidate.{mean_reversion}
use mini_lakehouse.Arbitration.{ArbitrationPolicy, require_selected_candidate}
use mini_lakehouse.Controls.{cost_contains}
use mini_lakehouse.Promotion.{pass}
use mini_lakehouse.Execution.Order.{Outcome, validate_intent, after, filled}
use mini_lakehouse.Execution.Ledger.{with_fee}
use mini_lakehouse.Execution.Requests.{
  PaperExecutionRequest, PaperOrderPlan, Digests, validate_plan, PaperExitRequest,
  validate_exit_request, validate_request, promoted,
}
use mini_lakehouse.Execution.Resources.{PaperReservation, opened}
use mini_lakehouse.Execution.Planner.Exit.{ExitAllowed, plan_paper_exit-is_ready_iff}
use mini_lakehouse.Execution.Planner.{
  plan_paper_exit, exit_limit, exit_reasons, exit_intent_of, is_open_cycle_of, entry_limit,
  entry_reasons, entry_intent_of, plan_paper_order, ready, reserved_for,
}
use mini_lakehouse.Execution.Planner.Entry.{EntryAllowed, plan_paper_order-is_ready_iff}

abbrev environment : Digests
environment = record {
  candidate_digest = λ c. 6;
  arbitration_digest = λ a. 5;
  promotion_digest = λ p. 4;
  market_digest = λ m. 8;
  account_digest = λ a. 9;
  ledger_digest = λ l. l.revision;
  intent_digest = λ i. i.priority;
  request_digest = λ q. 3;
  exit_request_digest = λ q. 2;
  execution_digest = λ p. 11;
  arbitration_policy_digest = λ p. 2;
  gate_digest = λ g. 2;
  market_date = λ t. 5;
}

abbrev rules : ArbitrationPolicy
rules = record {
  version = 1;
  effective_from = 1;
  effective_to = none;
  candidate_version = 1;
  cooldown_seconds = 60;
  maximum_selections_per_clock = 1;
  rules = [];
}

abbrev request : PaperExecutionRequest
request = record {
  candidate = candidate;
  arbitration = arbitration;
  promotion = record {
    gate_version = 1;
    gate_configuration_sha256 = 2;
    evaluation_version = 1;
    evaluation_configuration_sha256 = 2;
    arbitration_version = 1;
    arbitration_configuration_sha256 = 2;
    required_session_count = 1;
    observed_session_count = 1;
    holdout_dates = 4 ∷ [];
    capture_gap_count = 0;
    walk_forward_sha256 = some 1;
    shadow_audit_sha256s = 1 ∷ [];
    status = pass;
    reasons = [];
    targets =
        record {
          strategy = mean_reversion;
          symbol = 7;
          horizon_seconds = 60;
          status = pass;
          reasons = [];
          selected_count = 1;
          eligible_outcome_count = 1;
          positive_net_count = 1;
          outcome_coverage_rate = Decimal.whole 1;
          positive_net_rate = Decimal.whole 1;
          average_net_return_bps = some (Decimal.whole 1);
          worst_fold_net_return_bps = some (Decimal.whole 1);
        }
        ∷ [];
  };
  selection = record { arbitration_sha256 = 5; selected_at = 1500; source = []; source_sha256 = 8 };
  market = record {
    symbol = 7;
    observed_at = 2000;
    quote_received_at = 1900;
    stream_session_id = 1;
    receive_sequence = 1;
    best_ask_price = Decimal.whole 20000;
    best_ask_quantity = 500;
    best_bid_price = Decimal.whole 19900;
    best_bid_quantity = 500;
    reference_price = Decimal.whole 19950;
    ceiling_price = Decimal.whole 21000;
    floor_price = Decimal.whole 19000;
    tick_size = Decimal.whole 50;
    market_status = 3;
    source_sha256 = 1;
  };
  account = record { as_of = 500; source = []; cash_vnd = Decimal.whole 10000000; positions = [] };
  costs = costs;
  risk = record {
    max_cycle_quantity = 100;
    max_order_notional_vnd = Decimal.whole 3000000;
    max_cycles_per_day = 2;
    max_daily_loss_vnd = Decimal.whole 100000;
    cash_reserve_vnd = Decimal.whole 0;
  };
  resources = record {
    trade_date = 5;
    account_snapshot_sha256 = 9;
    revision = 0;
    available_cash_vnd = Decimal.whole 10000000;
    positions = record { symbol = 7; available_exit_quantity = 100 } ∷ [];
    started_cycles = 0;
    realized_net_pnl_vnd = Decimal.whole 0;
    reservations = [];
  };
}

-- One tick above the ask, with the fee: 20050 * 100 * 1.001.
abbrev order : PaperOrderPlan
order = ready 5 (
    entry_intent_of environment request policy (Decimal.whole 20050)
      (record { coefficient = pos 2007005000; scale = 3 }) 0)

run : PaperExecutionRequest → Outcome PaperOrderPlan
unfolding plan_paper_order entry_limit entry_reasons with_fee validate_intent validate_plan
    Decimal.add Decimal.sub Decimal.mul Decimal.div Decimal.lt ◌+ℤ◌ ◌-ℤ◌ ◌*ℤ◌
run q = plan_paper_order environment q policy rules context gate

request_planned : run request ≡ ok order
unfolding run
request_planned = refl

-- The request is one that the code builds.
request_validated : validate_request environment request ≡ ok tt
unfolding validate_request promoted cost_contains require_selected_candidate Decimal.lt
request_validated = refl

plan_paper_order-is_ready_iff_example :
    (factor : Decimal) × (with_fee costs.buy_fee_bps ≡ ok factor)
    × ((order.is_ready ≡ true)
        ↔ EntryAllowed request policy context
            (entry_limit request.market policy)
            (reserved_for request policy factor))
unfolding run
plan_paper_order-is_ready_iff_example =
    plan_paper_order-is_ready_iff environment request policy rules context gate order
      request_planned

-- The entry above, filled and then due for its exit a minute later.
abbrev exit_request : PaperExitRequest
exit_request = record {
  entry_intent =
      record (entry_intent_of environment request policy (Decimal.whole 20050)
        (Decimal.whole 2007005) 0) { horizon_seconds = 60 };
  entry_state = record {
    intent_sha256 = 0;
    status = after filled;
    cumulative_filled_quantity = 100;
    average_fill_price = some (Decimal.whole 20050);
    event_count = 2;
    last_event_sha256 = some 1;
  };
  market = record request.market { observed_at = 60001000; quote_received_at = 60000000 };
  resources = record request.resources {
    reservations =
        record {
          entry_intent_sha256 = 0;
          exit_intent_sha256 = none;
          symbol = 7;
          status = opened;
          reserved_cash_vnd = Decimal.whole 0;
          reserved_exit_quantity = 100;
          entry_filled_quantity = 100;
          entry_average_fill_price = some (Decimal.whole 20050);
        }
        ∷ [];
  };
}

-- One tick below the bid.
abbrev exit_order : PaperOrderPlan
exit_order = ready 5 (exit_intent_of environment exit_request policy 100 (Decimal.whole 19850))

run_exit : PaperExitRequest → Outcome PaperOrderPlan
unfolding plan_paper_exit exit_limit exit_reasons validate_intent validate_plan Decimal.sub
    Decimal.mul Decimal.lt ◌-ℤ◌ ◌*ℤ◌
run_exit q = plan_paper_exit environment q policy context

exit_planned : run_exit exit_request ≡ ok exit_order
unfolding run_exit
exit_planned = refl

-- The request is one that the code builds.
exit_request_validated : validate_exit_request environment exit_request ≡ ok tt
unfolding validate_exit_request
exit_request_validated = refl

plan_paper_exit-is_ready_iff_example :
    (r : PaperReservation) × (find
        (is_open_cycle_of environment exit_request.entry_intent)
        exit_request.resources.reservations
      ≡ some r)
    × ((exit_order.is_ready ≡ true)
        ↔ ExitAllowed exit_request policy context r.reserved_exit_quantity
            (exit_limit exit_request.market policy))
unfolding run_exit
plan_paper_exit-is_ready_iff_example =
    plan_paper_exit-is_ready_iff environment exit_request policy context exit_order exit_planned
