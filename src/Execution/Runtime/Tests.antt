-- ===== src/Execution/Runtime/Tests.antt =====
-- A paper session of one order in t0-trading/src/t0_trading/execution/runtime.py, and the theorems at it.
use mini_lakehouse.Common.{
  ◌+◌, ◌≤◌, ◌≡◌, refl, true, false, none, some, List, [], ◌∷◌, ok, arith, length, ◌==◌, ◌&&◌,
  is_blank, sorted_set, is_ordered_set,
}
use mini_lakehouse.Common.Int.{◌+ℤ◌, ◌-ℤ◌, ◌*ℤ◌}
use mini_lakehouse.Common.Sort.{sorted}
use mini_lakehouse.Common.Decimal
use mini_lakehouse.Samples.{configuration, costs, closed_execution}
use mini_lakehouse.Controls.{cost_contains}
use mini_lakehouse.Configuration.{resolve_effective, resolve_optional}
use mini_lakehouse.Configuration.Versions.{
  TradingConfiguration, resolve, resolve_context, resolve_paper_execution,
}
use mini_lakehouse.Execution.Order.{
  PaperOrderIntent, PaperOrderEvent, entry, buy, accepted, partially_filled, validate_event,
  validate_fill, validate_state,
}
use mini_lakehouse.Execution.Reducer
use mini_lakehouse.Execution.Reducer.{
  start, check_history, quantity_of, beyond_limit, average_beyond_limit, blended, check_evidence,
  check_quantity, check_average, check_fill, check_limits, advance, step, conclude,
  reduce_paper_order,
}
use mini_lakehouse.Execution.Resources.{
  PaperResourceLedger, validate_ledger, validate_reservation, entry_pending,
}
use mini_lakehouse.Execution.Market.{PaperMarketSnapshot}
use mini_lakehouse.Execution.Ledger.{
  initialize_paper_ledger, reserve_paper_entry, available_positions, moved, positions_after,
}
use mini_lakehouse.Execution.Matching.{
  average_with, lifecycle_event, fill_quote, trade_quote, open_quote, match_quote, displayed_for,
}
use mini_lakehouse.Execution.Runtime.{
  Services, PaperSession, Operation, submitted, happened, Runtime, reconcile, replay, replay_step,
  append, appended, finish, before_operations, Replayed, store_failed,
}
use mini_lakehouse.Execution.Runtime.Transitions.{process_quote, budget_of, budgets_for}
use mini_lakehouse.Execution.Runtime.Boundary.{
  Repository, PaperRuntimeResult, is_committed, quote, handle, run,
}
use mini_lakehouse.Execution.Runtime.Replay.Refinement.{append-replay}
use mini_lakehouse.Execution.Runtime.Budget.{fills, process_quote-Within}
use mini_lakehouse.Execution.Runtime.Safe.{Safe, handle-Safe}

abbrev services : Services
services = record {
  adapter = record {
    hashing = record { intent_digest = λ i. i.priority; event_digest = λ e. e.sequence };
    occurrence_digest = λ o. o.at;
    execution_digest = λ p. 2;
    event_id = λ d. d;
    time_in_force = [];
    market_status_ineligible = [];
  };
  ledgers = record {
    intent_digest = λ i. i.priority;
    ledger_digest = λ l. l.revision;
    account_digest = λ a. 9;
    market_date = λ t. 5;
  };
  plans = record {
    candidate_digest = λ c. 6;
    arbitration_digest = λ a. 5;
    promotion_digest = λ p. 4;
    market_digest = λ m. 8;
    account_digest = λ a. 9;
    ledger_digest = λ l. l.revision;
    intent_digest = λ i. i.priority;
    request_digest = λ q. 3;
    exit_request_digest = λ q. 2;
    execution_digest = λ p. 2;
    arbitration_policy_digest = λ p. 2;
    gate_digest = λ g. 2;
    market_date = λ t. 5;
  };
  identities = record {
    baseline = 1;
    arbitration_digest = λ a. 2;
    trading_digest = λ v. 1;
    context_identity = λ c r b. 1;
    outcome_digest = λ o. 1;
    assumptions_digest = λ c. 1;
  };
  local_date = λ zone at. 5;
  same_ledger = λ a b. a.revision == b.revision;
  same_session =
      λ a b. length a.operations == length b.operations && length a.markets == length b.markets;
  same_market = λ a b. a.observed_at == b.observed_at;
  same_intent = λ a b. a.priority == b.priority;
  same_account = λ a b. a.as_of == b.as_of;
  same_costs = λ a b. a.version == b.version;
  same_promotion = λ a b. a.gate_version == b.gate_version;
}

abbrev buy_order : PaperOrderIntent
buy_order = record {
  execution_version = 1;
  execution_configuration_sha256 = 2;
  request_sha256 = 3;
  promotion_report_sha256 = 4;
  arbitration_sha256 = 5;
  candidate_sha256 = 6;
  strategy = 1;
  symbol = 7;
  trade_date = 5;
  decision_at = 1000;
  horizon_seconds = 60;
  leg = entry;
  action = buy;
  quantity = 100;
  limit_price = Decimal.whole 20000;
  priority = 11;
  created_at = 1000;
  expires_at = 9000;
  reserved_cash_vnd = Decimal.whole 2002000;
  reserved_exit_quantity = 100;
  market_snapshot_sha256 = 8;
  selection_source_sha256 = 8;
  resource_ledger_sha256 = 0;
  parent_intent_sha256 = none;
}

abbrev accepted_event : PaperOrderEvent
accepted_event = record {
  intent_sha256 = 11;
  sequence = 1;
  event_type = accepted;
  occurred_at = 1000;
  cumulative_filled_quantity = 0;
  average_fill_price = none;
  reason = none;
  adapter_event_id = 1;
  adapter_evidence_sha256 = 1;
  fill_evidence = none;
}

-- The account's ledger, before any operation.
abbrev opening : PaperResourceLedger
opening = record {
  trade_date = 5;
  account_snapshot_sha256 = 9;
  revision = 0;
  available_cash_vnd = Decimal.whole 10000000;
  positions = record { symbol = 7; available_exit_quantity = 200 } ∷ [];
  started_cycles = 0;
  realized_net_pnl_vnd = Decimal.whole 0;
  reservations = [];
}

-- The order's cash and shares are reserved.
abbrev reserved_ledger : PaperResourceLedger
reserved_ledger = record opening {
  revision = 1;
  available_cash_vnd = Decimal.whole 7998000;
  positions = record { symbol = 7; available_exit_quantity = 100 } ∷ [];
  started_cycles = 1;
  reservations =
      record {
        entry_intent_sha256 = 11;
        exit_intent_sha256 = none;
        symbol = 7;
        status = entry_pending;
        reserved_cash_vnd = Decimal.whole 2002000;
        reserved_exit_quantity = 100;
        entry_filled_quantity = 0;
        entry_average_fill_price = none;
      }
      ∷ [];
}

abbrev planned : PaperSession
planned = record {
  account = record {
    as_of = 500;
    source = 65 ∷ [];
    cash_vnd = Decimal.whole 10000000;
    positions =
        record {
          symbol = 7;
          settled_qty = 300;
          t1_qty = 0;
          t2_qty = 0;
          core_min_qty = 100;
          start_price = Decimal.whole 20000;
        }
        ∷ [];
  };
  costs = costs;
  ledger = reserved_ledger;
  revision = 0;
  operations = submitted buy_order ∷ [];
  markets = [];
}

run_replay : List Operation → Runtime Replayed
unfolding replay replay_step sorted reserve_paper_entry positions_after moved validate_ledger
    validate_reservation sorted_set is_ordered_set reduce_paper_order start check_history
    quantity_of beyond_limit average_beyond_limit blended check_evidence check_quantity
    check_average check_fill check_limits advance step Reducer.run conclude validate_state
    validate_event Decimal.add Decimal.sub Decimal.mul Decimal.div Decimal.lt ◌+ℤ◌ ◌-ℤ◌ ◌*ℤ◌
run_replay xs = replay services costs (before_operations services planned.account opening) xs

abbrev after_intent : Replayed
after_intent = record {
  ledger = reserved_ledger;
  orders = record { digest = 11; intent = buy_order; history = [] } ∷ [];
  entries = 5 ∷ [];
  liquidity = [];
  last_operation_at = 1000;
}

intent_replayed : run_replay (submitted buy_order ∷ []) ≡ ok after_intent
unfolding run_replay
intent_replayed = refl

abbrev after_acceptance : Replayed
after_acceptance = record after_intent {
  orders = record { digest = 11; intent = buy_order; history = accepted_event ∷ [] } ∷ [];
}

acceptance_replayed :
    run_replay (submitted buy_order ∷ happened accepted_event ∷ []) ≡ ok after_acceptance
unfolding run_replay
acceptance_replayed = refl

append-replay_example :
    append services planned (happened accepted_event)
    ≡ ok (appended services planned (happened accepted_event) reserved_ledger)
unfolding run_replay
append-replay_example =
    append-replay services planned opening after_intent after_acceptance (happened accepted_event)
      intent_replayed refl acceptance_replayed

abbrev accepted_session : PaperSession
accepted_session = appended services planned (happened accepted_event) reserved_ledger

abbrev policies : TradingConfiguration
policies = record configuration {
  paper_executions = record (closed_execution 1 3 9) { lot_size = 20 } ∷ [];
}

-- 90 shares are displayed.
abbrev market : PaperMarketSnapshot
market = record {
  symbol = 7;
  observed_at = 2000;
  quote_received_at = 1900;
  stream_session_id = 1;
  receive_sequence = 1;
  best_ask_price = Decimal.whole 20000;
  best_ask_quantity = 90;
  best_bid_price = Decimal.whole 19900;
  best_bid_quantity = 500;
  reference_price = Decimal.whole 19950;
  ceiling_price = Decimal.whole 21000;
  floor_price = Decimal.whole 19000;
  tick_size = Decimal.whole 50;
  market_status = 3;
  source_sha256 = 1;
}

-- 80 of the 100 shares, in four lots of 20.
abbrev fill_event : PaperOrderEvent
fill_event = record accepted_event {
  sequence = 2;
  event_type = partially_filled;
  occurred_at = 2000;
  cumulative_filled_quantity = 80;
  average_fill_price = some (Decimal.whole 20000);
  adapter_event_id = 2000;
  adapter_evidence_sha256 = 2000;
  fill_evidence = some (record {
    symbol = 7;
    action = buy;
    observed_at = 1900;
    stream_session_id = 1;
    receive_sequence = 1;
    filled_quantity = 80;
    available_quantity = 90;
    fill_price = Decimal.whole 20000;
    source_sha256 = 1;
  });
}

abbrev quoted_session : PaperSession
quoted_session = record accepted_session {
  revision = 1;
  operations = submitted buy_order ∷ happened accepted_event ∷ happened fill_event ∷ [];
  markets = market ∷ [];
}

run_quote : PaperSession → Runtime PaperSession
unfolding run_replay process_quote append finish reconcile match_quote open_quote trade_quote
    fill_quote lifecycle_event average_with validate_fill is_blank initialize_paper_ledger
    available_positions cost_contains resolve resolve_context resolve_paper_execution
    resolve_effective resolve_optional
run_quote s = process_quote services policies market s

quote_processed : run_quote accepted_session ≡ ok quoted_session
unfolding run_quote
quote_processed = refl

process_quote-Within_example :
    (fills buy quoted_session.operations
      ≤ fills buy accepted_session.operations + budget_of buy (budgets_for none market))
    × (budget_of buy (budgets_for none market) ≤ displayed_for buy market)
unfolding run_quote
process_quote-Within_example =
    process_quote-Within services policies market buy accepted_session quoted_session
      quote_processed

-- A store of one session whose commit persists the session and loses its response.
abbrev lossy : Repository PaperSession
lossy = record { load = λ s. ok s; commit = λ s previous state. (state, some store_failed) }

same_session_refl : (s : PaperSession) → services.same_session s s ≡ true
same_session_refl s = ground arith

abbrev lossy_quote : PaperSession × PaperRuntimeResult
lossy_quote = handle services (λ s. s.revision) lossy policies true (quote market) accepted_session

handle-Safe_example :
    Safe services (λ s. s.revision) lossy same_session_refl accepted_session lossy_quote
handle-Safe_example =
    handle-Safe services (λ s. s.revision) lossy same_session_refl policies true (quote market)
      accepted_session

-- The store has the new session, and the command reports an error.
lossy_quote_failed : (lossy_quote.0 ≡ quoted_session) × (is_committed lossy_quote.1.status ≡ false)
unfolding handle run run_quote
lossy_quote_failed = (refl, refl)
