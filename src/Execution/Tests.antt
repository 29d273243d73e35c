-- ===== src/Execution/Tests.antt =====
-- Runs of t0-trading/src/t0_trading/execution on small inputs, and its theorems at them.
use mini_lakehouse.Common.{
  ◌+◌, ◌≤◌, ◌≡◌, refl, none, some, List, [], ◌∷◌, arith, ok, length, is_ordered_set, sorted_set,
  is_blank,
}
use mini_lakehouse.Common.Int.{pos, ◌+ℤ◌, ◌-ℤ◌, ◌*ℤ◌}
use mini_lakehouse.Common.Sort.{sorted}
use mini_lakehouse.Common.Decimal
use mini_lakehouse.Common.Decimal.{Decimal}
use mini_lakehouse.Controls.{CostPolicy, user_supplied, cost_contains}
use mini_lakehouse.Execution.Order.{
  Hashing, PaperOrderIntent, PaperFillEvidence, PaperOrderEvent, PaperOrderState, Outcome, entry,
  exit, buy, sell, accepted, partially_filled, cancelled, after, validate_event, validate_state,
}
use mini_lakehouse.Execution.Reducer.{
  start, check_history, quantity_of, beyond_limit, average_beyond_limit, blended, check_evidence,
  check_quantity, check_average, check_fill, check_limits, advance, step, run, conclude,
  reduce_paper_order,
}
use mini_lakehouse.Execution.Reducer.Lifecycle.{QuantityFits, reduce_paper_order-Consistent}
use mini_lakehouse.Execution.Resources.{
  PaperResourceLedger, opened, validate_ledger, validate_reservation,
}
use mini_lakehouse.Execution.Ledger.{
  Environment, reserve_paper_entry, settle_paper_entry, reserve_paper_exit, settle_paper_exit,
  positions_after, moved, spent_on, with_fee, less_fee, realized_on, with_open,
}
use mini_lakehouse.Execution.Ledger.Held.{held}
use mini_lakehouse.Execution.Ledger.History.{
  Transition, reserve_entry, settle_entry, reserve_exit, settle_exit, perform, perform_all,
  sold_by_all,
}
use mini_lakehouse.Execution.Ledger.History.Sound.{IsSound, perform_all-held}

-- Digests that tell the records of these runs apart.
abbrev environment : Environment
environment = record {
  intent_digest = λ i. i.priority;
  ledger_digest = λ l. l.revision;
  account_digest = λ a. 9;
  market_date = λ t. 5;
}

abbrev hashing : Hashing
hashing = record { intent_digest = λ i. i.priority; event_digest = λ e. e.sequence }

abbrev buy_order : PaperOrderIntent
buy_order = record {
  execution_version = 1;
  execution_configuration_sha256 = 2;
  request_sha256 = 3;
  promotion_report_sha256 = 4;
  arbitration_sha256 = 5;
  candidate_sha256 = 6;
  strategy = 1;
  symbol = 7;
  trade_date = 5;
  decision_at = 1000;
  horizon_seconds = 60;
  leg = entry;
  action = buy;
  quantity = 100;
  limit_price = Decimal.whole 20000;
  priority = 11;
  created_at = 1000;
  expires_at = 9000;
  reserved_cash_vnd = Decimal.whole 2002000;
  reserved_exit_quantity = 100;
  market_snapshot_sha256 = 8;
  selection_source_sha256 = 8;
  resource_ledger_sha256 = 0;
  parent_intent_sha256 = none;
}

abbrev sell_order : PaperOrderIntent
sell_order = record buy_order {
  leg = exit;
  action = sell;
  quantity = 60;
  limit_price = Decimal.whole 20100;
  priority = 12;
  reserved_cash_vnd = Decimal.whole 0;
  reserved_exit_quantity = 60;
  resource_ledger_sha256 = 2;
  parent_intent_sha256 = some 11;
}

abbrev costs : CostPolicy
costs = record {
  version = 1;
  effective_from = 1;
  effective_to = none;
  buy_fee_bps = Decimal.whole 10;
  sell_fee_bps = Decimal.whole 10;
  sell_tax_bps = Decimal.whole 10;
  extra_slippage_bps = Decimal.whole 0;
  basis = user_supplied;
  account_plan = none;
  fee_source = none;
  fee_checked_at = none;
}

-- 60 of the 100 shares were bought, and 40 of these were sold.
abbrev bought : PaperOrderState
bought = record {
  intent_sha256 = 11;
  status = after cancelled;
  cumulative_filled_quantity = 60;
  average_fill_price = some (Decimal.whole 20000);
  event_count = 3;
  last_event_sha256 = some 3;
}

abbrev sold : PaperOrderState
sold = record {
  intent_sha256 = 12;
  status = after cancelled;
  cumulative_filled_quantity = 40;
  average_fill_price = some (Decimal.whole 20100);
  event_count = 3;
  last_event_sha256 = some 3;
}

abbrev first_ledger : PaperResourceLedger
first_ledger = record {
  trade_date = 5;
  account_snapshot_sha256 = 9;
  revision = 0;
  available_cash_vnd = Decimal.whole 10000000;
  positions =
      record { symbol = 3; available_exit_quantity = 50 }
      ∷ record { symbol = 7; available_exit_quantity = 300 }
      ∷ [];
  started_cycles = 0;
  realized_net_pnl_vnd = Decimal.whole 0;
  reservations = [];
}

abbrev one_cycle : List Transition
one_cycle =
    reserve_entry buy_order
    ∷ settle_entry buy_order bought costs
    ∷ reserve_exit sell_order
    ∷ settle_exit sell_order sold costs
    ∷ []

abbrev last_ledger : PaperResourceLedger
last_ledger = record first_ledger {
  revision = 4;
  available_cash_vnd = record { coefficient = pos 8798800000; scale = 3 };
  positions =
      record { symbol = 3; available_exit_quantity = 50 }
      ∷ record { symbol = 7; available_exit_quantity = 240 }
      ∷ [];
  started_cycles = 1;
  realized_net_pnl_vnd = record { coefficient = pos 1592000; scale = 3 };
  reservations =
      record {
        entry_intent_sha256 = 11;
        exit_intent_sha256 = none;
        symbol = 7;
        status = opened;
        reserved_cash_vnd = Decimal.whole 0;
        reserved_exit_quantity = 20;
        entry_filled_quantity = 20;
        entry_average_fill_price = some (Decimal.whole 20000);
      }
      ∷ [];
}

run_cycle : List Transition → PaperResourceLedger → Outcome PaperResourceLedger
unfolding perform_all perform reserve_paper_entry settle_paper_entry reserve_paper_exit
    settle_paper_exit positions_after moved validate_ledger validate_reservation is_ordered_set
    sorted_set sorted spent_on with_fee less_fee realized_on with_open cost_contains Decimal.add
    Decimal.sub Decimal.mul Decimal.div Decimal.lt ◌+ℤ◌ ◌-ℤ◌ ◌*ℤ◌
run_cycle xs l = perform_all environment xs l

one_cycle_run : run_cycle one_cycle first_ledger ≡ ok last_ledger
unfolding run_cycle
one_cycle_run = refl

first_ledger-IsSound : IsSound environment (λ d. 7) first_ledger
first_ledger-IsSound = record {
  ordered = record { by_symbol = omega arith; by_id = tt };
  lineage = tt;
}

perform_all-held_example :
    IsSound environment (λ d. 7) last_ledger
    × (held 7 last_ledger + sold_by_all environment 7 one_cycle first_ledger ≡ held 7 first_ledger)
unfolding run_cycle
perform_all-held_example =
    perform_all-held environment (λ d. 7) one_cycle first_ledger last_ledger 7
      (refl, (refl, (tt, (tt, tt)))) first_ledger-IsSound one_cycle_run

-- 40 of the shares left the account.
one_cycle_sold : sold_by_all environment 7 one_cycle first_ledger ≡ 40
unfolding run_cycle sold_by_all
one_cycle_sold = refl

abbrev accepted_event : PaperOrderEvent
accepted_event = record {
  intent_sha256 = 11;
  sequence = 1;
  event_type = accepted;
  occurred_at = 1000;
  cumulative_filled_quantity = 0;
  average_fill_price = none;
  reason = none;
  adapter_event_id = 1;
  adapter_evidence_sha256 = 1;
  fill_evidence = none;
}

abbrev fill : PaperFillEvidence
fill = record {
  symbol = 7;
  action = buy;
  observed_at = 1500;
  stream_session_id = 1;
  receive_sequence = 4;
  filled_quantity = 60;
  available_quantity = 80;
  fill_price = Decimal.whole 20000;
  source_sha256 = 5;
}

abbrev fill_event : PaperOrderEvent
fill_event = record accepted_event {
  sequence = 2;
  event_type = partially_filled;
  occurred_at = 1600;
  cumulative_filled_quantity = 60;
  average_fill_price = some (Decimal.whole 20000);
  adapter_event_id = 2;
  fill_evidence = some fill;
}

abbrev cancel_event : PaperOrderEvent
cancel_event = record fill_event {
  sequence = 3;
  event_type = cancelled;
  occurred_at = 1700;
  reason = some (b'n' ∷ b'o' ∷ []);
  adapter_event_id = 3;
  fill_evidence = none;
}

abbrev events : List PaperOrderEvent
events = accepted_event ∷ fill_event ∷ cancel_event ∷ []

events_run : reduce_paper_order hashing buy_order events ≡ ok bought
unfolding start check_history quantity_of beyond_limit average_beyond_limit blended check_evidence
    check_quantity check_average check_fill check_limits advance step run conclude
    reduce_paper_order Decimal.lt validate_state
events_run = refl

reduce_paper_order-Consistent_example :
    QuantityFits bought.status bought.cumulative_filled_quantity buy_order.quantity
    × (bought.event_count ≡ length events)
    × (bought.event_count ≤ buy_order.quantity + 1)
unfolding validate_event is_blank
reduce_paper_order-Consistent_example =
    reduce_paper_order-Consistent hashing buy_order (omega arith) events (refl, (refl, (refl, tt)))
      events_run
