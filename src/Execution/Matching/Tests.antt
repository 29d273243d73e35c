-- ===== src/Execution/Matching/Tests.antt =====
-- One quote matched by execution/matching.py, and the theorem at it.
use mini_lakehouse.Common.{◌≡◌, refl, none, some, List, [], ◌∷◌, ok, Option, is_blank}
use mini_lakehouse.Common.Int.{◌+ℤ◌, ◌-ℤ◌, ◌*ℤ◌}
use mini_lakehouse.Common.Decimal
use mini_lakehouse.Execution.Order.{
  Outcome, PaperOrderIntent, PaperOrderEvent, PaperOrderState, entry, buy, accepted,
  partially_filled, validate_event, validate_fill, validate_state,
}
use mini_lakehouse.Execution.Reducer.{
  start, check_history, quantity_of, beyond_limit, average_beyond_limit, blended, check_evidence,
  check_quantity, check_average, check_fill, check_limits, advance, step, conclude,
  reduce_paper_order,
}
use mini_lakehouse.Execution.Reducer
use mini_lakehouse.Execution.Market.{PaperMarketSnapshot}
use mini_lakehouse.Samples.{context}
use mini_lakehouse.Configuration.Policies.{PaperExecutionVersion}
use mini_lakehouse.Execution.Matching.{
  Adapter, average_with, lifecycle_event, fill_quote, trade_quote, open_quote, match_quote, fill_of,
}
use mini_lakehouse.Execution.Matching.Quote.{Matched, match_quote-Matched}

abbrev adapter : Adapter
adapter = record {
  hashing = record { intent_digest = λ i. i.priority; event_digest = λ e. e.sequence };
  occurrence_digest = λ o. o.at;
  execution_digest = λ p. 2;
  event_id = λ d. d;
  time_in_force = [];
  market_status_ineligible = [];
}

abbrev buy_order : PaperOrderIntent
buy_order = record {
  execution_version = 1;
  execution_configuration_sha256 = 2;
  request_sha256 = 3;
  promotion_report_sha256 = 4;
  arbitration_sha256 = 5;
  candidate_sha256 = 6;
  strategy = 1;
  symbol = 7;
  trade_date = 5;
  decision_at = 1000;
  horizon_seconds = 60;
  leg = entry;
  action = buy;
  quantity = 100;
  limit_price = Decimal.whole 20000;
  priority = 11;
  created_at = 1000;
  expires_at = 9000;
  reserved_cash_vnd = Decimal.whole 2002000;
  reserved_exit_quantity = 100;
  market_snapshot_sha256 = 8;
  selection_source_sha256 = 8;
  resource_ledger_sha256 = 0;
  parent_intent_sha256 = none;
}

abbrev accepted_event : PaperOrderEvent
accepted_event = record {
  intent_sha256 = 11;
  sequence = 1;
  event_type = accepted;
  occurred_at = 1000;
  cumulative_filled_quantity = 0;
  average_fill_price = none;
  reason = none;
  adapter_event_id = 1;
  adapter_evidence_sha256 = 1;
  fill_evidence = none;
}

abbrev quote : PaperMarketSnapshot
quote = record {
  symbol = 7;
  observed_at = 2000;
  quote_received_at = 1900;
  stream_session_id = 1;
  receive_sequence = 1;
  best_ask_price = Decimal.whole 20000;
  best_ask_quantity = 500;
  best_bid_price = Decimal.whole 19900;
  best_bid_quantity = 500;
  reference_price = Decimal.whole 19950;
  ceiling_price = Decimal.whole 21000;
  floor_price = Decimal.whole 19000;
  tick_size = Decimal.whole 50;
  market_status = 3;
  source_sha256 = 1;
}

abbrev policy : PaperExecutionVersion
policy = record {
  version = 1;
  effective_from = 1;
  effective_to = none;
  arbitration_version = 1;
  promotion_gate_version = 1;
  context_version = 1;
  order_quantity = 100;
  lot_size = 20;
  maximum_quote_age_seconds = 2;
  limit_offset_ticks = 1;
  time_in_force_seconds = 30;
}

abbrev history : List PaperOrderEvent
history = accepted_event ∷ []

-- 80 of the 100 shares, in four lots of 20.
abbrev fill_event : PaperOrderEvent
fill_event = record accepted_event {
  sequence = 2;
  event_type = partially_filled;
  occurred_at = 2000;
  cumulative_filled_quantity = 80;
  average_fill_price = some (Decimal.whole 20000);
  adapter_event_id = 2000;
  adapter_evidence_sha256 = 2000;
  fill_evidence = some (fill_of adapter buy_order history quote policy 90 80);
}

run : PaperMarketSnapshot → Outcome (Option PaperOrderEvent)
unfolding match_quote open_quote trade_quote fill_quote lifecycle_event average_with validate_event
    validate_fill is_blank start check_history quantity_of beyond_limit average_beyond_limit blended
    check_evidence check_quantity check_average check_fill check_limits advance step Reducer.run
    conclude reduce_paper_order validate_state Decimal.add Decimal.mul Decimal.div Decimal.lt ◌+ℤ◌
    ◌-ℤ◌ ◌*ℤ◌
run m = match_quote adapter buy_order history m policy context 90

quote_matched : run quote ≡ ok (some fill_event)
unfolding run
quote_matched = refl

match_quote-Matched_example :
    (state : PaperOrderState) × (reduce_paper_order adapter.hashing buy_order history ≡ ok state)
    × Matched adapter buy_order history quote policy state 90 fill_event
unfolding run
match_quote-Matched_example =
    match_quote-Matched adapter buy_order history quote policy context 90 fill_event quote_matched
