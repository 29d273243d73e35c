-- ===== src/Execution/Planner.antt =====
-- `plan_paper_order` and `plan_paper_exit` of execution/engine.py. The reasons that block a plan are
-- collected in the order of the code.
pub mod Entry
pub mod Exit
mod Tests
use mini_lakehouse.Common.{
  ℕ, ◌+◌, ◌*◌, Bool, true, false, not, ◌&&◌, ◌||◌, Option, none, some, List, [], ◌∷◌, ltb, ◌==◌,
  ◌!=◌, contains, find, ok, err, ◌>>=◌, ◌>>◌, raise_if, if◌then◌else◌,
}
use mini_lakehouse.Common.Decimal
use mini_lakehouse.Common.Decimal.{Decimal}
use mini_lakehouse.Candidate.{name_id}
use mini_lakehouse.Arbitration.{ArbitrationPolicy}
use mini_lakehouse.Execution.Order.{
  Digest, Symbol, Instant, Outcome, PaperOrderIntent, entry, exit, buy, sell, policy_mismatch_entry,
  missing_priority, policy_mismatch_exit, missing_reservation,
}
use mini_lakehouse.Execution.Market.{PaperMarketSnapshot, is_older_than, within}
use mini_lakehouse.Execution.Reducer.{is_terminal}
use mini_lakehouse.Execution.Ledger.{with_fee}
use mini_lakehouse.Execution.Resources.{
  PaperReservation, PaperResourcePosition, PaperResourceLedger, is_open,
}
use mini_lakehouse.Configuration.Policies.{
  PaperExecutionVersion, ContextVersion, PromotionGateVersion,
}
use mini_lakehouse.Execution.Requests.{
  execution_contains, context_contains, PaperExecutionRequest, PaperExitRequest, PaperBlockReason,
  market_status_ineligible, stale_quote, insufficient_ask_quantity, insufficient_bid_quantity,
  price_limit, entry_not_terminal, entry_unfilled, before_exit_horizon, position_unavailable,
  insufficient_settled_above_core, quantity_limit, order_notional_limit, cycle_limit,
  daily_loss_limit, cash_limit, PaperOrderPlan, built_plan, built_intent, Digests,
}

-- `if test: reasons.append(reason)`, before the tests that follow.
abbrev pub noted : Bool → PaperBlockReason → List PaperBlockReason → List PaperBlockReason
noted true reason later = reason ∷ later
noted false reason later = later

abbrev pub is_untradable : ContextVersion → PaperMarketSnapshot → Bool
is_untradable context m = not (contains m.market_status context.tradable_market_statuses)

-- `seconds` later, in microseconds.
abbrev pub later_by : Instant → ℕ → Instant
later_by t seconds = t + seconds * 1000000

-- The position of a symbol in the ledger, if it has one.
abbrev pub position_in : PaperResourceLedger → Symbol → Option PaperResourcePosition
position_in l symbol = find (λ p. p.symbol == symbol) l.positions

-- `available_exit_quantity < quantity`, for a position that is there.
abbrev pub is_short_of : ℕ → Option PaperResourcePosition → Bool
is_short_of quantity none = false
is_short_of quantity (some p) = ltb p.available_exit_quantity quantity

abbrev pub is_absent : Option PaperResourcePosition → Bool
is_absent none = true
is_absent (some _) = false

-- `best_ask_price + tick_size * limit_offset_ticks`
unfoldable pub entry_limit : PaperMarketSnapshot → PaperExecutionVersion → Decimal
entry_limit m p =
    Decimal.add m.best_ask_price (Decimal.mul m.tick_size (Decimal.whole p.limit_offset_ticks))

-- `best_bid_price - tick_size * limit_offset_ticks`
unfoldable pub exit_limit : PaperMarketSnapshot → PaperExecutionVersion → Decimal
exit_limit m p =
    Decimal.sub m.best_bid_price (Decimal.mul m.tick_size (Decimal.whole p.limit_offset_ticks))

abbrev pub notional_of : Decimal → ℕ → Decimal
notional_of price quantity = Decimal.mul price (Decimal.whole quantity)

-- `notional * (1 + buy_fee_bps / _BPS)`, over the second factor.
abbrev pub reserved_for : PaperExecutionRequest → PaperExecutionVersion → Decimal → Decimal
reserved_for q policy factor =
    Decimal.mul (notional_of (entry_limit q.market policy) policy.order_quantity) factor

-- `if reasons:` the plan that is returned without an intent.
abbrev pub blocked : Digest → List PaperBlockReason → PaperOrderPlan
blocked arbitration reasons = record {
  arbitration_sha256 = arbitration;
  is_ready = false;
  reasons = reasons;
  intent = none;
}

abbrev pub ready : Digest → PaperOrderIntent → PaperOrderPlan
ready arbitration intent = record {
  arbitration_sha256 = arbitration;
  is_ready = true;
  reasons = [];
  intent = some intent;
}

abbrev pub given_priority : Option ℕ → Outcome ℕ
given_priority none = err missing_priority
given_priority (some n) = ok n

abbrev pub given_reservation : Option PaperReservation → Outcome PaperReservation
given_reservation none = err missing_reservation
given_reservation (some r) = ok r

-- A plan with the reasons, or else the plan of the intent that is built.
abbrev pub planned_unless :
    Digest → List PaperBlockReason → Outcome PaperOrderIntent → Outcome PaperOrderPlan
planned_unless arbitration [] intent = do i ← intent; built_plan (ready arbitration i)
planned_unless arbitration (r ∷ rs) intent = built_plan (blocked arbitration (r ∷ rs))

-- The reasons that block an entry, given its limit and the cash it reserves.
unfoldable pub entry_reasons :
    PaperExecutionRequest
    → PaperExecutionVersion
    → ContextVersion
    → Decimal
    → Decimal
    → List PaperBlockReason
entry_reasons q policy context limit reserved =
    noted (is_untradable context q.market) market_status_ineligible (
      noted (is_older_than q.market policy.maximum_quote_age_seconds) stale_quote (
        noted (ltb q.market.best_ask_quantity policy.order_quantity) insufficient_ask_quantity (
          noted (not (within q.market.floor_price limit q.market.ceiling_price)) price_limit (
            noted (is_absent (position_in q.resources q.candidate.symbol)) position_unavailable (
              noted (is_short_of policy.order_quantity (position_in q.resources q.candidate.symbol))
                insufficient_settled_above_core
                (noted (ltb q.risk.max_cycle_quantity policy.order_quantity) quantity_limit (
                  noted
                    (Decimal.lt q.risk.max_order_notional_vnd
                      (notional_of limit policy.order_quantity))
                    order_notional_limit
                    (noted (not (ltb q.resources.started_cycles q.risk.max_cycles_per_day))
                      cycle_limit
                      (noted
                        (Decimal.le q.resources.realized_net_pnl_vnd
                          (Decimal.neg q.risk.max_daily_loss_vnd))
                        daily_loss_limit
                        (noted
                          (Decimal.lt (Decimal.sub q.resources.available_cash_vnd reserved)
                            q.risk.cash_reserve_vnd)
                          cash_limit []))))))))))

-- The reasons that block an exit of `quantity` shares.
unfoldable pub exit_reasons :
    PaperExitRequest → PaperExecutionVersion → ContextVersion → ℕ → Decimal → List PaperBlockReason
exit_reasons q policy context quantity limit =
    noted (not (is_terminal q.entry_state.status)) entry_not_terminal (
      noted (quantity == 0) entry_unfilled (
        noted
          (ltb q.market.observed_at
            (later_by q.entry_intent.decision_at q.entry_intent.horizon_seconds))
          before_exit_horizon
          (noted (is_untradable context q.market) market_status_ineligible (
            noted (is_older_than q.market policy.maximum_quote_age_seconds) stale_quote (
              noted (ltb q.market.best_bid_quantity quantity) insufficient_bid_quantity (
                noted (not (within q.market.floor_price limit q.market.ceiling_price)) price_limit
                  []))))))

module _ (env : Digests) where
  -- The first test of `plan_paper_order`.
  abbrev pub mismatches_policies :
      PaperExecutionRequest
      → PaperExecutionVersion
      → ArbitrationPolicy
      → ContextVersion
      → PromotionGateVersion
      → Bool
  mismatches_policies q policy arbitration context gate =
      not (execution_contains policy q.candidate.trade_date)
      || not (context_contains context q.candidate.trade_date)
      || policy.arbitration_version != arbitration.version
      || policy.promotion_gate_version != gate.version
      || policy.context_version != context.version
      || q.arbitration.arbitration_version != arbitration.version
      || q.arbitration.arbitration_configuration_sha256 != env.arbitration_policy_digest arbitration
      || q.promotion.gate_version != gate.version
      || q.promotion.gate_configuration_sha256 != env.gate_digest gate
      || q.promotion.evaluation_version != gate.evaluation_version
      || q.promotion.arbitration_version != gate.arbitration_version

  abbrev pub entry_intent_of :
      PaperExecutionRequest → PaperExecutionVersion → Decimal → Decimal → ℕ → PaperOrderIntent
  entry_intent_of q policy limit reserved priority = record {
    execution_version = policy.version;
    execution_configuration_sha256 = env.execution_digest policy;
    request_sha256 = env.request_digest q;
    promotion_report_sha256 = env.promotion_digest q.promotion;
    arbitration_sha256 = env.arbitration_digest q.arbitration;
    candidate_sha256 = env.candidate_digest q.candidate;
    strategy = name_id q.candidate.strategy;
    symbol = q.candidate.symbol;
    trade_date = q.candidate.trade_date;
    decision_at = q.candidate.decision_at;
    horizon_seconds = q.arbitration.horizon_seconds;
    leg = entry;
    action = buy;
    quantity = policy.order_quantity;
    limit_price = limit;
    priority = priority;
    created_at = q.market.observed_at;
    expires_at = later_by q.market.observed_at policy.time_in_force_seconds;
    reserved_cash_vnd = reserved;
    reserved_exit_quantity = policy.order_quantity;
    market_snapshot_sha256 = env.market_digest q.market;
    selection_source_sha256 = q.selection.source_sha256;
    resource_ledger_sha256 = env.ledger_digest q.resources;
    parent_intent_sha256 = none;
  }

  unfoldable pub plan_paper_order :
      PaperExecutionRequest
      → PaperExecutionVersion
      → ArbitrationPolicy
      → ContextVersion
      → PromotionGateVersion
      → Outcome PaperOrderPlan
  plan_paper_order q policy arbitration context gate = do
    raise_if (mismatches_policies q policy arbitration context gate) policy_mismatch_entry
    let limit = entry_limit q.market policy
    factor ← with_fee q.costs.buy_fee_bps
    let reserved = reserved_for q policy factor
    planned_unless (env.arbitration_digest q.arbitration)
        (entry_reasons q policy context limit reserved)
        (given_priority q.arbitration.priority >>= λ priority.
          built_intent (entry_intent_of q policy limit reserved priority))

  -- `item.entry_intent_sha256 == entry.sha256 and item.status == "OPEN"`
  abbrev pub is_open_cycle_of : PaperOrderIntent → PaperReservation → Bool
  is_open_cycle_of i r = r.entry_intent_sha256 == env.intent_digest i && is_open r.status

  abbrev pub mismatches_entry_policy :
      PaperOrderIntent → PaperExecutionVersion → ContextVersion → Bool
  mismatches_entry_policy i policy context =
      not (execution_contains policy i.trade_date)
      || not (context_contains context i.trade_date)
      || i.execution_version != policy.version
      || i.execution_configuration_sha256 != env.execution_digest policy

  abbrev pub exit_intent_of :
      PaperExitRequest → PaperExecutionVersion → ℕ → Decimal → PaperOrderIntent
  exit_intent_of q policy quantity limit = record q.entry_intent {
    request_sha256 = env.exit_request_digest q;
    leg = exit;
    action = sell;
    quantity = quantity;
    limit_price = limit;
    created_at = q.market.observed_at;
    expires_at = later_by q.market.observed_at policy.time_in_force_seconds;
    reserved_cash_vnd = Decimal.zero_vnd;
    reserved_exit_quantity = quantity;
    market_snapshot_sha256 = env.market_digest q.market;
    resource_ledger_sha256 = env.ledger_digest q.resources;
    parent_intent_sha256 = some (env.intent_digest q.entry_intent);
  }

  unfoldable pub plan_paper_exit :
      PaperExitRequest → PaperExecutionVersion → ContextVersion → Outcome PaperOrderPlan
  plan_paper_exit q policy context = do
    reservation ←
        given_reservation (find (is_open_cycle_of q.entry_intent) q.resources.reservations)
    raise_if (mismatches_entry_policy q.entry_intent policy context) policy_mismatch_exit
    let quantity = reservation.reserved_exit_quantity
    let limit = exit_limit q.market policy
    planned_unless q.entry_intent.arbitration_sha256 (exit_reasons q policy context quantity limit)
        (built_intent (exit_intent_of q policy quantity limit))
