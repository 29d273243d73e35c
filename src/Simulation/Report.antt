-- ===== src/Simulation/Report.antt =====
-- The report of `simulate_cycles` in simulation/engine.py, after its loop. The
-- version of the schema is left out.
pub mod Restored
use mathlib.Core.List.{foldl}
use mini_lakehouse.Common.{
  ℕ, ◌+◌, ◌-◌, ◌*◌, Bool, true, false, not, ◌&&◌, ◌||◌, Option, none, some, List, [], ◌∷◌, map, ltb,
  leb, ◌==◌, ◌!=◌, is_empty, find, is_some, Text, ok, err, ◌>>=◌, ◌>>◌, raise_if, if◌then◌else◌,
}
use mini_lakehouse.Common.Sort.{sorted}
use mini_lakehouse.Common.Decimal
use mini_lakehouse.Common.Decimal.{Decimal}
use mini_lakehouse.Controls.{Basis, AccountPosition, total_qty}
use mini_lakehouse.Simulation.{
  Outcome, missing_key, inventory_changed, cash_unreconciled, ArbitratedCycleProposal,
  SimulationRequest, Digests, CycleResult, ClosingMark, cycle_id, priority_of, mark_of,
}
use mini_lakehouse.Simulation.Cycle.{Position, State, position_of, total}
use mini_lakehouse.Simulation.Engine.{replayed}

pub record EndPosition : Type 0 where
  pub symbol : ℕ
  pub settled_qty : ℕ
  pub t1_qty : ℕ
  pub t2_qty : ℕ
  pub bought_today_qty : ℕ

pub record SimulationReport : Type 0 where
  pub trade_date : ℕ
  pub request_sha256 : ℕ
  pub fee_provenance_recorded : Bool
  pub fee_basis : Basis
  pub account_plan : Option Text
  pub selection_reference_recorded : Bool
  -- The status: COMPLETE or INCOMPLETE.
  pub is_complete : Bool
  pub cycles : List CycleResult
  pub starting_cash_vnd : Decimal
  pub ending_cash_vnd : Decimal
  pub pending_sale_proceeds_vnd : Decimal
  pub advance_principal_vnd : Decimal
  pub advance_interest_vnd : Decimal
  pub end_positions : List EndPosition
  pub hold_pnl_vnd : Decimal
  pub gross_t0_alpha_vnd : Option Decimal
  pub trading_cost_vnd : Option Decimal
  pub financing_cost_vnd : Option Decimal
  pub net_t0_alpha_vnd : Option Decimal
  pub hold_plus_t0_pnl_vnd : Option Decimal

-- `key=lambda value: (value.outcome.entry_at, value.priority)`
abbrev entered_before : ArbitratedCycleProposal → ArbitratedCycleProposal → Bool
entered_before a b =
    ltb a.outcome.entry_at b.outcome.entry_at
    || (a.outcome.entry_at == b.outcome.entry_at
        && leb (priority_of a.arbitration.priority) (priority_of b.arbitration.priority))

-- `sum((value for value in values if value is not None), Decimal(0))`
abbrev add_present : Decimal → Option Decimal → Decimal
add_present acc none = acc
add_present acc (some d) = Decimal.add acc d

unfoldable pub sum_present : List (Option Decimal) → Decimal
sum_present = foldl add_present Decimal.zero_vnd

abbrev given_result : Option CycleResult → Outcome CycleResult
given_result none = err missing_key
given_result (some c) = ok c

abbrev given_mark : Option ClosingMark → Outcome ClosingMark
given_mark none = err missing_key
given_mark (some m) = ok m

-- `item.total_qty * (closing_prices[item.symbol] - item.start_price)`, over the positions.
unfoldable pub hold_pnls : List ClosingMark → List AccountPosition → Outcome (List (Option Decimal))
hold_pnls marks [] = ok []
hold_pnls marks (a ∷ rest) = do
  mark ← given_mark (mark_of a.symbol marks)
  later ← hold_pnls marks rest
  ok (
      some (Decimal.mul (Decimal.whole (total_qty a)) (Decimal.sub mark.price a.start_price))
      ∷ later)

-- `any(positions[symbol].total != item.total_qty for symbol, item in initial.items())`
unfoldable pub has_changed : List Position → List AccountPosition → Outcome Bool
has_changed positions [] = ok false
has_changed positions (a ∷ rest) = do
  p ← position_of a.symbol positions
  later ← has_changed positions rest
  ok (total p != total_qty a || later)

abbrev end_position : Position → EndPosition
end_position p = record {
  symbol = p.symbol;
  settled_qty = p.settled;
  t1_qty = p.t1;
  t2_qty = p.t2;
  bought_today_qty = p.bought_today;
}

abbrev by_symbol : Position → Position → Bool
by_symbol a b = leb a.symbol b.symbol

abbrev when : Bool → Decimal → Option Decimal
when true d = some d
when false d = none

module _ (env : Digests) (r : SimulationRequest) where
  unfoldable pub results_of :
      List CycleResult → List ArbitratedCycleProposal → Outcome (List CycleResult)
  results_of results [] = ok []
  results_of results (p ∷ ps) = do
    c ← given_result (find (λ c. c.cycle_id == cycle_id env p) results)
    later ← results_of results ps
    ok (c ∷ later)

  abbrev pub is_complete : State → Bool
  is_complete s = is_empty s.open_by_symbol

  -- `cash + pending - principal - interest - starting`
  abbrev cash_moved : State → Decimal
  cash_moved s =
      Decimal.sub
        (Decimal.sub (Decimal.sub (Decimal.add s.cash s.pending_sales) s.advance_principal)
          s.advance_interest)
        r.account.cash_vnd

  -- `gross_alpha - trading_cost - advance_interest`
  abbrev net_alpha : State → Decimal → Decimal → Decimal
  net_alpha s gross cost = Decimal.sub (Decimal.sub gross cost) s.advance_interest

  -- The two tests of a complete replay.
  unfoldable pub check_complete : State → Decimal → Decimal → Outcome Unit
  check_complete s gross cost = do
    changed ← has_changed s.positions r.account.positions
    raise_if changed inventory_changed
    raise_if (not (Decimal.eq (cash_moved s) (net_alpha s gross cost))) cash_unreconciled

  unfoldable pub report : State → Outcome SimulationReport
  report s = do
    ordered ← results_of s.results (sorted entered_before r.proposals)
    let gross = sum_present (map (λ c. c.gross_pnl_vnd) ordered)
    let cost = sum_present (map (λ c. c.trading_cost_vnd) ordered)
    held ← hold_pnls r.closing_marks r.account.positions
    let hold = sum_present held
    let complete = is_complete s
    if complete then check_complete s gross cost else ok tt
    ok (record {
      trade_date = r.trade_date;
      request_sha256 = env.request_digest r;
      fee_provenance_recorded = is_some r.costs.fee_checked_at;
      fee_basis = r.costs.basis;
      account_plan = r.costs.account_plan;
      -- A source's digest is never an empty string.
      selection_reference_recorded = not (is_empty r.selection_evidence);
      is_complete = complete;
      cycles = ordered;
      starting_cash_vnd = r.account.cash_vnd;
      ending_cash_vnd = s.cash;
      pending_sale_proceeds_vnd = s.pending_sales;
      advance_principal_vnd = s.advance_principal;
      advance_interest_vnd = s.advance_interest;
      end_positions = map end_position (sorted by_symbol s.positions);
      hold_pnl_vnd = hold;
      gross_t0_alpha_vnd = when complete gross;
      trading_cost_vnd = when complete cost;
      financing_cost_vnd = when complete s.advance_interest;
      net_t0_alpha_vnd = when complete (net_alpha s gross cost);
      hold_plus_t0_pnl_vnd =
          when complete
            (Decimal.sub (Decimal.sub (Decimal.add hold gross) cost) s.advance_interest);
    })

  unfoldable pub simulate_cycles : Outcome SimulationReport
  simulate_cycles = replayed env r >>= report
