-- ===== src/Simulation/Cycle.antt =====
-- What the loop of `simulate_cycles` computes with, of simulation/engine.py: positions, executions,
-- results, funding and the reasons that reject an entry.
use mini_lakehouse.Common.{
  ℕ, ◌+◌, ◌-◌, ◌%◌, Bool, not, Option, none, some, List, [], ◌∷◌, ltb, ◌==◌, ◌!=◌, any, find,
  is_some, ok, err, ◌>>=◌, ◌>>◌, raise_if, if◌then◌else◌,
}
use mini_lakehouse.Common.Decimal
use mini_lakehouse.Common.Decimal.{Decimal}
use mini_lakehouse.Controls.{AccountPosition}
use mini_lakehouse.Candidate.{name_id}
use mini_lakehouse.Simulation.{
  Outcome, missing_execution, unpriced_entry, missing_net, missing_key, arithmetic, result_fields,
  ArbitratedCycleProposal, SimulationRequest, Digests, CycleStatus, closed, rejected, open_cycle,
  CycleReason, symbol_busy, entry_book_unavailable, misaligned, quantity_limit, cycle_limit,
  daily_loss_limit, insufficient_settled_above_core, CycleResult, cycle_id,
}

-- `_Position`, with the symbol that is its key.
pub record Position : Type 0 where
  pub symbol : ℕ
  pub settled : ℕ
  pub t1 : ℕ
  pub t2 : ℕ
  pub bought_today : ℕ

abbrev pub total : Position → ℕ
total p = p.settled + p.t1 + p.t2 + p.bought_today

-- `_Execution`
pub record Execution : Type 0 where
  pub price : Decimal
  pub notional : Decimal
  pub charge : Decimal

-- `_OpenCycle`
pub record OpenCycle : Type 0 where
  pub proposal : ArbitratedCycleProposal
  pub entry : Execution

pub record State : Type 0 where
  pub positions : List Position
  pub cash : Decimal
  pub pending_sales : Decimal
  pub advance_principal : Decimal
  pub advance_interest : Decimal
  pub open_by_symbol : List OpenCycle
  -- The last write of a key comes first.
  pub results : List CycleResult
  pub started : ℕ
  pub realized_net : Decimal

-- The value of a key, and a key's new value.
unfoldable pub position_of : ℕ → List Position → Outcome Position
position_of symbol [] = err missing_key
position_of symbol (p ∷ ps) = if p.symbol == symbol then ok p else position_of symbol ps

unfoldable pub with_position : Position → List Position → List Position
with_position q [] = []
with_position q (p ∷ ps) =
    let rest = with_position q ps in if p.symbol == q.symbol then q ∷ ps else p ∷ rest

unfoldable pub initial_of : ℕ → List AccountPosition → Outcome AccountPosition
initial_of symbol [] = err missing_key
initial_of symbol (a ∷ rest) = if a.symbol == symbol then ok a else initial_of symbol rest

abbrev pub started_position : AccountPosition → Position
started_position a = record {
  symbol = a.symbol;
  settled = a.settled_qty;
  t1 = a.t1_qty;
  t2 = a.t2_qty;
  bought_today = 0;
}

abbrev pub symbol_of : OpenCycle → ℕ
symbol_of o = o.proposal.candidate.symbol

-- `open_by_symbol.get(candidate.symbol)`
abbrev pub open_of : ℕ → List OpenCycle → Option OpenCycle
open_of symbol os = find (λ o. symbol_of o == symbol) os

abbrev pub or_arithmetic : Option Decimal → Outcome Decimal
or_arithmetic none = err arithmetic
or_arithmetic (some d) = ok d

abbrev in_bps : Decimal → Outcome Decimal
in_bps d = or_arithmetic (Decimal.div d (Decimal.whole 10000))

-- `_execution`
unfoldable pub execution : SimulationRequest → Decimal → Bool → ℕ → Outcome Execution
execution r book is_buy quantity = do
  slip ← in_bps r.costs.extra_slippage_bps
  let one = Decimal.whole 1
  let factor = if is_buy then Decimal.add one slip else Decimal.sub one slip
  let price = Decimal.mul book factor
  let notional = Decimal.mul price (Decimal.whole quantity)
  let fee = if is_buy then r.costs.buy_fee_bps else r.costs.sell_fee_bps
  let tax = if is_buy then Decimal.zero_vnd else r.costs.sell_tax_bps
  charge ← in_bps (Decimal.mul notional (Decimal.add fee tax))
  ok (record { price = price; notional = notional; charge = charge })

abbrev price_of : Option Execution → Option Decimal
price_of none = none
price_of (some e) = some e.price

-- The gross, the charge and the net of a closed cycle.
pub record Profit : Type 0 where
  pub gross : Option Decimal
  pub charge : Option Decimal
  pub net : Option Decimal

abbrev unrealized : Profit
unrealized = record { gross = none; charge = none; net = none }

abbrev profit_of : CycleStatus → Option Execution → Option Execution → Outcome Profit
profit_of closed (some entry) (some exit) =
    let gross = Decimal.sub exit.notional entry.notional in
    let charge = Decimal.add entry.charge exit.charge in
    ok (record { gross = some gross; charge = some charge; net = some (Decimal.sub gross charge) })
profit_of closed none exit = err missing_execution
profit_of closed (some _) none = err missing_execution
profit_of rejected entry exit = ok unrealized
profit_of open_cycle entry exit = ok unrealized

module _ (env : Digests) where
  -- `_result`, with the check that pydantic runs when the result is built.
  unfoldable pub result :
      ArbitratedCycleProposal
      → CycleStatus
      → Option CycleReason
      → Option Execution
      → Option Execution
      → Outcome CycleResult
  result p status reason entry exit = do
    profit ← profit_of status entry exit
    raise_if (ltb p.outcome.order_quantity 1) result_fields
    ok (record {
      cycle_id = cycle_id env p;
      outcome_sha256 = env.outcome_digest p.outcome;
      symbol = p.candidate.symbol;
      strategy = name_id p.candidate.strategy;
      quantity = p.outcome.order_quantity;
      entry_at = p.outcome.entry_at;
      horizon_at = p.outcome.horizon_at;
      status = status;
      reason = reason;
      entry_price = price_of entry;
      exit_price = price_of exit;
      gross_pnl_vnd = profit.gross;
      trading_cost_vnd = profit.charge;
      net_pnl_vnd = profit.net;
    })

-- `max(a, b)`: the first of the two, unless the second is larger.
abbrev pub decimal_max : Decimal → Decimal → Decimal
decimal_max a b = if Decimal.lt a b then b else a

-- A permitted draw and its interest.
pub record Funding : Type 0 where
  pub draw : Decimal
  pub interest : Decimal

-- `_fund_buy`; the policy settles after the trade date.
unfoldable pub fund_buy : SimulationRequest → State → Decimal → Outcome (Option Funding)
fund_buy r s spend =
    let need = Decimal.sub (Decimal.add spend r.risk.cash_reserve_vnd) s.cash in
    let draw = decimal_max need Decimal.zero_vnd in
    if Decimal.eq draw Decimal.zero_vnd
    then ok (some (record { draw = Decimal.zero_vnd; interest = Decimal.zero_vnd }))
    else elim r.advance [
      | none ↦ ok none
      | some policy ↦
          in_bps (
            Decimal.mul (Decimal.mul draw policy.daily_interest_bps)
              (Decimal.whole (policy.settlement_date - r.trade_date)))
          >>= λ interest.
              let owed =
                Decimal.add (Decimal.add (Decimal.add s.advance_principal draw) s.advance_interest)
                  interest in
              ok (
                if Decimal.lt s.pending_sales owed
                then none
                else some (record { draw = draw; interest = interest }))
    ]

-- The reason that rejects an entry before a price is computed.
unfoldable pub entry_reason :
    SimulationRequest
    → State
    → ArbitratedCycleProposal
    → Position
    → AccountPosition
    → Option CycleReason
entry_reason r s p position account =
    let quantity = p.outcome.order_quantity in
    if any (λ o. symbol_of o == p.candidate.symbol) s.open_by_symbol
    then some symbol_busy
    else if not (is_some p.outcome.entry_vwap)
    then some entry_book_unavailable
    else if quantity % r.lot_size != 0
    then some misaligned
    else if ltb r.risk.max_cycle_quantity quantity
    then some quantity_limit
    else if not (ltb s.started r.risk.max_cycles_per_day)
    then some cycle_limit
    else if Decimal.le s.realized_net (Decimal.neg r.risk.max_daily_loss_vnd)
    then some daily_loss_limit
    else if ltb position.settled (quantity + account.core_min_qty)
    then some insufficient_settled_above_core
    else none

abbrev pub priced : Option Decimal → Outcome Decimal
priced none = err unpriced_entry
priced (some d) = ok d

abbrev pub net_of : Option Decimal → Outcome Decimal
net_of none = err missing_net
net_of (some d) = ok d

abbrev pub write : CycleResult → State → State
write c s = record s { results = c ∷ s.results }
