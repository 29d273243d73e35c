-- ===== src/Simulation/Engine.antt =====
-- The replay of t0-trading/src/t0_trading/simulation/engine.py: the local variables of
-- `simulate_cycles` are the `State` of Cycle, and one event of its loop is `handle`.
use mini_lakehouse.Common.{
  ℕ, ◌+◌, ◌-◌, Bool, true, false, not, ◌&&◌, ◌||◌, Option, none, some, List, [], ◌∷◌, map, ltb, leb,
  ◌==◌, ◌!=◌, keep_if, ok, ◌>>=◌, if◌then◌else◌,
}
use mini_lakehouse.Common.Sort.{sorted}
use mini_lakehouse.Common.Decimal
use mini_lakehouse.Common.Decimal.{Decimal}
use mini_lakehouse.Simulation.{
  Outcome, ArbitratedCycleProposal, SimulationRequest, Digests, CycleStatus, closed, rejected,
  open_cycle, CycleReason, order_notional_limit, cash_limit, exit_book_unavailable,
  exit_settled_shortfall, CycleResult, priority, cycle_id,
}
use mini_lakehouse.Simulation.Cycle.{
  Position, Execution, OpenCycle, State, position_of, with_position, initial_of, started_position,
  symbol_of, open_of, execution, result, Funding, fund_buy, entry_reason, priced, net_of, write,
}

module _ (env : Digests) (r : SimulationRequest) where
  -- `results[cycle_id] = _result(...)`
  unfoldable pub note :
      State → ArbitratedCycleProposal → CycleStatus → CycleReason → Option Execution → Outcome State
  note s p status reason entry =
      result env p status (some reason) entry none >>= λ c. ok (write c s)

  -- The state after an entry.
  abbrev pub entered : State → ArbitratedCycleProposal → Position → Execution → Funding → State
  entered s p position entry f = record s {
    positions =
        with_position
          (record position { bought_today = position.bought_today + p.outcome.order_quantity })
          s.positions;
    cash = Decimal.sub (Decimal.add s.cash f.draw) (Decimal.add entry.notional entry.charge);
    advance_principal = Decimal.add s.advance_principal f.draw;
    advance_interest = Decimal.add s.advance_interest f.interest;
    open_by_symbol = record { proposal = p; entry = entry } ∷ s.open_by_symbol;
    started = s.started + 1;
    realized_net = Decimal.sub s.realized_net f.interest;
  }

  abbrev pub funded :
      State → ArbitratedCycleProposal → Position → Execution → Option Funding → Outcome State
  funded s p position entry none = note s p rejected cash_limit none
  funded s p position entry (some f) = ok (entered s p position entry f)

  -- An entry at a price.
  unfoldable pub buy_at : State → ArbitratedCycleProposal → Position → Execution → Outcome State
  buy_at s p position entry =
      if Decimal.lt r.risk.max_order_notional_vnd entry.notional
      then note s p rejected order_notional_limit none
      else fund_buy r s (Decimal.add entry.notional entry.charge) >>= funded s p position entry

  -- The entry of a proposal, unless an early reason rejects it.
  abbrev pub buy : State → ArbitratedCycleProposal → Position → Option CycleReason → Outcome State
  buy s p position (some reason) = note s p rejected reason none
  buy s p position none = priced p.outcome.entry_vwap >>= λ book.
      execution r book true p.outcome.order_quantity >>= λ entry. buy_at s p position entry

  -- The body of the loop for phase 1.
  unfoldable pub enter : State → ArbitratedCycleProposal → Outcome State
  enter s p = position_of p.candidate.symbol s.positions >>= λ position.
      initial_of p.candidate.symbol r.account.positions >>= λ account.
      buy s p position (entry_reason r s p position account)

  -- The state after a sale.
  abbrev pub left :
      State → ArbitratedCycleProposal → Position → Execution → CycleResult → Decimal → State
  left s p position exit c net = record s {
    positions =
        with_position (record position { settled = position.settled - p.outcome.order_quantity })
          s.positions;
    pending_sales = Decimal.add s.pending_sales (Decimal.sub exit.notional exit.charge);
    open_by_symbol = keep_if (λ o. symbol_of o != p.candidate.symbol) s.open_by_symbol;
    results = c ∷ s.results;
    realized_net = Decimal.add s.realized_net net;
  }

  -- The sale of an open cycle at a price.
  unfoldable pub sell :
      State → ArbitratedCycleProposal → Position → OpenCycle → Decimal → Outcome State
  sell s p position o book = do
    exit ← execution r book false p.outcome.order_quantity
    c ← result env p closed none (some o.entry) (some exit)
    net ← net_of c.net_pnl_vnd
    ok (left s p position exit c net)

  -- The exit of an open cycle, at the price of its horizon if there is one.
  abbrev pub close :
      State → ArbitratedCycleProposal → Position → OpenCycle → Option Decimal → Outcome State
  close s p position o none = note s p open_cycle exit_book_unavailable (some o.entry)
  close s p position o (some book) =
      initial_of p.candidate.symbol r.account.positions >>= λ account.
      if ltb position.settled (p.outcome.order_quantity + account.core_min_qty)
      then note s p open_cycle exit_settled_shortfall (some o.entry)
      else sell s p position o book

  abbrev pub close_own :
      State → ArbitratedCycleProposal → Position → Option OpenCycle → Outcome State
  close_own s p position none = ok s
  close_own s p position (some o) =
      if cycle_id env o.proposal != cycle_id env p
      then ok s
      else close s p position o p.outcome.horizon_vwap

  -- The body of the loop for phase 0.
  unfoldable pub leave : State → ArbitratedCycleProposal → Outcome State
  leave s p = position_of p.candidate.symbol s.positions >>= λ position.
      close_own s p position (open_of p.candidate.symbol s.open_by_symbol)

-- `(time, phase, priority, proposal)`; `is_entry` is phase 1.
pub record Event : Type 0 where
  pub time : ℕ
  pub is_entry : Bool
  pub priority : ℕ
  pub proposal : ArbitratedCycleProposal

-- The order of `(time, phase, priority)`: a tie keeps the order of the events.
abbrev pub event_le : Event → Event → Bool
event_le a b =
    ltb a.time b.time
    || (a.time == b.time
        && ((not a.is_entry && b.is_entry)
            || ((a.is_entry && b.is_entry || not a.is_entry && not b.is_entry)
                && leb a.priority b.priority)))

unfoldable pub events_of : List ArbitratedCycleProposal → Outcome (List Event)
events_of [] = ok []
events_of (p ∷ ps) = do
  n ← priority p
  rest ← events_of ps
  ok (
      record { time = p.outcome.entry_at; is_entry = true; priority = n; proposal = p }
      ∷ record { time = p.outcome.horizon_at; is_entry = false; priority = n; proposal = p }
      ∷ rest)

module _ (env : Digests) (r : SimulationRequest) where
  unfoldable pub handle : State → Event → Outcome State
  handle s e = if e.is_entry then enter env r s e.proposal else leave env r s e.proposal

  unfoldable pub replay : State → List Event → Outcome State
  replay s [] = ok s
  replay s (e ∷ es) = handle s e >>= λ t. replay t es

  unfoldable pub start : State
  start = record {
    positions = map started_position r.account.positions;
    cash = r.account.cash_vnd;
    pending_sales = Decimal.zero_vnd;
    advance_principal = Decimal.zero_vnd;
    advance_interest = Decimal.zero_vnd;
    open_by_symbol = [];
    results = [];
    started = 0;
    realized_net = Decimal.zero_vnd;
  }

  -- The loop over the sorted events.
  unfoldable pub replayed : Outcome State
  replayed = do events ← events_of r.proposals; replay start (sorted event_le events)
